-- ===== src/Execution/Schedule/Rounds.antt =====
-- The two passes of a round of `run_mission` in crates/forge-execution/src/lib.rs over all goals.
use forge_os.Prelude.{
  ℕ, ◌≡◌, ◌≢◌, refl, sym, ◌∙◌, ap, subst, true, false, List, [], ◌∷◌, ok, err, ◌==◌, arith, All,
  mem, set_insert, set_remove, mem-set_remove, ==_iff, Bool-cases, inl, inr, or-eq-false,
}
use forge_os.Domain.Goal.{Goal}
use forge_os.Execution.Schedule.{Run, Outcome, launch, launch_pass, settle, settle_at}
use forge_os.Execution.Schedule.Frame.{
  Touches, launch-Touches, settle-Touches, settle_at-Touches, release-Touches, Touches-trans,
}
use forge_os.Execution.Schedule.Sync.{
  IsSynced, ids, Nodup, Touches-IsSynced, launch-IsSynced, settle-IsSynced,
}

pub ne_of_not_mem : (x y : ℕ) (xs : List ℕ) → mem x xs ≡ false → mem y xs ≡ true → y ≢ x
ne_of_not_mem x y xs a b e = ground (arith, subst (λ z. mem z xs ≡ true) e b)

pub Nodup-set_insert : (x : ℕ) (xs : List ℕ) → Nodup xs → Nodup (set_insert x xs)
Nodup-set_insert x xs n = elim (Bool-cases (mem x xs)) [
  | inl old ↦ rw old n
  | inr new ↦ rw new (new, n)
]

pub Nodup-set_remove : (x : ℕ) (xs : List ℕ) → Nodup xs → Nodup (set_remove x xs)
Nodup-set_remove x [] n = tt
Nodup-set_remove x (y ∷ ys) n = elim (Bool-cases (y == x)) [
  | inl hit ↦ rw hit (Nodup-set_remove x ys n.1)
  | inr miss ↦
      rw miss (mem-set_remove x y ys ∙ ground (arith, n.0, ==_iff x y), Nodup-set_remove x ys n.1)
]

-- A step at a goal that is not in the list keeps all of the list synced.
pub All-frame :
    {x : ℕ} {s t : Run} (gs : List Goal)
    → Touches x s t
    → mem x (ids gs) ≡ false
    → All (IsSynced s) gs
    → All (IsSynced t) gs
All-frame [] touch absent v = tt
All-frame {x} (g ∷ gs) touch absent v =
    let (other, rest) = or-eq-false (g.id == x) (mem x (ids gs)) absent in
    (Touches-IsSynced g touch (λ e. ground (arith, ==_iff g.id x)) v.0, All-frame gs touch rest v.1)

pub id-launch : (g : Goal) (s : Run) → (launch g s).0.id ≡ g.id
unfolding launch
id-launch g s = ground arith

pub id-settle : (r : Outcome) (g : Goal) (s : Run) → (settle r g s).0.id ≡ g.id
unfolding settle
id-settle (ok _) g s = ground arith
id-settle (err e) g s = ground arith

pub ids-launch_pass : (gs : List Goal) (s : Run) → ids (launch_pass gs s).0 ≡ ids gs
unfolding launch_pass
ids-launch_pass [] s = refl
ids-launch_pass (g ∷ gs) s = cc (id-launch g s, ids-launch_pass gs (launch g s).1)

pub ids-settle_at :
    (gid : ℕ) (r : Outcome) (gs : List Goal) (s : Run) → ids (settle_at gid r gs s).0 ≡ ids gs
unfolding settle_at
ids-settle_at gid r [] s = refl
ids-settle_at gid r (g ∷ gs) s = elim (Bool-cases (g.id == gid)) [
  | inl same ↦ rw (same, settle_at) (ap (λ i. i ∷ ids gs) (id-settle r g s))
  | inr other ↦ rw (other, settle_at) (ap (λ l. g.id ∷ l) (ids-settle_at gid r gs s))
]

launch_pass-frame :
    (gs : List Goal) (s : Run) (h : Goal)
    → mem h.id (ids gs) ≡ false
    → IsSynced s h
    → IsSynced (launch_pass gs s).1 h
unfolding launch_pass
launch_pass-frame [] s h absent v = v
launch_pass-frame (g ∷ gs) s h absent v =
    let (other, rest) = or-eq-false (g.id == h.id) (mem h.id (ids gs)) absent in
    launch_pass-frame gs (launch g s).1 h rest
      (Touches-IsSynced h (launch-Touches g s) (λ e. ground (arith, ==_iff g.id h.id)) v)

pub launch_pass-IsSynced :
    (gs : List Goal) (s : Run)
    → Nodup (ids gs)
    → All (IsSynced s) gs
    → All (IsSynced (launch_pass gs s).1) (launch_pass gs s).0
unfolding launch_pass
launch_pass-IsSynced [] s n v = tt
launch_pass-IsSynced (g ∷ gs) s n v = (
  launch_pass-frame gs (launch g s).1 (launch g s).0
      (subst (λ i. mem i (ids gs) ≡ false) (sym (id-launch g s)) n.0) (launch-IsSynced g s v.0),
  launch_pass-IsSynced gs (launch g s).1 n.1 (All-frame gs (launch-Touches g s) n.0 v.1),
)

module _ (gid : ℕ) (r : Outcome) (s : Run) (a : mem gid s.active ≡ true) where
  abbrev pub released : Run
  released = record s { active = set_remove gid s.active }

  settled-Touches : (gs : List Goal) → Touches gid s (settle_at gid r gs released).1
  settled-Touches gs = Touches-trans (release-Touches gid s) (settle_at-Touches gid r gs released)

  pub settle_at-IsSynced :
      (gs : List Goal)
      → Nodup (ids gs)
      → All (IsSynced s) gs
      → All (IsSynced (settle_at gid r gs released).1) (settle_at gid r gs released).0
  unfolding settle_at
  settle_at-IsSynced [] n v = tt
  settle_at-IsSynced (g ∷ gs) n v = elim (Bool-cases (g.id == gid)) [
    | inl same ↦
        let e : g.id ≡ gid = (==_iff g.id gid).0 same in
        rw (same, settle_at)
          (
            subst
                (λ i.
                  IsSynced (settle r g (record s { active = set_remove i s.active })).1
                    (settle r g (record s { active = set_remove i s.active })).0)
                e (settle-IsSynced r g s v.0 (subst (λ i. mem i s.active ≡ true) (sym e) a)),
            All-frame gs
                (subst (λ i. Touches i s (settle r g released).1) (sym e)
                  (Touches-trans (release-Touches gid s) (
                    subst (λ i. Touches i released (settle r g released).1) e
                      (settle-Touches r g released))))
                n.0 v.1,
          )
    | inr other ↦
        rw (other, settle_at)
          (
            Touches-IsSynced g (settled-Touches gs) (λ e. ground (arith, ==_iff g.id gid)) v.0,
            settle_at-IsSynced gs n.1 v.1,
          )
  ]
