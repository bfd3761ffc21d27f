-- ===== src/Persistence/SkillHistory/Active.antt =====
-- At most one row of a name in the table `skills_history` is not retired.
use forge_os.Prelude.{
  ℕ, suc, ◌+◌, ◌≡◌, ◌≤◌, ◌∙◌, ap, refl, subst, Text, text_eq, text_eq_iff, Bool, false, ◌&&◌,
  Option, none, some, List, [], ◌∷◌, ◌++◌, map, count_if, arith, if◌then◌else◌, ◌==◌, ==-refl,
  Bool-cases, Option-cases, inl, inr,
}
use forge_os.Persistence.SkillHistory.{
  SkillVersionRecord, NewSkillVersion, SkillHistory, is_live, new_row, promote, newest, active_row,
  retire_row, retire_id, retire_active,
}

abbrev pub live : Text → List SkillVersionRecord → ℕ
live name = count_if (is_live name)

-- How many rows pass a test that a change of rows can only take away.
count_if-map :
    (p : SkillVersionRecord → Bool) (f : SkillVersionRecord → SkillVersionRecord)
    → ((r : SkillVersionRecord) → p r ≡ false → p (f r) ≡ false)
    → (rs : List SkillVersionRecord) → count_if p (map f rs) ≤ count_if p rs
count_if-map p f keeps [] = omega arith
count_if-map p f keeps (r ∷ rs) = elim (Bool-cases (p r)) [
  | inl held ↦ ground (arith, held, count_if-map p f keeps rs)
  | inr other ↦ ground (arith, other, keeps r other, count_if-map p f keeps rs)
]

count_if-append :
    (p : SkillVersionRecord → Bool) (xs : List SkillVersionRecord) (y : SkillVersionRecord)
    → count_if p (xs ++ y ∷ []) ≡ count_if p xs + (if p y then 1 else 0)
count_if-append p [] y = ground arith
count_if-append p (x ∷ xs) y = ground (arith, count_if-append p xs y)

and_false : (a : Bool) → (a && false) ≡ false
and_false a = ground arith

module _ (now : ℕ) (reason : Text) where
  retire_row-is_live :
      (name : Text) (r : SkillVersionRecord) → is_live name (retire_row now reason r) ≡ false
  unfolding is_live
  retire_row-is_live name r = and_false (text_eq r.name name)

  retire_id-is_live :
      (name : Text) (id : ℕ) (r : SkillVersionRecord)
      → is_live name r ≡ false
      → is_live name (retire_id id now reason r) ≡ false
  retire_id-is_live name id r h = elim (Bool-cases (r.id == id)) [
    | inl same ↦ rw same (retire_row-is_live name r)
    | inr other ↦ rw other h
  ]

  retire_id_self :
      (name : Text) (r : SkillVersionRecord) → is_live name (retire_id r.id now reason r) ≡ false
  retire_id_self name r = rw (==-refl r.id) (retire_row-is_live name r)

  newest-none :
      (p : SkillVersionRecord → Bool) (rs : List SkillVersionRecord)
      → newest p rs ≡ none
      → count_if p rs ≡ 0
  unfolding newest
  newest-none p [] h = refl
  newest-none p (r ∷ rs) h = elim (Option-cases (newest p rs)) [
    | inr (x, e) ↦ absurd (let k = rw (e, newest) at h in ground (arith, k))
    | inl e ↦ elim (Bool-cases (p r)) [
      | inl held ↦ absurd (let k = rw (e, held, newest) at h in ground (arith, k))
      | inr other ↦ ground (arith, other, newest-none p rs e)
    ]
  ]

  -- Retiring the row that is found takes one live row away.
  newest-retired :
      (name : Text) (rs : List SkillVersionRecord) (x : SkillVersionRecord)
      → newest (is_live name) rs ≡ some x
      → suc (live name (map (retire_id x.id now reason) rs)) ≤ live name rs
  unfolding newest
  newest-retired name [] x h = absurd (ground (arith, h))
  newest-retired name (r ∷ rs) x h = elim (Option-cases (newest (is_live name) rs)) [
    | inr (y, e) ↦
        let same : y ≡ x =
          let k : ◌≡◌ {A = Option SkillVersionRecord} (some y) (some x) = rw (e, newest) at h in
          cc in
        let rest = newest-retired name rs x (e ∙ ap some same) in
        elim (Bool-cases (is_live name r)) [
          | inl held ↦ ground (arith, held, rest)
          | inr other ↦ ground (arith, other, retire_id-is_live name x.id r other, rest)
        ]
    | inl e ↦ elim (Bool-cases (is_live name r)) [
      | inr other ↦ absurd (let k = rw (e, other, newest) at h in ground (arith, k))
      | inl held ↦
          let same : r ≡ x =
            let k : ◌≡◌ {A = Option SkillVersionRecord} (some r) (some x) =
              rw (e, held, newest) at h in
            cc in
          let gone : is_live name (retire_id x.id now reason r) ≡ false =
            subst (λ y. is_live name (retire_id y.id now reason r) ≡ false) same
              (retire_id_self name r) in
          let fewer =
            count_if-map (is_live name) (retire_id x.id now reason) (retire_id-is_live name x.id)
              rs in
          ground (arith, held, gone, fewer)
    ]
  ]

  retire_active-live :
      (name : Text) (h : SkillHistory)
      → live name h.rows ≤ 1
      → live name (retire_active now name reason h).rows ≡ 0
  unfolding retire_active
  retire_active-live name h one = elim (Option-cases (active_row name h)) [
    | inl e ↦ rw (e, retire_active) (newest-none (is_live name) h.rows e)
    | inr (x, e) ↦ rw (e, retire_active) (omega (arith, one, newest-retired name h.rows x e))
  ]

  pub retire_active-le :
      (name m : Text) (h : SkillHistory)
      → live m (retire_active now name reason h).rows ≤ live m h.rows
  unfolding retire_active
  retire_active-le name m h = elim (Option-cases (active_row name h)) [
    | inl e ↦ rw (e, retire_active) (omega arith)
    | inr (x, e) ↦
        rw (e, retire_active)
          (count_if-map (is_live m) (retire_id x.id now reason) (retire_id-is_live m x.id) h.rows)
  ]

abbrev pub OneActive : SkillHistory → Type 0
OneActive h = (name : Text) → live name h.rows ≤ 1

pub retire_active-OneActive :
    (now : ℕ) (name reason : Text) (h : SkillHistory)
    → OneActive h
    → OneActive (retire_active now name reason h)
retire_active-OneActive now name reason h one m =
    omega (arith, one m, retire_active-le now reason name m h)

-- A row that is added after the retirement of its name's active row is the only one of the name.
pub promote-OneActive :
    (now now' : ℕ) (reason : Text) (v : NewSkillVersion) (h : SkillHistory)
    → OneActive h
    → OneActive (promote now' v (retire_active now v.name reason h))
unfolding promote is_live
promote-OneActive now now' reason v h one m =
    let rows = (retire_active now v.name reason h).rows in
    let row = new_row (retire_active now v.name reason h).next_id now' v in
    elim (Bool-cases (text_eq v.name m)) [
      | inl same ↦
          let zero_left =
            subst (λ n. live n rows ≡ 0) ((text_eq_iff v.name m).0 same)
              (retire_active-live now reason v.name h (one v.name)) in
          ground (arith, count_if-append (is_live m) rows row, zero_left)
      | inr other ↦ ground (
        arith,
        count_if-append (is_live m) rows row,
        other,
        one m,
        retire_active-le now reason v.name m h,
      )
    ]
