-- ===== src/Skills/Load/Best.antt =====
-- Which skills `load_all` of crates/forge-skills/src/loader.rs gives.
use forge_os.Prelude.{
  ◌≡◌, ◌∙◌, refl, sym, ◌⊎◌, Text, Bool, true, false, not, some, List, [], ◌∷◌, map, any, All,
  All-Stands, keep_if, arith, Bool-cases, inl, inr,
}
use forge_os.Planner.Distinct.{distinct_names}
use forge_os.Skills.{Skill, SkillStatus, active, pending_review, archived, Yaml}
use forge_os.Skills.Sort.{
  sort_by, any-sort_by, All-sort_by, is_total, sort_by-InOrder, is_total_refl,
}
use forge_os.Skills.Load.{
  Entries, is_permitted, name_of, by_version, dedupe, walk, permitted, load_all,
}
use forge_os.Skills.Load.Dedupe.{has_best, dedupe-Deduped, dedupe-has_best}

-- The statuses that are loaded.
abbrev pub IsAllowed : Bool → SkillStatus → Type 0
IsAllowed include_pending s = (s ≡ active) ⊎ ((s ≡ pending_review) × (include_pending ≡ true))

IsAllowed-permitted : (b : Bool) (s : SkillStatus) → IsAllowed b s → is_permitted b s ≡ true
IsAllowed-permitted b s (inl e) = rw e refl
IsAllowed-permitted b s (inr (e, on)) = rw e on

permitted-IsAllowed : (b : Bool) (s : SkillStatus) → is_permitted b s ≡ true → IsAllowed b s
permitted-IsAllowed b active h = inl refl
permitted-IsAllowed b pending_review h = inr (refl, h)
permitted-IsAllowed b archived h = absurd (ground (arith, h))

module _ (include_pending : Bool) where
  kept :
      (P : Skill → Type 0) (ss : List Skill)
      → All (λ s. IsAllowed include_pending s.front.status → P s) ss
      → All P (keep_if (λ s. is_permitted include_pending s.front.status) ss)
  kept P [] h = tt
  kept P (s ∷ ss) h = elim (Bool-cases (is_permitted include_pending s.front.status)) [
    | inl on ↦ rw on (h.0 (permitted-IsAllowed include_pending s.front.status on), kept P ss h.1)
    | inr off ↦ rw off (kept P ss h.1)
  ]

  unkept :
      (P : Skill → Type 0) (ss : List Skill)
      → All P (keep_if (λ s. is_permitted include_pending s.front.status) ss)
      → All (λ s. IsAllowed include_pending s.front.status → P s) ss
  unkept P [] h = tt
  unkept P (s ∷ ss) h = elim (Bool-cases (is_permitted include_pending s.front.status)) [
    | inl on ↦ let k = rw on at h in (λ a. k.0, unkept P ss k.1)
    | inr off ↦
        let k = rw off at h in
        (
          λ a. absurd (
              let on = IsAllowed-permitted include_pending s.front.status a in
              ground (arith, on, off)),
          unkept P ss k,
        )
  ]

  -- What loading gives, against the skills in the files that are read.
  pub record IsLoaded (walked out : List Skill) : Type 1 where
    pub distinct : distinct_names (map name_of out) ≡ true
    pub best : All (λ f. IsAllowed include_pending f.front.status → has_best out f ≡ true) walked
    pub only :
        (P : Skill → Type 0)
        → All (λ s. IsAllowed include_pending s.front.status → P s) walked
        → All P out

none_fails :
    (p : Skill → Bool) (xs : List Skill)
    → All (λ f. p f ≡ true) xs
    → any (λ f. not (p f)) xs ≡ false
none_fails p [] h = refl
none_fails p (x ∷ xs) h = ground (arith, h.0, none_fails p xs h.1)

all_pass :
    (p : Skill → Bool) (xs : List Skill)
    → any (λ f. not (p f)) xs ≡ false
    → All (λ f. p f ≡ true) xs
all_pass p [] h = tt
all_pass p (x ∷ xs) h =
    let one : p x ≡ true = ground (arith, h) in
    let rest : any (λ f. not (p f)) xs ≡ false = ground (arith, h) in (one, all_pass p xs rest)

-- If the order by name and version is total on the skills below the folder whose status is
-- permitted, loading returns. It gives one skill for each name that one of them has, with a version
-- that none of the same name is above, and no other skills than those: it gives none but active
-- ones, and pending ones where these are asked for, and whatever holds of all such skills in the
-- files that are read holds of all that are loaded.
pub load_all-IsLoaded :
    (yaml : Yaml) (include_pending : Bool) (root : Text) (es : Entries)
    → is_total by_version (permitted yaml include_pending root es) ≡ true
    → (out : List Skill) × (load_all yaml include_pending root es ≡ some out)
      × IsLoaded include_pending (walk yaml include_pending root es) out
unfolding load_all
load_all-IsLoaded yaml include_pending root es total =
    let found = permitted yaml include_pending root es in
    let sorted = sort_by by_version found in
    let out = dedupe [] sorted in
    let d = dedupe-Deduped [] sorted refl in
    let self : All (λ s. by_version s s ≡ true) sorted =
      All-sort_by by_version (λ s. by_version s s ≡ true) found
        (All-Stands (λ s. by_version s s ≡ true) found (is_total_refl by_version found total)) in
    let best =
      dedupe-has_best [] sorted (sort_by-InOrder by_version found total) self
        (All-Stands _ sorted (λ f s none_taken. absurd (ground (arith, none_taken)))) in
    let none_missed : any (λ f. not (has_best out f)) found ≡ false =
      sym (any-sort_by by_version (λ f. not (has_best out f)) found)
      ∙ none_fails (has_best out) sorted best in
    (
      out,
      rw (total, load_all) refl,
      record {
        distinct = d.distinct;
        best =
            unkept include_pending (λ f. has_best out f ≡ true) (walk yaml include_pending root es)
              (all_pass (has_best out) found none_missed);
        only = λ P h. d.only P tt (
            All-sort_by by_version P found
              (kept include_pending P (walk yaml include_pending root es) h));
      },
    )
