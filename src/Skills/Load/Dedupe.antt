-- ===== src/Skills/Load/Dedupe.antt =====
-- The loop of `load_all` of crates/forge-skills/src/loader.rs over the sorted skills.
use forge_os.Prelude.{
  ◌≡◌, ◌∙◌, refl, sym, ap, subst, ℕ, zero, suc, Text, text_eq, text_eq_iff, Bool, true, false, ◌&&◌,
  ◌||◌, List, [], ◌∷◌, ◌++◌, map, any, All, All-append, arith, Bool-cases, inl, inr,
}
use Prim.Native.Nat.{compare, Ordering}
use Prim.Native.Nat.compare
use mathlib.Core.List.{map-append}
use forge_os.Planner.{has}
use forge_os.Planner.Distinct.{distinct_names}
use forge_os.Skills.{Skill}
use forge_os.Skills.Files.Names.{has-append, distinct_names-concat}
use forge_os.Skills.Sort.{InOrder}
use forge_os.Skills.Version.{is_le, text_cmp, version_cmp}
use forge_os.Skills.Load.{name_of, by_version, dedupe}

-- A skill of that name with that version or a higher one is there.
abbrev pub has_best : List Skill → Skill → Bool
has_best out f =
    any
      (λ s. text_eq (name_of s) (name_of f) && is_le (version_cmp f.front.version s.front.version))
      out

compare_refl : (n : ℕ) → compare n n ≡ Ordering.eq
compare_refl zero = refl
compare_refl (suc n) = compare.suc-suc n n ∙ compare_refl n

text_cmp_refl : (s : Text) → text_cmp s s ≡ Ordering.eq
unfolding text_cmp
text_cmp_refl [] = refl
text_cmp_refl (c ∷ s) = rw (compare_refl c) (text_cmp_refl s)

-- Under one name the order is that of the versions, the highest first.
by_version-same :
    (s f : Skill)
    → text_eq (name_of s) (name_of f) ≡ true
    → by_version s f ≡ true
    → is_le (version_cmp f.front.version s.front.version) ≡ true
unfolding by_version
by_version-same s f same h =
    let e : name_of s ≡ name_of f = (text_eq_iff (name_of s) (name_of f)).0 same in
    let q : text_cmp (name_of s) (name_of f) ≡ Ordering.eq =
      subst (λ n. text_cmp (name_of s) n ≡ Ordering.eq) e (text_cmp_refl (name_of s)) in
    rw q at h

any-snoc {ℓ} :
    {A : Type ℓ} (p : A → Bool) (xs : List A) (y : A) → any p (xs ++ y ∷ []) ≡ (any p xs || p y)
any-snoc p [] y = ground arith
any-snoc p (x ∷ xs) y = ground (arith, any-snoc p xs y)

has_best-snoc :
    (taken : List Skill) (s f : Skill)
    → has_best taken f ≡ true
    → has_best (taken ++ s ∷ []) f ≡ true
has_best-snoc taken s f h =
    any-snoc
      (λ s. text_eq (name_of s) (name_of f) && is_le (version_cmp f.front.version s.front.version))
      taken s
    ∙ rw h refl

has_best-new :
    (taken : List Skill) (s f : Skill)
    → text_eq (name_of s) (name_of f) ≡ true
    → by_version s f ≡ true
    → has_best (taken ++ s ∷ []) f ≡ true
has_best-new taken s f same h =
    let le = by_version-same s f same h in
    any-snoc
      (λ s. text_eq (name_of s) (name_of f) && is_le (version_cmp f.front.version s.front.version))
      taken s
    ∙ rw same (rw le (or_true (has_best taken f)))
  where
    or_true : (b : Bool) → (b || true) ≡ true
    or_true b = ground arith

-- What the loop makes of the skills that were taken and those that follow.
pub record Deduped (taken ss out : List Skill) : Type 1 where
  pub distinct : distinct_names (map name_of out) ≡ true
  pub names :
      (n : Text) → has n (map name_of out) ≡ (has n (map name_of taken) || has n (map name_of ss))
  pub only : (P : Skill → Type 0) → All P taken → All P ss → All P out

dedupe-known :
    (taken : List Skill) (s : Skill) (ss : List Skill)
    → has (name_of s) (map name_of taken) ≡ true
    → dedupe taken (s ∷ ss) ≡ dedupe taken ss
unfolding dedupe
dedupe-known taken s ss known = rw (known, dedupe) refl

dedupe-new :
    (taken : List Skill) (s : Skill) (ss : List Skill)
    → has (name_of s) (map name_of taken) ≡ false
    → dedupe taken (s ∷ ss) ≡ dedupe (taken ++ s ∷ []) ss
unfolding dedupe
dedupe-new taken s ss fresh = rw (fresh, dedupe) refl

-- A name that is there is there whichever of its bearers is asked for.
has-same : (n m : Text) (xs : List Text) → text_eq n m ≡ true → has n xs ≡ true → has m xs ≡ true
has-same n m xs same there = subst (λ t. has t xs ≡ true) ((text_eq_iff n m).0 same) there

known_name :
    (n m : Text) (xs ys : List Text)
    → has n xs ≡ true
    → (has m xs || has m ys) ≡ (has m xs || (text_eq n m || has m ys))
known_name n m xs ys there = elim (Bool-cases (text_eq n m)) [
  | inr other ↦ rw other refl
  | inl same ↦ rw (has-same n m xs same there) refl
]

or_nothing : (a : Bool) → a ≡ (a || false)
or_nothing a = ground arith

or_shift : (a b c : Bool) → ((a || (b || false)) || c) ≡ (a || (b || c))
or_shift a b c = ground arith

pub dedupe-Deduped :
    (taken ss : List Skill)
    → distinct_names (map name_of taken) ≡ true
    → Deduped taken ss (dedupe taken ss)
unfolding dedupe
dedupe-Deduped taken [] uniq = record {
  distinct = uniq;
  names = λ n. or_nothing (has n (map name_of taken));
  only = λ P h k. h;
}
dedupe-Deduped taken (s ∷ ss) uniq = elim (Bool-cases (has (name_of s) (map name_of taken))) [
  | inl known ↦
      let d = dedupe-Deduped taken ss uniq in
      subst (Deduped taken (s ∷ ss)) (sym (dedupe-known taken s ss known)) (record {
        distinct = d.distinct;
        names =
            λ n. d.names n ∙ known_name (name_of s) n (map name_of taken) (map name_of ss) known;
        only = λ P h k. d.only P h k.1;
      })
  | inr fresh ↦
      let split = map-append name_of taken (s ∷ []) in
      let d = dedupe-Deduped (taken ++ s ∷ []) ss (
        subst (λ l. distinct_names l ≡ true) (sym split)
          (distinct_names-concat (map name_of taken) (name_of s) uniq fresh)) in
      subst (Deduped taken (s ∷ ss)) (sym (dedupe-new taken s ss fresh)) (record {
        distinct = d.distinct;
        names = λ n.
            d.names n
            ∙ ap (λ b. b || has n (map name_of ss))
                (ap (has n) split ∙ has-append n (map name_of taken) (name_of s ∷ []))
            ∙ or_shift (has n (map name_of taken)) (text_eq (name_of s) n) (has n (map name_of ss));
        only = λ P h k. d.only P (All-append P taken (s ∷ []) h (k.0, tt)) k.1;
      })
]

has_best-dedupe :
    (taken ss : List Skill) (f : Skill)
    → has_best taken f ≡ true
    → has_best (dedupe taken ss) f ≡ true
unfolding dedupe
has_best-dedupe taken [] f h = h
has_best-dedupe taken (s ∷ ss) f h = elim (Bool-cases (has (name_of s) (map name_of taken))) [
  | inl known ↦
      subst (λ l. has_best l f ≡ true) (sym (dedupe-known taken s ss known))
        (has_best-dedupe taken ss f h)
  | inr fresh ↦
      subst (λ l. has_best l f ≡ true) (sym (dedupe-new taken s ss fresh))
        (has_best-dedupe (taken ++ s ∷ []) ss f (has_best-snoc taken s f h))
]

-- Each of these skills, if its name is taken, is matched by what was taken under it.
abbrev Matched : List Skill → List Skill → Type 0
Matched taken = All (λ f. has (name_of f) (map name_of taken) ≡ true → has_best taken f ≡ true)

Matched-snoc :
    (taken : List Skill) (s : Skill) (fs : List Skill)
    → All (λ f. by_version s f ≡ true) fs
    → Matched taken fs
    → Matched (taken ++ s ∷ []) fs
Matched-snoc taken s [] first h = tt
Matched-snoc taken s (f ∷ fs) first h = (
  λ there. elim (Bool-cases (text_eq (name_of s) (name_of f))) [
    | inl same ↦ has_best-new taken s f same first.0
    | inr other ↦
        let split =
          ap (has (name_of f)) (map-append name_of taken (s ∷ []))
          ∙ has-append (name_of f) (map name_of taken) (name_of s ∷ []) in
        has_best-snoc taken s f
          (h.0 (old (has (name_of f) (map name_of taken)) _ other (sym split ∙ there)))
  ],
  Matched-snoc taken s fs first.1 h.1,
)
  where
    old : (a b : Bool) → b ≡ false → (a || (b || false)) ≡ true → a ≡ true
    old a b other h = ground (arith, other, h)

pub dedupe-has_best :
    (taken ss : List Skill)
    → InOrder by_version ss
    → All (λ s. by_version s s ≡ true) ss
    → Matched taken ss
    → All (λ f. has_best (dedupe taken ss) f ≡ true) ss
unfolding dedupe
dedupe-has_best taken [] order self h = tt
dedupe-has_best taken (s ∷ ss) order self h =
    elim (Bool-cases (has (name_of s) (map name_of taken))) [
      | inl known ↦
          subst (λ l. All (λ f. has_best l f ≡ true) (s ∷ ss)) (sym (dedupe-known taken s ss known))
            (has_best-dedupe taken ss s (h.0 known), dedupe-has_best taken ss order.1 self.1 h.1)
      | inr fresh ↦
          subst (λ l. All (λ f. has_best l f ≡ true) (s ∷ ss)) (sym (dedupe-new taken s ss fresh))
            (
              has_best-dedupe (taken ++ s ∷ []) ss s
                  (has_best-new taken s s ((text_eq_iff (name_of s) (name_of s)).1 refl) self.0),
              dedupe-has_best (taken ++ s ∷ []) ss order.1 self.1
                  (Matched-snoc taken s ss order.0 h.1),
            )
    ]
