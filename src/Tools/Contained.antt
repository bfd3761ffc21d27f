-- ===== src/Tools/Contained.antt =====
-- Where the paths that `safe_resolve` of crates/forge-tools/src/builtins.rs lets through lie.
use forge_os.Prelude.{
  ◌≡◌, refl, sym, ap, ◌∙◌, subst, text_eq_iff, Bool, true, false, Option, none, some, [], ◌∷◌, ◌++◌,
  Result, ok, All, All-append, ◌⊎◌, inl, inr, arith, Bool-cases, Option-cases, and-eq-true,
  append_assoc, append-nil,
}
use mathlib.Core.List.{reverse, reverse-cons, reverse-reverse}
use forge_os.Tools.{
  Component, parent_dir, normal, FilePath, same_component, path_starts_with, GivenPath, join,
  or_itself, probe_ancestors, canonicalize_deepest_existing, PathError, safe_resolve,
}

abbrev pub IsName : Component → Type 0
IsName parent_dir = ⊥
IsName (normal n) = Unit

abbrev pub is_parent : Component → Bool
is_parent parent_dir = true
is_parent (normal n) = false

-- A canonical path has names only.
abbrev pub GivesNames : (FilePath → Option FilePath) → Type 0
GivesNames canonicalize = (p q : FilePath) → canonicalize p ≡ some q → All IsName q

same_component-eq : (c d : Component) → same_component c d ≡ true → c ≡ d
same_component-eq parent_dir parent_dir h = refl
same_component-eq parent_dir (normal b) h = absurd (ground (arith, h))
same_component-eq (normal a) parent_dir h = absurd (ground (arith, h))
same_component-eq (normal a) (normal b) h = ap normal ((text_eq_iff a b).0 h)

path_starts_with-append :
    (p q : FilePath) → path_starts_with p q ≡ true → (rest : FilePath) × (p ≡ q ++ rest)
unfolding path_starts_with
path_starts_with-append p [] h = (p, refl)
path_starts_with-append [] (c ∷ cs) h = absurd (ground (arith, h))
path_starts_with-append (d ∷ p) (c ∷ cs) h =
    let (one, more) = and-eq-true (same_component d c) (path_starts_with p cs) h in
    let (rest, e) = path_starts_with-append p cs more in
    (rest, ap (λ x. x ∷ p) (same_component-eq d c one) ∙ ap (λ l. c ∷ l) e)

-- A `..` of the path, behind a part that the file system does not know.
pub record BehindMissing (canonicalize : FilePath → Option FilePath) (target : FilePath)
    : Type 0 where
  pub before : FilePath
  pub after : FilePath
  pub shape : target ≡ before ++ parent_dir ∷ after
  pub missing : canonicalize (before ++ parent_dir ∷ []) ≡ none

module _ (canonicalize : FilePath → Option FilePath) (names : GivesNames canonicalize) where
  -- Names only, or the target as it was.
  abbrev Resolved : FilePath → FilePath → Type 0
  Resolved target p = All IsName p ⊎ ((p ≡ target) × BehindMissing canonicalize target)

  probe_ancestors-Resolved :
      (target probe tail : FilePath)
      → target ≡ reverse probe ++ tail
      → All IsName tail
      → Resolved target (probe_ancestors canonicalize target probe tail)
  unfolding probe_ancestors
  probe_ancestors-Resolved target [] tail e t = elim (Option-cases (canonicalize [])) [
    | inl missing ↦ rw (missing, probe_ancestors) (inl (subst (All IsName) (sym e) t))
    | inr (q, there) ↦
        rw (there, probe_ancestors) (inl (All-append IsName q tail (names [] q there) t))
  ]
  probe_ancestors-Resolved target (parent_dir ∷ probe) tail e t =
      let back = reverse-cons parent_dir probe in
      elim (Option-cases (canonicalize (reverse (parent_dir ∷ probe)))) [
        | inr (q, there) ↦
            rw (there, probe_ancestors) (inl (All-append IsName q tail (names _ q there) t))
        | inl missing ↦
            rw (missing, probe_ancestors)
              (inr (
                refl,
                record {
                  before = reverse probe;
                  after = tail;
                  shape =
                      e
                      ∙ ap (λ l. l ++ tail) back
                      ∙ append_assoc (reverse probe) (parent_dir ∷ []) tail;
                  missing = ap canonicalize (sym back) ∙ missing;
                },
              ))
      ]
  probe_ancestors-Resolved target (normal n ∷ probe) tail e t =
      elim (Option-cases (canonicalize (reverse (normal n ∷ probe)))) [
        | inr (q, there) ↦
            rw (there, probe_ancestors) (inl (All-append IsName q tail (names _ q there) t))
        | inl missing ↦
            rw (missing, probe_ancestors)
              (probe_ancestors-Resolved target probe (normal n ∷ tail)
                (e
                  ∙ ap (λ l. l ++ tail) (reverse-cons (normal n) probe)
                  ∙ append_assoc (reverse probe) (normal n ∷ []) tail)
                (tt, t))
      ]

  pub canonicalize_deepest_existing-Resolved :
      (target : FilePath) → Resolved target (canonicalize_deepest_existing canonicalize target)
  unfolding canonicalize_deepest_existing
  canonicalize_deepest_existing-Resolved target =
      probe_ancestors-Resolved target (reverse target) []
        (sym (reverse-reverse target) ∙ sym (append-nil _)) tt

names_missing :
    (canonicalize : FilePath → Option FilePath) (target : FilePath)
    → All IsName target
    → BehindMissing canonicalize target
    → ⊥
names_missing canonicalize target h m = behind m.before m.after (subst (All IsName) m.shape h)
  where
    behind : (before after : FilePath) → All IsName (before ++ parent_dir ∷ after) → ⊥
    behind [] after h = h.0
    behind (c ∷ before) after h = behind before after h.1

pub record IsContained (canonicalize : FilePath → Option FilePath) (root : FilePath)
    (given : GivenPath) (p : FilePath) : Type 0 where
  pub rest : FilePath
  pub below : p ≡ or_itself root (canonicalize root) ++ rest
  pub named : All IsName p ⊎ ((p ≡ join root given) × BehindMissing canonicalize (join root given))
  pub plain : All IsName (join root given) → All IsName p

-- Where canonical paths have no `..`: a path that `safe_resolve` lets through lies below the
-- canonical workspace root, component by component. It has no `..` itself, except where it is the
-- asked path as it was, taken at the root if it is relative, with a `..` behind a part that the
-- file system cannot find. So for an asked path without `..` it has none.
pub safe_resolve-IsContained :
    (canonicalize : FilePath → Option FilePath) (names : GivesNames canonicalize) (root : FilePath)
    (given : GivenPath) (p : FilePath)
    → safe_resolve canonicalize root given ≡ ok p
    → IsContained canonicalize root given p
unfolding safe_resolve
safe_resolve-IsContained canonicalize names root given p h =
    let target = join root given in
    let canon_root = or_itself root (canonicalize root) in
    let q = canonicalize_deepest_existing canonicalize target in
    let resolved = canonicalize_deepest_existing-Resolved canonicalize names target in
    elim (Bool-cases (path_starts_with q canon_root)) [
      | inr outside ↦ absurd (let k = rw (outside, safe_resolve) at h in ground (arith, k))
      | inl below ↦
          let k : ◌≡◌ {A = Result PathError FilePath} (ok q) (ok p) =
            rw (below, safe_resolve) at h in
          let same : q ≡ p = cc in
          let (rest, e) = path_starts_with-append q canon_root below in
          subst (IsContained canonicalize root given) same (record {
            rest = rest;
            below = e;
            named = resolved;
            plain = λ clean. elim resolved [
              | inl named ↦ named
              | inr (_, m) ↦ absurd (names_missing canonicalize target clean m)
            ];
          })
    ]
