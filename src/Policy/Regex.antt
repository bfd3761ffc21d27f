-- ===== src/Policy/Regex.antt =====
-- The module `regex_lite` of crates/forge-policy/src/lib.rs.
use mathlib.Core.List.{reverse}
use forge_os.Prelude.{
  ℕ, Text, starts_with, contains, Bool, true, false, ◌&&◌, ◌||◌, List, [], ◌∷◌, Result, ok, err,
  ◌==◌, if◌then◌else◌, any,
}

pub record Re : Type 0 where
  pub anchored : Bool
  pub alts : List Text

unfoldable pub is_match : Re → Text → Bool
is_match re hay =
    if re.anchored then any (λ a. starts_with hay a) re.alts else any (λ a. contains hay a) re.alts

pub data CompileError : Type 0 where
  unsupported_metachar : CompileError

-- `strip_prefix('^')`: whether it was there, and what is left.
abbrev pub strip_caret : Text → Bool × Text
strip_caret [] = (false, [])
strip_caret (c ∷ s) = if c == b'^' then (true, s) else (false, c ∷ s)

-- `trim_start_matches(c)`
unfoldable pub trim_start : ℕ → Text → Text
trim_start k [] = []
trim_start k (c ∷ s) = let rest = trim_start k s in if c == k then rest else c ∷ s

-- `trim_end_matches(c)`
unfoldable pub trim_end : ℕ → Text → Text
unfolding trim_start
trim_end k s = reverse (trim_start k (reverse s))

-- `trim_end_matches("\\b")`, on the reversed text.
unfoldable pub trim_start_pairs : Text → Text
trim_start_pairs [] = []
trim_start_pairs (c ∷ []) = c ∷ []
trim_start_pairs (c ∷ d ∷ s) =
    let rest = trim_start_pairs s in if (c == b'b') && (d == 92) then rest else c ∷ d ∷ s

-- `rest.contains('[') || …`
abbrev pub is_metachar : ℕ → Bool
is_metachar c =
    (c == b'[')
    || (c == b']')
    || (c == b'*')
    || (c == b'+')
    || (c == b'?')
    || (c == b'.')
    || (c == b'{')
    || (c == 92)

abbrev pub prepend : ℕ → List Text → List Text
prepend c [] = (c ∷ []) ∷ []
prepend c (s ∷ rest) = (c ∷ s) ∷ rest

-- `split(c)`
unfoldable pub split : ℕ → Text → List Text
split k [] = [] ∷ []
split k (c ∷ s) = let rest = split k s in if c == k then [] ∷ rest else prepend c rest

abbrev pub strip_group : Text → Text
strip_group rest = trim_end b')' (trim_start b'(' rest)

unfoldable pub compile : Text → Result CompileError Re
compile pattern =
    let (anchored, rest) = strip_caret pattern in
    let rest' = strip_group (reverse (trim_start_pairs (reverse rest))) in
    if any is_metachar rest'
    then err unsupported_metachar
    else ok (record { anchored = anchored; alts = split b'|' rest' })
