-- ===== src/Execution/Tasks/Summary.antt =====
-- `summarize` of crates/forge-execution/src/lib.rs, on the UTF-8 bytes of the JSON text.
use forge_os.Prelude.{
  ℕ, zero, suc, Text, Bool, true, false, ◌&&◌, Option, none, some, [], ◌∷◌, ◌++◌, leb, ltb, decimal,
  if◌then◌else◌, length, take,
}

-- `str::is_char_boundary`: the index is at an end, or the byte there does not continue a character.
unfoldable pub is_char_boundary : Text → ℕ → Bool
is_char_boundary [] zero = true
is_char_boundary [] (suc i) = false
is_char_boundary (b ∷ s) zero = if leb 128 b && ltb b 192 then false else true
is_char_boundary (b ∷ s) (suc i) = is_char_boundary s i

-- `&s[..240]` panics off a boundary: `none`.
unfoldable pub summarize : Text → Option Text
unfolding decimal is_char_boundary
summarize s =
    if ltb 240 (length s)
    then (if is_char_boundary s 240
        then some
            (take 240 s ++ (226 ∷ 128 ∷ 166 ∷ b'(' ∷ (decimal (length s) ++ b'b' ∷ b')' ∷ [])))
        else none)
    else some s
