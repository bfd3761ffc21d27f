-- ===== src/Prelude/Strings.antt =====
-- Text as a list of code points, for the parts of the program that walk it.
use Prim.Native.Char.{code}
use Prim.Native.Nat.{ℕ, zero, suc, ◌+◌, ◌/◌, ◌%◌, ◌*◌, ◌-◌, ◌<◌}
use Prim.Native.String.{String}
use mathlib.Core.Path.{◌≡◌, sym, ap, ◌∙◌}
use mathlib.Core.Logic.{◌↔◌, inl, inr}
use mathlib.Core.Bool.{Bool, true, false, ◌&&◌, ◌||◌}
use mathlib.Core.List.{List, [], ◌∷◌}
use native.Mathlib.Omega.{arith}
use forge_os.Prelude.Tests.{◌==◌, ==_iff, ltb, Bool-cases, if◌then◌else◌}

abbrev pub Text : Type 0
Text = List ℕ

-- The code points of a literal.
abbrev pub text : String → Text
text String.[] = []
text (String.◌∷◌ c s) = code c ∷ text s

unfoldable pub text_eq : Text → Text → Bool
text_eq [] [] = true
text_eq (a ∷ s) (b ∷ t) = a == b && text_eq s t
text_eq _ _ = false

pub text_eq_iff : (s t : Text) → (text_eq s t ≡ true) ↔ (s ≡ t)
unfolding text_eq
text_eq_iff [] [] = ground arith
text_eq_iff [] (b ∷ t) = ground arith
text_eq_iff (a ∷ s) [] = ground arith
text_eq_iff (a ∷ s) (b ∷ t) = ground (arith, ==_iff a b, text_eq_iff s t)

-- `str::starts_with`.
unfoldable pub starts_with : Text → Text → Bool
starts_with s [] = true
starts_with [] (b ∷ t) = false
starts_with (a ∷ s) (b ∷ t) = a == b && starts_with s t

-- `str::contains`.
unfoldable pub contains : Text → Text → Bool
unfolding starts_with
contains [] t = starts_with [] t
contains (a ∷ s) t = starts_with (a ∷ s) t || contains s t

-- The decimal digits of a number, on fuel above it.
unfoldable pub digits : ℕ → ℕ → Text → Text
digits zero n acc = acc
digits (suc fuel) n acc =
    let more = digits fuel (n / 10) ((48 + n % 10) ∷ acc) in
    if ltb n 10 then (48 + n) ∷ acc else more

unfoldable pub decimal : ℕ → Text
unfolding digits
decimal n = digits (suc n) n []

-- The number that digits tell, after those that were read.
abbrev read_digits : ℕ → Text → ℕ
read_digits m [] = m
read_digits m (c ∷ s) = read_digits (m * 10 + (c - 48)) s

read_digits-digits :
    (fuel n : ℕ) (acc : Text) → n < fuel → read_digits 0 (digits fuel n acc) ≡ read_digits n acc
unfolding digits
read_digits-digits zero n acc h = absurd (omega (arith, h))
read_digits-digits (suc fuel) n acc h = elim (Bool-cases (ltb n 10)) [
  | inl small ↦ rw (small, digits) (ap (λ m. read_digits m acc) (omega arith))
  | inr large ↦
      rw (large, digits)
        (read_digits-digits fuel (n / 10) ((48 + n % 10) ∷ acc) (ground (arith, h, large))
          ∙ ap (λ m. read_digits m acc) (omega arith))
]

pub decimal_injective : (a b : ℕ) → decimal a ≡ decimal b → a ≡ b
unfolding decimal
decimal_injective a b h =
    sym (read_digits-digits (suc a) a [] (omega arith))
    ∙ ap (read_digits 0) h
    ∙ read_digits-digits (suc b) b [] (omega arith)
