-- ===== src/Service/Truncate.antt =====
-- `truncate` of crates/forge-mission/src/lib.rs, on the UTF-8 bytes of a text.
use forge_os.Prelude.{
  ℕ, zero, suc, ◌≤◌, ◌≡◌, refl, sym, ap, ◌∙◌, Text, true, false, [], ◌∷◌, ◌++◌, leb, if◌then◌else◌,
  length, take, arith, ◌⊎◌, inl, inr, Bool-cases, length-append, ◌+◌,
}
use forge_os.Execution.Tasks.Summary.{is_char_boundary}

-- The `while` loop on `cut`.
unfoldable pub cut_at : Text → ℕ → ℕ
unfolding is_char_boundary
cut_at s zero = zero
cut_at s (suc cut) =
    let rest = cut_at s cut in if is_char_boundary s (suc cut) then suc cut else rest

unfoldable pub truncate : Text → ℕ → Text
unfolding cut_at
truncate s cap = if leb (length s) cap then s else take (cut_at s cap) s ++ (226 ∷ 128 ∷ 166 ∷ [])

length-take-le : (n : ℕ) (s : Text) → length (take n s) ≤ n
length-take-le zero s = omega arith
length-take-le (suc n) [] = omega arith
length-take-le (suc n) (b ∷ s) = omega (arith, length-take-le n s)

cut_at-boundary :
    (s : Text) (cap : ℕ) → (cut_at s cap ≡ 0) ⊎ (is_char_boundary s (cut_at s cap) ≡ true)
unfolding cut_at
cut_at-boundary s zero = inl refl
cut_at-boundary s (suc cap) = elim (Bool-cases (is_char_boundary s (suc cap))) [
  | inl hit ↦ inr (rw hit hit)
  | inr miss ↦ rw miss (cut_at-boundary s cap)
]

cut_at-le : (s : Text) (cap : ℕ) → cut_at s cap ≤ cap
unfolding cut_at
cut_at-le s zero = omega arith
cut_at-le s (suc cap) = ground (arith, cut_at-le s cap)

cut_at-largest : (s : Text) (cap k : ℕ) → is_char_boundary s k ≡ true → k ≤ cap → k ≤ cut_at s cap
unfolding cut_at
cut_at-largest s zero k h le = le
cut_at-largest s (suc cap) k h le = elim (Bool-cases (is_char_boundary s (suc cap))) [
  | inl hit ↦ rw hit le
  | inr miss ↦ rw miss (elim (Bool-cases (leb k cap)) [
    | inl small ↦ cut_at-largest s cap k h (ground (arith, small))
    | inr large ↦
        let same : k ≡ suc cap = ground (arith, large, le) in
        let clash : true ≡ false = sym h ∙ ap (is_char_boundary s) same ∙ miss in absurd (cc clash)
  ])
]

-- A text longer than the cap is cut at the last character boundary up to the cap: what is kept is
-- no longer than the cap, it ends at a boundary or is empty, and every other boundary up to the
-- cap comes before. A shorter text is as it was. So no slice is ever taken inside a character.
pub truncate-cut :
    (s : Text) (cap k : ℕ)
    → is_char_boundary s k ≡ true
    → k ≤ cap
    → (length s ≤ cap) × (truncate s cap ≡ s)
      ⊎ ((suc cap ≤ length s)
          × (cut : ℕ) × (truncate s cap ≡ take cut s ++ (226 ∷ 128 ∷ 166 ∷ []))
          × ((cut ≡ 0) ⊎ (is_char_boundary s cut ≡ true))
          × (k ≤ cut)
          × (cut ≤ cap)
          × (length (truncate s cap) ≤ cap + 3))
unfolding truncate
truncate-cut s cap k h le = elim (Bool-cases (leb (length s) cap)) [
  | inl short ↦ inl (ground (arith, short), rw (short, truncate) refl)
  | inr long ↦ inr (
    ground (arith, long),
    cut_at s cap,
    rw (long, truncate) refl,
    cut_at-boundary s cap,
    cut_at-largest s cap k h le,
    cut_at-le s cap,
    rw (long, truncate)
        (omega (
          arith,
          length-append (take (cut_at s cap) s) (226 ∷ 128 ∷ 166 ∷ []),
          length-take-le (cut_at s cap) s,
          cut_at-le s cap,
        )),
  )
]
