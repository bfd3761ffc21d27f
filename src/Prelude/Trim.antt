-- ===== src/Prelude/Trim.antt =====
-- `str::trim`, with what it does to blanks around a text.
use Prim.Native.Nat.{ℕ}
use mathlib.Core.Path.{◌≡◌, refl, sym, ap, subst, ◌∙◌}
use mathlib.Core.Logic.{◌⊎◌, inl, inr}
use mathlib.Core.Bool.{Bool, true, false, ◌&&◌, ◌||◌}
use mathlib.Core.List.{
  [], ◌∷◌, ◌++◌, append-nil, reverse, reverse-cons, reverse-append, reverse-reverse,
}
use forge_os.Prelude.Tests.{◌==◌, leb, if◌then◌else◌, Bool-cases}
use forge_os.Prelude.Lists.{All, All-append}
use forge_os.Prelude.Strings.{Text}

-- `char::is_whitespace`: the code points with the Unicode property White_Space.
unfoldable pub is_whitespace : ℕ → Bool
is_whitespace c =
    (leb 9 c && leb c 13)
    || c == 32
    || c == 133
    || c == 160
    || c == 5760
    || (leb 8192 c && leb c 8202)
    || c == 8232
    || c == 8233
    || c == 8239
    || c == 8287
    || c == 12288

unfoldable pub trim_start : Text → Text
unfolding is_whitespace
trim_start [] = []
trim_start (c ∷ s) = let rest = trim_start s in if is_whitespace c then rest else c ∷ s

unfoldable pub trim_end : Text → Text
unfolding trim_start
trim_end s = reverse (trim_start (reverse s))

unfoldable pub trim : Text → Text
unfolding trim_start trim_end
trim s = trim_end (trim_start s)

abbrev pub Blank : Text → Type 0
Blank = All (λ c. is_whitespace c ≡ true)

trim_start-Blank :
    (ws : Text) (c : ℕ) (s : Text)
    → Blank ws
    → is_whitespace c ≡ false
    → trim_start (ws ++ c ∷ s) ≡ c ∷ s
unfolding trim_start
trim_start-Blank [] c s blank solid = rw (solid, trim_start) refl
trim_start-Blank (w ∷ ws) c s blank solid =
    rw (blank.0, trim_start) (trim_start-Blank ws c s blank.1 solid)

Blank-reverse : (ws : Text) → Blank ws → Blank (reverse ws)
Blank-reverse [] blank = tt
Blank-reverse (w ∷ ws) blank =
    subst Blank (sym (reverse-cons w ws))
      (All-append _ (reverse ws) (w ∷ []) (Blank-reverse ws blank.1) (blank.0, tt))

-- A text that starts and ends with something, between blanks.
pub trim-Blank :
    (ws vs : Text) (c d : ℕ) (s t : Text)
    → Blank ws
    → Blank vs
    → is_whitespace c ≡ false
    → is_whitespace d ≡ false
    → c ∷ s ≡ t ++ d ∷ []
    → trim (ws ++ ((c ∷ s) ++ vs)) ≡ c ∷ s
unfolding trim trim_end
trim-Blank ws vs c d s t hw hv hc hd ends =
    let front = trim_start-Blank ws c (s ++ vs) hw hc in
    let flipped : reverse ((c ∷ s) ++ vs) ≡ reverse vs ++ d ∷ reverse t =
      reverse-append (c ∷ s) vs
      ∙ ap (λ l. reverse vs ++ l) (ap reverse ends ∙ reverse-append t (d ∷ [])) in
    ap (λ l. reverse (trim_start (reverse l))) front
    ∙ ap reverse (
        ap trim_start flipped
        ∙ trim_start-Blank (reverse vs) d (reverse t) (Blank-reverse vs hv) hd)
    ∙ ap reverse (sym (ap reverse ends ∙ reverse-append t (d ∷ [])))
    ∙ reverse-reverse (c ∷ s)

trim_start-append : (ws s : Text) → Blank ws → trim_start (ws ++ s) ≡ trim_start s
unfolding trim_start
trim_start-append [] s blank = refl
trim_start-append (w ∷ ws) s blank = rw (blank.0, trim_start) (trim_start-append ws s blank.1)

-- Blanks behind a text stay behind what is left of it, if anything is.
trim_start-behind :
    (s vs : Text)
    → Blank vs
    → ((trim_start s ≡ []) × (trim_start (s ++ vs) ≡ []))
      ⊎ (trim_start (s ++ vs) ≡ trim_start s ++ vs)
unfolding trim_start
trim_start-behind [] vs blank =
    inl (refl, ap trim_start (sym (append-nil vs)) ∙ trim_start-append vs [] blank)
trim_start-behind (c ∷ s) vs blank = elim (Bool-cases (is_whitespace c)) [
  | inl w ↦ rw (w, trim_start) (trim_start-behind s vs blank)
  | inr solid ↦ inr (rw (solid, trim_start) refl)
]

pub trim-append : (s vs : Text) → Blank vs → trim (s ++ vs) ≡ trim s
unfolding trim trim_end
trim-append s vs blank = elim (trim_start-behind s vs blank) [
  | inl (e, f) ↦ ap (λ l. reverse (trim_start (reverse l))) (f ∙ sym e)
  | inr e ↦
      ap (λ l. reverse (trim_start (reverse l))) e
      ∙ ap (λ l. reverse (trim_start l)) (reverse-append (trim_start s) vs)
      ∙ ap reverse
          (trim_start-append (reverse vs) (reverse (trim_start s)) (Blank-reverse vs blank))
]

trim_start_idem : (s : Text) → trim_start (trim_start s) ≡ trim_start s
unfolding trim_start
trim_start_idem [] = refl
trim_start_idem (c ∷ s) = elim (Bool-cases (is_whitespace c)) [
  | inl w ↦ rw (w, trim_start) (trim_start_idem s)
  | inr solid ↦ rw (solid, trim_start) (rw (solid, trim_start) refl)
]

trim_end_idem : (s : Text) → trim_end (trim_end s) ≡ trim_end s
unfolding trim_end
trim_end_idem s =
    ap (λ l. reverse (trim_start l)) (reverse-reverse (trim_start (reverse s)))
    ∙ ap reverse (trim_start_idem (reverse s))

trim_start-solid :
    (s : Text) (c : ℕ) → is_whitespace c ≡ false → trim_start (s ++ c ∷ []) ≡ trim_start s ++ c ∷ []
unfolding trim_start
trim_start-solid [] c solid = rw (solid, trim_start) refl
trim_start-solid (d ∷ s) c solid = elim (Bool-cases (is_whitespace d)) [
  | inl w ↦ rw (w, trim_start) (trim_start-solid s c solid)
  | inr other ↦ rw (other, trim_start) refl
]

-- What stands in front stays in front.
trim_end-solid : (c : ℕ) (s : Text) → is_whitespace c ≡ false → trim_end (c ∷ s) ≡ c ∷ trim_end s
unfolding trim_end
trim_end-solid c s solid =
    ap (λ l. reverse (trim_start l)) (reverse-cons c s)
    ∙ ap reverse (trim_start-solid (reverse s) c solid)
    ∙ reverse-append (trim_start (reverse s)) (c ∷ [])

trim_start-trim : (s : Text) → trim_start (trim s) ≡ trim s
unfolding trim_start trim trim_end
trim_start-trim [] = refl
trim_start-trim (c ∷ s) = elim (Bool-cases (is_whitespace c)) [
  | inl w ↦ rw (w, trim_start) (trim_start-trim s)
  | inr solid ↦
      let whole : trim (c ∷ s) ≡ c ∷ trim_end s =
        ap trim_end (trim_start-Blank [] c s tt solid) ∙ trim_end-solid c s solid in
      subst (λ l. trim_start l ≡ l) (sym whole) (trim_start-Blank [] c (trim_end s) tt solid)
]

pub trim_idem : (s : Text) → trim (trim s) ≡ trim s
unfolding trim
trim_idem s = ap trim_end (trim_start-trim s) ∙ trim_end_idem (trim_start s)
