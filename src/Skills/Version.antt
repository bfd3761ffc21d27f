-- ===== src/Skills/Version.antt =====
-- The two comparisons of versions in crates/forge-skills: `version_less` of src/validate.rs and
-- `version_cmp` of src/loader.rs. They take versions apart in different ways.
use forge_os.Prelude.{
  ℕ, zero, suc, ◌+◌, ◌*◌, ◌-◌, Text, Bool, true, false, ◌&&◌, ◌||◌, Option, none, some, List, [],
  ◌∷◌, if◌then◌else◌, leb, ltb, ◌==◌, length,
}
use Prim.Native.Nat.{compare, Ordering}

-- `str::split` on the code points that pass the test.
unfoldable pub split_on : (ℕ → Bool) → Text → List Text
split_on p [] = [] ∷ []
split_on p (c ∷ s) = cons_piece (p c) (split_on p s)
  where
    cons_piece : Bool → List Text → List Text
    cons_piece true pieces = [] ∷ pieces
    cons_piece false [] = (c ∷ []) ∷ []
    cons_piece false (piece ∷ pieces) = (c ∷ piece) ∷ pieces

abbrev digits_value : ℕ → Text → Option ℕ
digits_value n [] = some n
digits_value n (c ∷ s) =
    let rest = digits_value (n * 10 + (c - 48)) s in if leb 48 c && leb c 57 then rest else none

abbrev fits : Option ℕ → Option ℕ
fits none = none
fits (some n) = if ltb n 18446744073709551616 then some n else none

-- `str::parse::<u64>`: a sign may stand before the digits, and 2^64 and above are refused.
unfoldable pub parse_u64 : Text → Option ℕ
parse_u64 [] = none
parse_u64 (c ∷ []) = fits (digits_value 0 (c ∷ []))
parse_u64 (c ∷ d ∷ s) =
    if c == 43 then fits (digits_value 0 (d ∷ s)) else fits (digits_value 0 (c ∷ d ∷ s))

abbrev or_zero : Option ℕ → ℕ
or_zero none = 0
or_zero (some n) = n

abbrev piece_at : ℕ → List Text → ℕ
piece_at i [] = 0
piece_at zero (p ∷ ps) = or_zero (parse_u64 p)
piece_at (suc i) (p ∷ ps) = piece_at i ps

unfoldable pub parse3 : Text → ℕ × ℕ × ℕ
unfolding split_on parse_u64
parse3 v =
    let pieces = split_on (λ c. c == 46 || c == 45 || c == 43) v in
    (piece_at 0 pieces, piece_at 1 pieces, piece_at 2 pieces)

abbrev less3 : ℕ × ℕ × ℕ → ℕ × ℕ × ℕ → Bool
less3 (a, b, c) (x, y, z) = ltb a x || (a == x && (ltb b y || (b == y && ltb c z)))

unfoldable pub version_less : Text → Text → Bool
unfolding parse3
version_less a b = less3 (parse3 a) (parse3 b)

abbrev pub is_le : Ordering → Bool
is_le Ordering.gt = false
is_le _ = true

abbrev pub then_cmp : Ordering → Ordering → Ordering
then_cmp Ordering.eq next = next
then_cmp o next = o

-- `str::cmp`.
unfoldable pub text_cmp : Text → Text → Ordering
text_cmp [] [] = Ordering.eq
text_cmp [] (b ∷ t) = Ordering.lt
text_cmp (a ∷ s) [] = Ordering.gt
text_cmp (a ∷ s) (b ∷ t) = then_cmp (compare a b) (text_cmp s t)

abbrev cmp_piece : Text → Text → Ordering
cmp_piece x y = both (parse_u64 x) (parse_u64 y)
  where
    both : Option ℕ → Option ℕ → Ordering
    both (some m) (some n) = compare m n
    both _ _ = text_cmp x y

abbrev cmp_pieces : List Text → List Text → Ordering
cmp_pieces (x ∷ xs) (y ∷ ys) = then_cmp (cmp_piece x y) (cmp_pieces xs ys)
cmp_pieces _ _ = Ordering.eq

unfoldable pub version_cmp : Text → Text → Ordering
unfolding split_on parse_u64 text_cmp
version_cmp a b =
    let ap = split_on (λ c. c == 46 || c == 45) a in
    let bp = split_on (λ c. c == 46 || c == 45) b in
    then_cmp (cmp_pieces ap bp) (compare (length ap) (length bp))
