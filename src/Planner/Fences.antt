-- ===== src/Planner/Fences.antt =====
-- How crates/forge-planner/src/lib.rs takes the JSON out of the model's answer, in
-- `parse_and_validate`, `parse_replan` and `parse_materialize`.
use forge_os.Prelude.{
  trim, is_whitespace, Blank, trim-Blank, ◌≡◌, refl, sym, ap, ◌∙◌, subst, Text, text, Option, none,
  some, [], ◌∷◌, ◌++◌, if◌then◌else◌, ◌==◌, ==-refl, ==_iff, Bool-cases, inl, inr, arith,
  append_assoc, append-nil, All-append,
}
use mathlib.Core.List.{reverse, reverse-append, reverse-reverse}

unfoldable pub strip_prefix : Text → Text → Option Text
strip_prefix [] s = some s
strip_prefix (p ∷ ps) [] = none
strip_prefix (p ∷ ps) (c ∷ s) = let rest = strip_prefix ps s in if p == c then rest else none

abbrev pub strip_or : Option Text → Text → Text
strip_or (some s) other = s
strip_or none other = other

abbrev pub fence : Text
fence = 96 ∷ 96 ∷ 96 ∷ []

abbrev pub json_fence : Text
json_fence = fence ++ text "json"

abbrev unreversed : Option Text → Option Text
unreversed none = none
unreversed (some r) = some (reverse r)

abbrev pub strip_suffix : Text → Text → Option Text
strip_suffix p s = unreversed (strip_prefix (reverse p) (reverse s))

-- The opening fence, else nothing.
unfoldable pub strip_open : Text → Text
unfolding strip_prefix
strip_open s = strip_or (strip_prefix json_fence s) (strip_or (strip_prefix fence s) s)

unfoldable pub strip_close : Text → Text
unfolding strip_prefix
strip_close s = strip_or (strip_suffix fence s) s

unfoldable pub clean : Text → Text
unfolding trim strip_open strip_close
clean content = trim (strip_close (strip_open (trim content)))

-- How a model writes an object: bare, or in a code block with or without the language.
pub data Wrapping : Type 0 where
  bare plain_block json_block : Wrapping

abbrev object : Text → Text
object s = 123 ∷ s ++ 125 ∷ []

abbrev wrap : Wrapping → Text → Text
wrap bare s = s
wrap plain_block s = fence ++ (s ++ fence)
wrap json_block s = json_fence ++ (s ++ fence)

strip_prefix-append : (p s : Text) → strip_prefix p (p ++ s) ≡ some s
unfolding strip_prefix
strip_prefix-append [] s = refl
strip_prefix-append (c ∷ p) s = rw (==-refl c, strip_prefix) (strip_prefix-append p s)

strip_close-fence : (s : Text) → strip_close (s ++ fence) ≡ s
unfolding strip_close
strip_close-fence s =
    let other = s ++ fence in
    ap (λ r. strip_or (unreversed (strip_prefix fence r)) other) (reverse-append s fence)
    ∙ ap (λ o. strip_or (unreversed o) other) (strip_prefix-append fence (reverse s))
    ∙ reverse-reverse s

strip_close-object : (s : Text) → strip_close (object s) ≡ object s
unfolding strip_close strip_prefix
strip_close-object s =
    ap (λ r. strip_or (unreversed (strip_prefix fence r)) (object s))
      (reverse-append (123 ∷ s) (125 ∷ []))

-- After the bare fence the language is not there.
no_language : (ws s : Text) → Blank ws → strip_prefix json_fence (fence ++ (ws ++ 123 ∷ s)) ≡ none
unfolding strip_prefix is_whitespace
no_language [] s blank = refl
no_language (w ∷ ws) s blank = elim (Bool-cases (106 == w)) [
  | inr other ↦ rw (other, strip_prefix) refl
  | inl same ↦ absurd (ground (arith, blank.0, ==_iff 106 w, same))
]

strip_open-plain : (ws s : Text) → Blank ws → strip_open (fence ++ (ws ++ 123 ∷ s)) ≡ ws ++ 123 ∷ s
unfolding strip_open
strip_open-plain ws s blank =
    ap
      (λ o.
        strip_or o
          (strip_or (strip_prefix fence (fence ++ (ws ++ 123 ∷ s))) (fence ++ (ws ++ 123 ∷ s))))
      (no_language ws s blank)

strip_open-json : (s : Text) → strip_open (json_fence ++ s) ≡ s
unfolding strip_open
strip_open-json s =
    ap (λ o. strip_or o (strip_or (strip_prefix fence (json_fence ++ s)) (json_fence ++ s)))
      (strip_prefix-append json_fence s)

trim-object : (ws vs s : Text) → Blank ws → Blank vs → trim (ws ++ (object s ++ vs)) ≡ object s
unfolding is_whitespace
trim-object ws vs s hw hv = trim-Blank ws vs 123 125 (s ++ 125 ∷ []) (123 ∷ s) hw hv refl refl refl

-- A fenced block between blanks.
trim-block :
    (ws vs s : Text)
    → Blank ws
    → Blank vs
    → trim (ws ++ ((fence ++ (s ++ fence)) ++ vs)) ≡ fence ++ (s ++ fence)
unfolding is_whitespace
trim-block ws vs s hw hv =
    trim-Blank ws vs 96 96 (96 ∷ 96 ∷ (s ++ fence)) (fence ++ (s ++ 96 ∷ 96 ∷ [])) hw hv refl refl
      (ap (λ l. fence ++ l) (sym (append_assoc s (96 ∷ 96 ∷ []) (96 ∷ []))))

-- The object comes out of an answer, however it is wrapped and whatever blanks stand around the
-- block and around the object in it.
pub clean-wrap :
    (wrapping : Wrapping) (before after outer_before outer_after s : Text)
    → Blank before
    → Blank after
    → Blank outer_before
    → Blank outer_after
    → clean (outer_before ++ (wrap wrapping (before ++ (object s ++ after)) ++ outer_after))
      ≡ object s
unfolding clean
clean-wrap bare b a ob oa s hb ha hob hoa =
    let flat : ob ++ ((b ++ (object s ++ a)) ++ oa) ≡ (ob ++ b) ++ (object s ++ (a ++ oa)) =
      ap (λ l. ob ++ l)
        (append_assoc b (object s ++ a) oa ∙ ap (λ l. b ++ l) (append_assoc (object s) a oa))
      ∙ sym (append_assoc ob b (object s ++ (a ++ oa))) in
    let trimmed =
      ap trim flat
      ∙ trim-object (ob ++ b) (a ++ oa) s (All-append _ ob b hob hb) (All-append _ a oa ha hoa) in
    ap (λ l. trim (strip_close (strip_open l))) trimmed
    ∙ ap trim (strip_close-object s)
    ∙ ap trim (sym (append-nil (object s)))
    ∙ trim-object [] [] s tt tt
clean-wrap plain_block b a ob oa s hb ha hob hoa =
    let m = b ++ (object s ++ a) in
    let opened : strip_open (fence ++ (m ++ fence)) ≡ m ++ fence =
      subst (λ l. strip_open (fence ++ l) ≡ l) (sym (append_assoc b (object s ++ a) fence))
        (strip_open-plain b _ hb) in
    ap (λ l. trim (strip_close (strip_open l))) (trim-block ob oa m hob hoa)
    ∙ ap (λ l. trim (strip_close l)) opened
    ∙ ap trim (strip_close-fence m)
    ∙ trim-object b a s hb ha
clean-wrap json_block b a ob oa s hb ha hob hoa =
    let m = b ++ (object s ++ a) in
    ap (λ l. trim (strip_close (strip_open l))) (trim-block ob oa (text "json" ++ m) hob hoa)
    ∙ ap (λ l. trim (strip_close l)) (strip_open-json (m ++ fence))
    ∙ ap trim (strip_close-fence m)
    ∙ trim-object b a s hb ha
