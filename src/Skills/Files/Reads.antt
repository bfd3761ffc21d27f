-- ===== src/Skills/Files/Reads.antt =====
-- Reading a file after a write or a removal in a folder.
use forge_os.Prelude.{
  ◌≡◌, ◌∙◌, refl, sym, subst, Text, text_eq, text_eq_iff, true, false, some, [], ◌∷◌, ◌++◌, arith,
  Bool-cases, inl, inr, or-eq-false,
}
use forge_os.Skills.Files.{Folder, exists, read, remove, replace, write}

read-here :
    (g : Text) (e : Text × Text) (d : Folder) → text_eq e.0 g ≡ true → read g (e ∷ d) ≡ some e.1
unfolding read
read-here g e d h = rw (h, read) refl

read-later :
    (g : Text) (e : Text × Text) (d : Folder) → text_eq e.0 g ≡ false → read g (e ∷ d) ≡ read g d
unfolding read
read-later g e d h = rw (h, read) refl

-- The name of another file is another one.
text_eq-other : (f g h : Text) → text_eq h f ≡ true → text_eq f g ≡ false → text_eq h g ≡ false
text_eq-other f g h same differ =
    subst (λ t. text_eq t g ≡ false) (sym ((text_eq_iff h f).0 same)) differ

pub read-remove_other :
    (f g : Text) (d : Folder) → text_eq f g ≡ false → read g (remove f d) ≡ read g d
unfolding remove
read-remove_other f g [] h = refl
read-remove_other f g (e ∷ d) h = elim (Bool-cases (text_eq e.0 f)) [
  | inl same ↦
      rw (same, remove)
        (read-remove_other f g d h ∙ sym (read-later g e d (text_eq-other f g e.0 same h)))
  | inr other ↦
      rw (other, remove)
        (elim (Bool-cases (text_eq e.0 g)) [
          | inl here ↦ read-here g e _ here ∙ sym (read-here g e d here)
          | inr later ↦
              read-later g e _ later ∙ read-remove_other f g d h ∙ sym (read-later g e d later)
        ])
]

pub exists-remove : (f : Text) (d : Folder) → exists f (remove f d) ≡ false
unfolding remove
exists-remove f [] = refl
exists-remove f (e ∷ d) = elim (Bool-cases (text_eq e.0 f)) [
  | inl same ↦ rw (same, remove) (exists-remove f d)
  | inr other ↦ rw (other, remove) (rw other (exists-remove f d))
]

read-replace_same : (f c : Text) (d : Folder) → exists f d ≡ true → read f (replace f c d) ≡ some c
read-replace_same f c [] h = absurd (ground (arith, h))
read-replace_same f c (e ∷ d) h = elim (Bool-cases (text_eq e.0 f)) [
  | inl same ↦ rw same (read-here f (f, c) (replace f c d) ((text_eq_iff f f).1 refl))
  | inr other ↦
      rw other
        (read-later f e (replace f c d) other ∙ read-replace_same f c d (ground (arith, h, other)))
]

read-replace_other :
    (f c g : Text) (d : Folder) → text_eq f g ≡ false → read g (replace f c d) ≡ read g d
read-replace_other f c g [] h = refl
read-replace_other f c g (e ∷ d) h = elim (Bool-cases (text_eq e.0 f)) [
  | inl same ↦ rw same (
      read-later g (f, c) (replace f c d) h
      ∙ read-replace_other f c g d h
      ∙ sym (read-later g e d (text_eq-other f g e.0 same h)))
  | inr other ↦ rw other (elim (Bool-cases (text_eq e.0 g)) [
    | inl here ↦ read-here g e _ here ∙ sym (read-here g e d here)
    | inr later ↦
        read-later g e _ later ∙ read-replace_other f c g d h ∙ sym (read-later g e d later)
  ])
]

read-concat_same :
    (f c : Text) (d : Folder) → exists f d ≡ false → read f (d ++ (f, c) ∷ []) ≡ some c
read-concat_same f c [] h = read-here f (f, c) [] ((text_eq_iff f f).1 refl)
read-concat_same f c (e ∷ d) h =
    let (differ, rest) = or-eq-false (text_eq e.0 f) (exists f d) h in
    read-later f e _ differ ∙ read-concat_same f c d rest

read-concat_other :
    (f c g : Text) (d : Folder) → text_eq f g ≡ false → read g (d ++ (f, c) ∷ []) ≡ read g d
read-concat_other f c g [] h = read-later g (f, c) [] h
read-concat_other f c g (e ∷ d) h = elim (Bool-cases (text_eq e.0 g)) [
  | inl here ↦ read-here g e _ here ∙ sym (read-here g e d here)
  | inr later ↦ read-later g e _ later ∙ read-concat_other f c g d h ∙ sym (read-later g e d later)
]

pub read-write_same : (f c : Text) (d : Folder) → read f (write f c d) ≡ some c
unfolding write
read-write_same f c d = elim (Bool-cases (exists f d)) [
  | inl old ↦ rw (old, write) (read-replace_same f c d old)
  | inr fresh ↦ rw (fresh, write) (read-concat_same f c d fresh)
]

pub read-write_other :
    (f c g : Text) (d : Folder) → text_eq f g ≡ false → read g (write f c d) ≡ read g d
unfolding write
read-write_other f c g d h = elim (Bool-cases (exists f d)) [
  | inl old ↦ rw (old, write) (read-replace_other f c g d h)
  | inr fresh ↦ rw (fresh, write) (read-concat_other f c g d h)
]
