-- ===== src/Skills/Files/Restore.antt =====
-- `restore_from_bytes` of crates/forge-skills/src/proposal.rs, the file half of a rollback.
use forge_os.Prelude.{
  ◌≤◌, ◌≡◌, ◌∙◌, refl, sym, ap, subst, Text, text, text_eq, text_eq_iff, Bool, true, false, not,
  ◌&&◌, some, [], ◌∷◌, ◌++◌, length, length-map, length-append, ltb, arith, Bool-cases, inl, inr,
  keep_if, keep_if-kept, keep_if-left, and-eq-true, or-eq-false,
}
use mathlib.Core.List.{reverse, reverse-append}
use forge_os.Planner.{has}
use forge_os.Planner.Distinct.{distinct_names}
use forge_os.Planner.Fences.{strip_prefix}
use forge_os.Skills.{Yaml, parse_skill}
use forge_os.Skills.Files.{
  Folder, Folders, file_names, exists, read, replace, write, holds_skill, has_name, is_md, is_found,
  sanitize, restore_from_bytes,
}
use forge_os.Skills.Files.Names.{distinct_files-keep_if}
use forge_os.Skills.Files.Reads.{read-write_same}
use forge_os.Skills.Files.Retire.{stays, retire_active_skill-Moves}

is_md-append : (s : Text) → 1 ≤ length s → is_md (s ++ text ".md") ≡ true
unfolding is_md strip_prefix
is_md-append s h =
    let longer : ltb 3 (length (s ++ text ".md")) ≡ true =
      ground (arith, length-append s (text ".md"), h) in
    let found : is_found (strip_prefix (text "dm.") (reverse (s ++ text ".md"))) ≡ true =
      ap (λ l. is_found (strip_prefix (text "dm.") l)) (reverse-append s (text ".md")) in
    ap (λ b. b && is_found (strip_prefix (text "dm.") (reverse (s ++ text ".md")))) longer ∙ found

length-sanitize : (s : Text) → length (sanitize s) ≡ length s
unfolding sanitize
length-sanitize s = length-map _ s

cons_ne_nil : {e : Text × Text} {d : Folder} → ◌≡◌ {A = Folder} (e ∷ d) [] → ⊥
cons_ne_nil h = ground (arith, h)

module _ (p : Text × Text → Bool) where
  keep_if-none : (d : Folder) → keep_if p (keep_if (λ e. not (p e)) d) ≡ []
  keep_if-none [] = refl
  keep_if-none (e ∷ d) = elim (Bool-cases (p e)) [
    | inl held ↦ rw (held, keep_if) (keep_if-none d)
    | inr other ↦ rw (other, keep_if) (rw (other, keep_if) (keep_if-none d))
  ]

  replace-absent : (f c : Text) (d : Folder) → exists f d ≡ false → replace f c d ≡ d
  replace-absent f c [] h = refl
  replace-absent f c (e ∷ d) h =
      let (differ, rest) = or-eq-false (text_eq e.0 f) (exists f d) h in
      rw differ (ap (λ l. e ∷ l) (replace-absent f c d rest))

  -- Writing a file that passes the test over one of a folder in which none does.
  keep_if-replace :
      (f c : Text) (d : Folder)
      → p (f, c) ≡ true
      → keep_if p d ≡ []
      → distinct_names (file_names d) ≡ true
      → exists f d ≡ true
      → keep_if p (replace f c d) ≡ (f, c) ∷ []
  keep_if-replace f c [] good gone uniq there = absurd (ground (arith, there))
  keep_if-replace f c (e ∷ d) good gone uniq there =
      let (first, rest) =
        and-eq-true (not (has e.0 (file_names d))) (distinct_names (file_names d)) uniq in
      let others : keep_if p d ≡ [] = elim (Bool-cases (p e)) [
        | inr left ↦ sym (keep_if-left p e d left) ∙ gone
        | inl kept ↦ absurd (cons_ne_nil (sym (keep_if-kept p e d kept) ∙ gone))
      ] in
      let failed : p e ≡ false = elim (Bool-cases (p e)) [
        | inr left ↦ left
        | inl kept ↦ absurd (cons_ne_nil (sym (keep_if-kept p e d kept) ∙ gone))
      ] in
      elim (Bool-cases (text_eq e.0 f)) [
        | inl same ↦
            let absent : exists f d ≡ false =
              subst (λ t. has t (file_names d) ≡ false) ((text_eq_iff e.0 f).0 same)
                (ground (arith, first)) in
            rw same (
              keep_if-kept p (f, c) (replace f c d) good
              ∙ ap (λ l. (f, c) ∷ keep_if p l) (replace-absent f c d absent)
              ∙ ap (λ l. (f, c) ∷ l) others)
        | inr other ↦ rw other (
            keep_if-left p e (replace f c d) failed
            ∙ keep_if-replace f c d good others rest (ground (arith, there, other)))
      ]

  keep_if-concat :
      (e : Text × Text) (d : Folder)
      → p e ≡ true
      → keep_if p d ≡ []
      → keep_if p (d ++ e ∷ []) ≡ e ∷ []
  keep_if-concat e [] good gone = keep_if-kept p e [] good
  keep_if-concat e (x ∷ d) good gone = elim (Bool-cases (p x)) [
    | inl kept ↦ absurd (cons_ne_nil (sym (keep_if-kept p x d kept) ∙ gone))
    | inr left ↦
        keep_if-left p x (d ++ e ∷ []) left
        ∙ keep_if-concat e d good (sym (keep_if-left p x d left) ∙ gone)
  ]

  keep_if-write :
      (f c : Text) (d : Folder)
      → p (f, c) ≡ true
      → keep_if p d ≡ []
      → distinct_names (file_names d) ≡ true
      → keep_if p (write f c d) ≡ (f, c) ∷ []
  unfolding write
  keep_if-write f c d good gone uniq = elim (Bool-cases (exists f d)) [
    | inl old ↦ rw (old, write) (keep_if-replace f c d good gone uniq old)
    | inr fresh ↦ rw (fresh, write) (keep_if-concat (f, c) d good gone)
  ]

-- After a rollback to a text that reads as a skill with that name, this text is the only active file
-- that holds such a skill, whatever lay in the folders before.
pub restore_from_bytes-holds_skill :
    (yaml : Yaml) (name bytes : Text) (d : Folders)
    → has_name yaml name (parse_skill yaml bytes) ≡ true
    → 1 ≤ length name
    → distinct_names (file_names d.active) ≡ true
    → distinct_names (file_names d.archived) ≡ true
    → (d' : Folders) × (file : Text) × (restore_from_bytes yaml name bytes d ≡ some (d', file))
      × (read file d'.active ≡ some bytes)
      × (keep_if (holds_skill yaml name) d'.active ≡ (file, bytes) ∷ [])
unfolding restore_from_bytes holds_skill
restore_from_bytes-holds_skill yaml name bytes d good long uniq archive =
    let (d₁, k, done, m) = retire_active_skill-Moves yaml name d uniq archive in
    let file = sanitize name ++ text ".md" in
    let gone =
      ap (keep_if (holds_skill yaml name)) m.active
      ∙ keep_if-none (holds_skill yaml name) d.active in
    let tidy =
      subst (λ l. distinct_names (file_names l) ≡ true) (sym m.active)
        (distinct_files-keep_if (stays yaml name) d.active uniq) in
    let held : holds_skill yaml name (file, bytes) ≡ true =
      ap (λ b. b && has_name yaml name (parse_skill yaml bytes))
        (is_md-append (sanitize name) (omega (arith, long, length-sanitize name)))
      ∙ good in
    (
      record d₁ { active = write file bytes d₁.active },
      file,
      rw (done, restore_from_bytes) refl,
      read-write_same file bytes d₁.active,
      keep_if-write (holds_skill yaml name) file bytes d₁.active held gone tidy,
    )
