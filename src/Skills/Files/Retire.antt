-- ===== src/Skills/Files/Retire.antt =====
-- What `retire_active_skill` and `restore_from_bytes` of crates/forge-skills/src/proposal.rs leave in
-- the folders.
use forge_os.Prelude.{
  length-map, ℕ, suc, ◌+◌, ◌≡◌, refl, sym, ap, ◌∙◌, subst, Text, Bool, true, false, not, some, List,
  [], ◌∷◌, ◌++◌, map, length, arith, Bool-cases, inl, inr, keep_if, keep_if-kept, keep_if-left,
  append_assoc, append-nil,
}
use forge_os.Planner.{has}
use forge_os.Planner.Distinct.{distinct_names}
use forge_os.Skills.{Yaml}
use forge_os.Skills.Files.{
  Folder, Folders, file_names, remove, holds_skill, archive_file, retire_files, retire_active_skill,
  candidate,
}
use forge_os.Skills.Files.Names.{remove-middle, distinct_files-concat, distinct_files-middle}
use forge_os.Skills.Files.Free.{next_free_found}

abbrev pub contents : Folder → List Text
contents = map (λ e. e.1)

module _ (yaml : Yaml) (name : Text) where
  abbrev pub stays : Text × Text → Bool
  stays e = not (holds_skill yaml name e)

  -- What a run over the files `es` makes of the folders.
  pub record Moves (before es : Folder) (d d' : Folders) (k k' : ℕ) : Type 0 where
    pub proposed : d'.proposed ≡ d.proposed
    pub active : d'.active ≡ before ++ keep_if stays es
    pub moved : Folder
    pub archived : d'.archived ≡ d.archived ++ moved
    pub same_contents : contents moved ≡ contents (keep_if (holds_skill yaml name) es)
    pub count : k' ≡ k + length moved
    pub distinct : distinct_names (file_names d'.archived) ≡ true

  archive_file-found :
      (e : Text × Text) (d : Folders)
      → (j : ℕ) × (archive_file yaml e d
          ≡ some (record d {
            active = remove e.0 d.active;
            archived = d.archived ++ (candidate e.0 j, e.1) ∷ [];
          }))
        × (has (candidate e.0 j) (file_names d.archived) ≡ false)
  unfolding archive_file
  archive_file-found e d =
      let (j, le, found, free) =
        next_free_found (suc (length d.archived)) 0 e.0 (file_names d.archived)
          (omega (arith, length-map {B = Text} (λ x. x.0) d.archived)) in
      (j, rw (found, archive_file) refl, free)

  retire_files-stays :
      (e : Text × Text) (es : Folder) (d : Folders) (k : ℕ)
      → holds_skill yaml name e ≡ false
      → retire_files yaml name (e ∷ es) d k ≡ retire_files yaml name es d k
  unfolding retire_files
  retire_files-stays e es d k other = rw (other, retire_files) refl

  retire_files-moves :
      (e : Text × Text) (es : Folder) (d d' : Folders) (k : ℕ)
      → holds_skill yaml name e ≡ true
      → archive_file yaml e d ≡ some d'
      → retire_files yaml name (e ∷ es) d k ≡ retire_files yaml name es d' (suc k)
  unfolding retire_files
  retire_files-moves e es d d' k held moved = rw (held, retire_files) (rw moved refl)

  retire_files-Moves :
      (before es : Folder) (d : Folders) (k : ℕ)
      → d.active ≡ before ++ es
      → distinct_names (file_names (before ++ es)) ≡ true
      → distinct_names (file_names d.archived) ≡ true
      → (d' : Folders) × (k' : ℕ) × (retire_files yaml name es d k ≡ some (d', k'))
        × Moves before es d d' k k'
  unfolding retire_files
  retire_files-Moves before [] d k here uniq archive = (
    d,
    k,
    refl,
    record {
      proposed = refl;
      active = here;
      moved = [];
      archived = sym (append-nil d.archived);
      same_contents = refl;
      count = omega arith;
      distinct = archive;
    },
  )
  retire_files-Moves before (e ∷ es) d k here uniq archive =
      elim (Bool-cases (holds_skill yaml name e)) [
        | inr other ↦
            let flat = append_assoc before (e ∷ []) es in
            let (d', k', done, m) =
              retire_files-Moves (before ++ e ∷ []) es d k (here ∙ sym flat)
                (subst (λ l. distinct_names (file_names l) ≡ true) (sym flat) uniq) archive in
            (
              d',
              k',
              retire_files-stays e es d k other ∙ done,
              record {
                proposed = m.proposed;
                active =
                    m.active
                    ∙ append_assoc before (e ∷ []) (keep_if stays es)
                    ∙ ap (λ l. before ++ l) (sym (keep_if-kept stays e es (rw other refl)));
                moved = m.moved;
                archived = m.archived;
                same_contents =
                    m.same_contents
                    ∙ ap contents (sym (keep_if-left (holds_skill yaml name) e es other));
                count = m.count;
                distinct = m.distinct;
              },
            )
        | inl held ↦
            let (j, moving, free) = archive_file-found e d in
            let d₁ : Folders = record d {
              active = remove e.0 d.active;
              archived = d.archived ++ (candidate e.0 j, e.1) ∷ [];
            } in
            let (d', k', done, m) =
              retire_files-Moves before es d₁ (suc k)
                (ap (remove e.0) here ∙ remove-middle e.0 e.1 before es uniq)
                (distinct_files-middle before e es uniq)
                (distinct_files-concat d.archived (candidate e.0 j, e.1) archive free) in
            (
              d',
              k',
              retire_files-moves e es d d₁ k held moving ∙ done,
              record {
                proposed = m.proposed;
                active =
                    m.active ∙ ap (λ l. before ++ l) (sym (keep_if-left stays e es (rw held refl)));
                moved = (candidate e.0 j, e.1) ∷ m.moved;
                archived =
                    m.archived ∙ append_assoc d.archived ((candidate e.0 j, e.1) ∷ []) m.moved;
                same_contents =
                    ap (λ l. e.1 ∷ l) m.same_contents
                    ∙ ap contents (sym (keep_if-kept (holds_skill yaml name) e es held));
                count = omega (arith, m.count);
                distinct = m.distinct;
              },
            )
      ]

  -- Retiring a skill always ends, whatever names are taken among the archived files, and moves just
  -- the active files that hold a skill with this name, in their order and with their contents. The
  -- other active files stay as they are, as do the proposals and what was archived before: each
  -- moved file gets a name of its own behind them. The result is how many files were moved.
  pub retire_active_skill-Moves :
      (d : Folders)
      → distinct_names (file_names d.active) ≡ true
      → distinct_names (file_names d.archived) ≡ true
      → (d' : Folders) × (moved : ℕ) × (retire_active_skill yaml name d ≡ some (d', moved))
        × Moves [] d.active d d' 0 moved
  unfolding retire_active_skill
  retire_active_skill-Moves d uniq archive = retire_files-Moves [] d.active d 0 refl uniq archive
