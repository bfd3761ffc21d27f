-- ===== src/SkillOps/Undone.antt =====
-- Retirement, rollback and seeding in crates/forge-runtime/src/skills_ops.rs keep files, table and
-- store consistent.
use forge_os.Prelude.{
  ◌||◌, ◌++◌, arith, ℕ, ◌≡◌, refl, sym, ap, subst, Text, text, true, Option, none, some, Result, ok,
  err, Option-cases, Bool-cases, inl, inr, text_eq, [], ◌∷◌,
}
use forge_os.Planner.Distinct.{distinct_names}
use forge_os.Persistence.SkillHistory.{rollback, active_row, retire_active}
use forge_os.Persistence.SkillHistory.Active.{retire_active-OneActive}
use forge_os.Skills.{Skill, SkillError, parse_skill}
use forge_os.Skills.Files.{Folder, file_names, read, write, restore_from_bytes, sanitize}
use forge_os.Skills.Files.Names.{distinct_files-keep_if, distinct_files-write}
use forge_os.Skills.Files.Retire.{stays, retire_active_skill-Moves}
use forge_os.SkillOps.{
  path_for_returns, skill, note, SkillTools, SkillWorld, contains_sha, put, record_version, sha_of,
}
use forge_os.Domain.Event.{skill_retired, skill_rolled_back}
use forge_os.SkillOps.{sha_missing}
use forge_os.SkillOps.Rollback.{
  retire, restore, restore_parsed, roll_back, foreign, is_sha, seed, seed_parsed, seed_files,
  seed_missing_history,
}
use forge_os.Skills.Files.{is_md, exists}
use forge_os.Persistence.SkillHistory.{handcrafted}
use forge_os.SkillOps.Tidy.{
  record_version-Recorded, put-Stored, put-Kept, put-contains_sha, retire_active-Kept,
}
use forge_os.SkillOps.Consistent.{IsConsistent, Answers, answer_active-Answers}

pub read-exists : (f c : Text) (d : Folder) → read f d ≡ some c → exists f d ≡ true
unfolding read
read-exists f c [] h = absurd (ground (arith, h))
read-exists f c (e ∷ d) h = elim (Bool-cases (text_eq e.0 f)) [
  | inl same ↦ ap (λ b. b || exists f d) same
  | inr other ↦ ground (arith, other, read-exists f c d (let k = rw (other, read) at h in k))
]

module _ (t : SkillTools) where
  pub retire-Answers :
      (now : ℕ) (name reason : Text) (w : SkillWorld)
      → IsConsistent t w
      → Answers t (retire t now name reason w)
  unfolding retire
  retire-Answers now name reason w c = elim (Option-cases (active_row name w.history)) [
    | inl e ↦ (w, ok none, rw (e, retire) refl, c)
    | inr (r, e) ↦
        let (d, k, done, m) =
          retire_active_skill-Moves t.yaml name w.files c.active_distinct c.archived_distinct in
        (
          note (skill_retired name r.sha reason)
              (record w { files = d; history = retire_active now name reason w.history }),
          ok (some r.sha),
          rw (e, retire) (rw done refl),
          record {
            one = retire_active-OneActive now name reason w.history c.one;
            stored = c.stored;
            kept = retire_active-Kept w.store now name reason w.history c.kept;
            active_distinct =
                subst (λ l. distinct_names (file_names l) ≡ true) (sym m.active)
                  (distinct_files-keep_if (stays t.yaml name) w.files.active c.active_distinct);
            archived_distinct = m.distinct;
          },
        )
  ]

  pub restore-Answers :
      (now : ℕ) (name sha : Text) (reason : Option Text) (version bytes : Text) (w : SkillWorld)
      → IsConsistent t w
      → contains_sha sha w.store ≡ true
      → Answers t (restore t now name sha reason version bytes w)
  unfolding restore restore_from_bytes
  restore-Answers now name sha reason version bytes w c there =
      let (d, k, done, m) =
        retire_active_skill-Moves t.yaml name w.files c.active_distinct c.archived_distinct in
      let file = sanitize name ++ text ".md" in
      let found : restore_from_bytes t.yaml name bytes w.files
          ≡ some (record d { active = write file bytes d.active }, file) =
        rw (done, restore_from_bytes) refl in
      let parent = sha_of (active_row name w.history) in
      let tidy =
        subst (λ l. distinct_names (file_names l) ≡ true) (sym m.active)
          (distinct_files-keep_if (stays t.yaml name) w.files.active c.active_distinct) in
      let history =
        record_version now (text "rolled back") none rollback name sha version parent reason
          w.history in
      rw (found, restore)
        (answer_active-Answers t name sha w.history
          (note (skill_rolled_back name parent sha reason) (record w {
            files = record d { active = write file bytes d.active };
            history = history;
          }))
          (record_version-Recorded now (text "rolled back") none rollback name sha version parent
            reason w.store w.history c.one c.kept there)
          c.stored (distinct_files-write file bytes d.active tidy) m.distinct)

  restore_parsed-Answers :
      (now : ℕ) (name sha : Text) (reason : Option Text) (bytes : Text) (w : SkillWorld)
      (o : Result SkillError Skill)
      → IsConsistent t w
      → contains_sha sha w.store ≡ true
      → Answers t (restore_parsed t now name sha reason bytes w o)
  restore_parsed-Answers now name sha reason bytes w (err e) c there = (w, err (skill e), refl, c)
  restore_parsed-Answers now name sha reason bytes w (ok s) c there =
      elim (Bool-cases (text_eq s.front.name name)) [
        | inr other ↦
            (w, err (skill (foreign t name sha s.front.name)), rw (other, restore_parsed) refl, c)
        | inl same ↦
            rw (same, restore_parsed)
              (restore-Answers now name sha reason s.front.version bytes w c there)
      ]

  pub roll_back-Answers :
      (now : ℕ) (name sha : Text) (reason : Option Text) (w : SkillWorld)
      → path_for_returns sha ≡ true
      → IsConsistent t w
      → Answers t (roll_back t now name sha reason w)
  unfolding roll_back
  roll_back-Answers now name sha reason w cut c = elim (Option-cases (read sha w.store)) [
    | inl e ↦ (w, err (sha_missing sha name), rw (cut, roll_back) (rw e refl), c)
    | inr (bytes, e) ↦
        rw (cut, roll_back)
          (rw e (
            restore_parsed-Answers now name sha reason bytes w (parse_skill t.yaml bytes) c
              (read-exists sha bytes w.store e)))
  ]

  seed-IsConsistent :
      (now : ℕ) (bytes : Text) (s : Skill) (w : SkillWorld)
      → IsConsistent t w
      → IsConsistent t (seed t now bytes s w)
  unfolding seed
  seed-IsConsistent now bytes s w c =
      let store = put (t.hash bytes) bytes w.store in
      let rec =
        record_version-Recorded now (text "on-disk edit detected") none handcrafted s.front.name
          (t.hash bytes) s.front.version none (some (text "seeded from on-disk active/")) store
          w.history c.one (put-Kept (t.hash bytes) bytes w.store w.history.rows c.kept)
          (put-contains_sha (t.hash bytes) bytes w.store) in
      record {
        one = rec.one;
        stored = put-Stored t.hash bytes w.store c.stored;
        kept = rec.kept;
        active_distinct = c.active_distinct;
        archived_distinct = c.archived_distinct;
      }

  seed_parsed-IsConsistent :
      (now : ℕ) (bytes : Text) (o : Result SkillError Skill) (w : SkillWorld) (n : ℕ)
      → IsConsistent t w
      → IsConsistent t (seed_parsed t now bytes o (w, n)).0
  seed_parsed-IsConsistent now bytes (err e) w n c = c
  seed_parsed-IsConsistent now bytes (ok s) w n c =
      elim (Bool-cases (is_sha t (active_row s.front.name w.history) (t.hash bytes))) [
        | inl known ↦ rw (known, seed_parsed) c
        | inr fresh ↦ rw (fresh, seed_parsed) (seed-IsConsistent now bytes s w c)
      ]

  seed_files-IsConsistent :
      (now : ℕ) (es : Folder) (state : SkillWorld × ℕ)
      → IsConsistent t state.0
      → IsConsistent t (seed_files t now es state).0
  unfolding seed_files
  seed_files-IsConsistent now [] state c = c
  seed_files-IsConsistent now (e ∷ es) (w, n) c = elim (Bool-cases (is_md e.0)) [
    | inr other ↦ rw (other, seed_files) (seed_files-IsConsistent now es (w, n) c)
    | inl md ↦
        rw (md, seed_files)
          (seed_files-IsConsistent now es (seed_parsed t now e.1 (parse_skill t.yaml e.1) (w, n))
            (seed_parsed-IsConsistent now e.1 (parse_skill t.yaml e.1) w n c))
  ]

  pub seed_missing_history-IsConsistent :
      (now : ℕ) (w : SkillWorld)
      → IsConsistent t w
      → IsConsistent t (seed_missing_history t now w).0
  unfolding seed_missing_history
  seed_missing_history-IsConsistent now w c = seed_files-IsConsistent now w.files.active (w, 0) c
