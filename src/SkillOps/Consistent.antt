-- ===== src/SkillOps/Consistent.antt =====
-- Promotion in crates/forge-runtime/src/skills_ops.rs and the consistency of files, table and store.
use forge_os.Prelude.{
  ℕ, ◌≡◌, refl, subst, Text, text, true, Option, none, some, Result, ok, err, Option-cases,
  Bool-cases, inl, inr,
}
use forge_os.Planner.Distinct.{distinct_names}
use forge_os.Domain.Event.{ForgeEvent}
use forge_os.Persistence.SkillHistory.{SkillHistory, proposal, active_row}
use forge_os.Persistence.SkillHistory.Active.{OneActive}
use forge_os.Skills.{parse_skill, document}
use forge_os.Skills.Files.{Folders, Approved, file_names, read, remove, write, activated}
use forge_os.Skills.Files.Names.{distinct_files-write}
use forge_os.Skills.Files.Reads.{read-write_same}
use forge_os.Skills.Validate.{ValidationReport}
use forge_os.SkillOps.{
  SkillOpsError, skill, proposal_missing, validation_failed, note, SkillTools, SkillWorld, put,
  Outcome, answer_active, sha_of,
}
use forge_os.Skills.Validate.{hard_failures}
use forge_os.Domain.Event.{skill_validation_failed, skill_validation_passed}
use forge_os.SkillOps.Promote.{soft_failures}
use forge_os.SkillOps.Promote.{
  record_promotion, promote_file, judge, report_on, declared_name, promote_from_proposal,
}
use forge_os.SkillOps.Tidy.{
  Stored, Kept, Recorded, record_version-Recorded, put-Stored, put-Kept, put-contains_sha,
  approve_cases,
}

pub record IsConsistent (t : SkillTools) (w : SkillWorld) : Type 0 where
  pub one : OneActive w.history
  pub stored : Stored t.hash w.store
  pub kept : Kept w.store w.history.rows
  pub active_distinct : distinct_names (file_names w.files.active) ≡ true
  pub archived_distinct : distinct_names (file_names w.files.archived) ≡ true

module _ (t : SkillTools) where
  -- No panic, and a consistent state again.
  abbrev pub Answers : {A : Type 0} → Outcome A → Type 0
  Answers {A} o =
      (w' : SkillWorld) × (r : Result SkillOpsError A) × (o ≡ some (w', r)) × IsConsistent t w'

  pub answer_active-Answers :
      (name sha : Text) (h : SkillHistory) (w : SkillWorld)
      → Recorded name sha w.store h w.history
      → Stored t.hash w.store
      → distinct_names (file_names w.files.active) ≡ true
      → distinct_names (file_names w.files.archived) ≡ true
      → Answers (answer_active name w)
  answer_active-Answers name sha h w rec stored act arc = (
    w,
    ok rec.row,
    rw (rec.active, answer_active) refl,
    record {
      one = rec.one;
      stored = stored;
      kept = rec.kept;
      active_distinct = act;
      archived_distinct = arc;
    },
  )

  record_promotion-Answers :
      (now : ℕ) (mission : Option ℕ) (a : Approved) (bytes : Text) (w : SkillWorld)
      → IsConsistent t w
      → t.hash bytes ≡ a.sha
      → Answers (record_promotion t now mission a bytes w)
  unfolding record_promotion
  record_promotion-Answers now mission a bytes w c same =
      let store = put a.sha bytes w.store in
      answer_active-Answers a.name a.sha w.history _
        (record_version-Recorded now (text "replaced by newer promotion") mission proposal a.name
          a.sha a.version (sha_of (active_row a.name w.history)) none store w.history c.one
          (put-Kept a.sha bytes w.store w.history.rows c.kept)
          (put-contains_sha a.sha bytes w.store))
        (subst (λ s. Stored t.hash (put s bytes w.store)) same
          (put-Stored t.hash bytes w.store c.stored))
        c.active_distinct c.archived_distinct

  promote_file-Answers :
      (now : ℕ) (file : Text) (mission : Option ℕ) (w : SkillWorld)
      → IsConsistent t w
      → Answers (promote_file t now file mission w)
  promote_file-Answers now file mission w c = elim (approve_cases t.yaml t.hash file w.files) [
    | inl (e, q) ↦ (w, err (skill e), rw (q, promote_file) refl, c)
    | inr (s, q) ↦
        let doc = document (t.yaml.to_string (activated t.yaml s)) s.body in
        let d : Folders = record w.files {
          proposed = remove file w.files.proposed;
          active = write file doc w.files.active;
        } in
        let a : Approved = record {
          file = file;
          sha = t.hash doc;
          name = s.front.name;
          version = s.front.version;
        } in
        let c₁ : IsConsistent t (record w { files = d }) = record {
          one = c.one;
          stored = c.stored;
          kept = c.kept;
          active_distinct = distinct_files-write file doc w.files.active c.active_distinct;
          archived_distinct = c.archived_distinct;
        } in
        let (w', r, done, c') =
          record_promotion-Answers now mission a doc (record w { files = d }) c₁ refl in
        (w', r, rw (q, promote_file) (rw (read-write_same file doc w.files.active) done), c')
  ]

  pub note-IsConsistent :
      (e : ForgeEvent) (w : SkillWorld) → IsConsistent t w → IsConsistent t (note e w)
  note-IsConsistent e w c = record {
    one = c.one;
    stored = c.stored;
    kept = c.kept;
    active_distinct = c.active_distinct;
    archived_distinct = c.archived_distinct;
  }

  judge-Answers :
      (now : ℕ) (file : Text) (mission : Option ℕ) (name : Text) (report : ValidationReport)
      (w : SkillWorld)
      → IsConsistent t w
      → Answers (judge t now file mission name report w)
  judge-Answers now file mission name report w c = elim (Bool-cases report.ok) [
    | inr bad ↦ (
      note (skill_validation_failed file name (hard_failures report)) w,
      err (validation_failed file (hard_failures report)),
      rw bad refl,
      note-IsConsistent _ w c,
    )
    | inl good ↦
        let e = skill_validation_passed file name (soft_failures t report) in
        rw good (promote_file-Answers now file mission (note e w) (note-IsConsistent e w c))
  ]

  pub promote_from_proposal-Answers :
      (now : ℕ) (file : Text) (mission : Option ℕ) (w : SkillWorld)
      → IsConsistent t w
      → Answers (promote_from_proposal t now file mission w)
  unfolding promote_from_proposal
  promote_from_proposal-Answers now file mission w c =
      elim (Option-cases (read file w.files.proposed)) [
        | inl e ↦ (w, err (proposal_missing file), rw (e, promote_from_proposal) refl, c)
        | inr (raw, e) ↦
            rw (e, promote_from_proposal)
              (judge-Answers now file mission (declared_name t (parse_skill t.yaml raw))
                (report_on t raw w) w c)
      ]
