-- ===== src/SkillOps/Restored.antt =====
-- What `rollback` of crates/forge-runtime/src/skills_ops.rs brings back.
use forge_os.Prelude.{
  ℕ, ◌≡◌, ◌≤◌, refl, sym, ap, subst, ◌∙◌, Text, text, text_eq, text_eq_iff, true, false, Option,
  none, some, [], ◌∷◌, length, ok, arith, keep_if, Bool-cases, inl, inr, trim,
}
use forge_os.Domain.Event.{skill_rolled_back}
use forge_os.Persistence.SkillHistory.{SkillVersionRecord, rollback, active_row}
use forge_os.Skills.{Skill, parse_skill, is_blank}
use forge_os.Skills.Files.{Folder, read, holds_skill, has_name}
use forge_os.Skills.Files.Approve.{parse_skill-Checked}
use forge_os.Skills.Files.Restore.{restore_from_bytes-holds_skill}
use forge_os.SkillOps.{
  path_for_returns, note, SkillTools, SkillWorld, answer_active, record_version, sha_of,
}
use forge_os.SkillOps.Rollback.{restore, restore_parsed, roll_back}
use forge_os.SkillOps.Tidy.{Stored, record_version-Recorded}
use forge_os.SkillOps.Consistent.{IsConsistent}
use forge_os.SkillOps.Undone.{read-exists}

read-Stored :
    (hash : Text → Text) (sha bytes : Text) (store : Folder)
    → Stored hash store
    → read sha store ≡ some bytes
    → hash bytes ≡ sha
unfolding read
read-Stored hash sha bytes [] h there = absurd (ground (arith, there))
read-Stored hash sha bytes (e ∷ store) h there = elim (Bool-cases (text_eq e.0 sha)) [
  | inr other ↦ read-Stored hash sha bytes store h.1 (rw (other, read) at there)
  | inl same ↦
      let k : ◌≡◌ {A = Option Text} (some e.1) (some bytes) = rw (same, read) at there in
      let one : e.1 ≡ bytes = cc in sym (ap hash one) ∙ h.0 ∙ (text_eq_iff e.0 sha).0 same
]

not_blank : (name : Text) → is_blank name ≡ false → 1 ≤ length name
unfolding trim
not_blank [] h = absurd (ground (arith, h))
not_blank (c ∷ cs) h = omega arith

-- The state after the rollback of `name` to the text `bytes`, filed under `sha`.
pub record RolledBack (t : SkillTools) (name sha bytes : Text) (w w' : SkillWorld)
    (r : SkillVersionRecord) : Type 0 where
  pub active : active_row name w'.history ≡ some r
  pub row_sha : r.sha ≡ sha
  pub hashed : t.hash bytes ≡ r.sha
  pub file : Text
  pub only : keep_if (holds_skill t.yaml name) w'.files.active ≡ (file, bytes) ∷ []
  pub store : w'.store ≡ w.store

-- In a consistent state, a rollback to a hash under which the store has a text that reads as a skill
-- of the asked name always succeeds. It answers the row that is active for the name afterwards;
-- this row has the hash that was asked for, which is the hash of that text; and that very text is
-- the only active file that holds a skill of the name. The store is as it was.
pub roll_back-RolledBack :
    (t : SkillTools) (now : ℕ) (sha bytes : Text) (reason : Option Text) (s : Skill)
    (w : SkillWorld)
    → IsConsistent t w
    → read sha w.store ≡ some bytes
    → parse_skill t.yaml bytes ≡ ok s
    → (w' : SkillWorld) × (r : SkillVersionRecord) × (roll_back t now s.front.name sha reason w
        ≡ some (w', ok r))
      × RolledBack t s.front.name sha bytes w w' r
unfolding roll_back restore
roll_back-RolledBack t now sha bytes reason s w c there parsed =
    let name = s.front.name in
    let hashed = read-Stored t.hash sha bytes w.store c.stored there in
    let cut : path_for_returns sha ≡ true =
      subst (λ x. path_for_returns x ≡ true) hashed (t.hash_cut bytes) in
    let self : text_eq name name ≡ true = (text_eq_iff name name).1 refl in
    let (d, file, found, back, only) =
      restore_from_bytes-holds_skill t.yaml name bytes w.files (rw (parsed, has_name) self)
        (not_blank name (parse_skill-Checked t.yaml bytes s parsed).name) c.active_distinct
        c.archived_distinct in
    let rec =
      record_version-Recorded now (text "rolled back") none rollback name sha s.front.version
        (sha_of (active_row name w.history)) reason w.store w.history c.one c.kept
        (read-exists sha bytes w.store there) in
    let parent = sha_of (active_row name w.history) in
    let history =
      record_version now (text "rolled back") none rollback name sha s.front.version parent reason
        w.history in
    (
      note (skill_rolled_back name parent sha reason) (record w { files = d; history = history }),
      rec.row,
      rw (cut, roll_back)
          (rw there (
            rw (parsed, restore_parsed)
              (rw (self, restore_parsed)
                (rw (found, restore) (rw (rec.active, answer_active) refl))))),
      record {
        active = rec.active;
        row_sha = rec.row_sha;
        hashed = hashed ∙ sym rec.row_sha;
        file = file;
        only = only;
        store = refl;
      },
    )
