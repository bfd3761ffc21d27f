-- ===== src/Persistence/SkillHistory.antt =====
-- The append-only table `skills_history` of crates/forge-persistence: rows in the order of their ids,
-- the clock an argument.
pub mod Active
use forge_os.Prelude.{
  ℕ, suc, ◌+◌, Text, text, text_eq, Bool, true, false, not, ◌&&◌, Option, none, some, List, [], ◌∷◌,
  ◌++◌, map, keep_if, if◌then◌else◌, ◌==◌,
}
use mathlib.Core.List.{reverse}
use forge_os.Skills.Sort.{sort_by}
use forge_os.Skills.Version.{is_le, text_cmp}

pub data SkillOrigin : Type 0 where
  handcrafted proposal curated rollback : SkillOrigin

pub record SkillVersionRecord : Type 0 where
  pub id : ℕ
  pub name : Text
  pub sha : Text
  pub version : Text
  pub origin : SkillOrigin
  pub origin_mission_id : Option ℕ
  pub parent_sha : Option Text
  pub promoted_at : ℕ
  pub retired_at : Option ℕ
  pub reason : Option Text

pub record NewSkillVersion : Type 0 where
  pub name : Text
  pub sha : Text
  pub version : Text
  pub origin : SkillOrigin
  pub origin_mission_id : Option ℕ
  pub parent_sha : Option Text
  pub reason : Option Text

pub record SkillHistory : Type 0 where
  pub rows : List SkillVersionRecord
  pub next_id : ℕ

abbrev is_null : Option ℕ → Bool
is_null none = true
is_null (some _) = false

-- `name=?1 AND retired_at IS NULL`
unfoldable pub is_live : Text → SkillVersionRecord → Bool
unfolding text_eq
is_live name r = text_eq r.name name && is_null r.retired_at

abbrev pub new_row : ℕ → ℕ → NewSkillVersion → SkillVersionRecord
new_row id now v = record {
  id = id;
  name = v.name;
  sha = v.sha;
  version = v.version;
  origin = v.origin;
  origin_mission_id = v.origin_mission_id;
  parent_sha = v.parent_sha;
  promoted_at = now;
  retired_at = none;
  reason = v.reason;
}

unfoldable pub promote : ℕ → NewSkillVersion → SkillHistory → SkillHistory
promote now v h = record { rows = h.rows ++ new_row h.next_id now v ∷ []; next_id = suc h.next_id }

-- `ORDER BY id DESC LIMIT 1`
unfoldable pub newest :
    (SkillVersionRecord → Bool) → List SkillVersionRecord → Option SkillVersionRecord
newest p [] = none
newest p (r ∷ rs) = elim (newest p rs) [ some x ↦ some x | none ↦ if p r then some r else none ]

abbrev pub active_row : Text → SkillHistory → Option SkillVersionRecord
active_row name h = newest (is_live name) h.rows

-- `COALESCE(reason || '\n' || ?2, ?2)`
abbrev with_reason : Text → Option Text → Text
with_reason more none = more
with_reason more (some old) = old ++ (10 ∷ more)

abbrev pub retire_row : ℕ → Text → SkillVersionRecord → SkillVersionRecord
retire_row now reason r = record r {
  retired_at = some now;
  reason = some (with_reason reason r.reason);
}

abbrev pub retire_id : ℕ → ℕ → Text → SkillVersionRecord → SkillVersionRecord
retire_id id now reason r = if r.id == id then retire_row now reason r else r

unfoldable pub retire_active : ℕ → Text → Text → SkillHistory → SkillHistory
unfolding newest is_live
retire_active now name reason h = elim (active_row name h) [
  | none ↦ h
  | some r ↦ record h { rows = map (retire_id r.id now reason) h.rows }
]

unfoldable pub history : Text → SkillHistory → List SkillVersionRecord
unfolding text_eq
history name h = reverse (keep_if (λ r. text_eq r.name name) h.rows)

abbrev is_id : Option SkillVersionRecord → ℕ → Bool
is_id none id = false
is_id (some r) id = r.id == id

-- The newest live row of each name, by name.
unfoldable pub list_active : SkillHistory → List SkillVersionRecord
unfolding newest is_live sort_by text_cmp
list_active h =
    sort_by (λ a b. is_le (text_cmp a.name b.name))
      (keep_if (λ r. is_live r.name r && is_id (active_row r.name h) r.id) h.rows)
