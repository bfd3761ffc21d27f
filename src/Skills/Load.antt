-- ===== src/Skills/Load.antt =====
-- crates/forge-skills/src/loader.rs: the skills below a folder. A folder is read without errors, in
-- the order of its list.
pub mod Dedupe
pub mod Best
use forge_os.Prelude.{
  Option, some, none, ◌≡◌, ◌∙◌, refl, sym, ap, subst, Text, text, text_eq, text_eq_iff, Bool, true,
  false, not, ◌&&◌, ◌||◌, List, [], ◌∷◌, ◌++◌, map, any, All, keep_if, Result, ok, err,
  if◌then◌else◌, arith, Bool-cases, inl, inr, All-append,
}
use mathlib.Core.List.{map-append}
use forge_os.Planner.{has}
use forge_os.Planner.Distinct.{distinct_names}
use forge_os.Skills.{
  Skill, SkillStatus, SkillError, active, pending_review, archived, Yaml, parse_skill,
}
use forge_os.Skills.Files.{is_md}
use forge_os.Skills.Files.Names.{has-append, distinct_names-concat}
use forge_os.Skills.Sort.{sort_by, is_total}
use forge_os.Skills.Version.{is_le, then_cmp, text_cmp, version_cmp}

mutual
  pub data Entry : Type 0 where
    file : Text → Text → Entry
    dir : Text → Entries → Entry

  pub data Entries : Type 0 where
    no_more : Entries
    more : Entry → Entries → Entries

abbrev pub is_permitted : Bool → SkillStatus → Bool
is_permitted include_pending active = true
is_permitted include_pending pending_review = include_pending
is_permitted include_pending archived = false

abbrev pub name_of : Skill → Text
name_of s = s.front.name

-- Whether `walk` goes into a folder.
unfoldable pub is_skipped : Bool → Text → Bool
unfolding text_eq
is_skipped include_pending name =
    text_eq name (text "archived") || (text_eq name (text "proposed") && not include_pending)

-- By name, and under one name the highest version first.
unfoldable pub by_version : Skill → Skill → Bool
unfolding text_cmp version_cmp
by_version a b =
    is_le
      (then_cmp (text_cmp (name_of a) (name_of b)) (version_cmp b.front.version a.front.version))

-- The loop over the sorted skills, with those that were taken.
unfoldable pub dedupe : List Skill → List Skill → List Skill
unfolding text_eq
dedupe taken [] = taken
dedupe taken (s ∷ ss) = dedupe (take_new (has (name_of s) (map name_of taken))) ss
  where
    take_new : Bool → List Skill
    take_new true = taken
    take_new false = taken ++ s ∷ []

module _ (yaml : Yaml) (include_pending : Bool) where
  abbrev parsed_at : Text → Result SkillError Skill → List Skill
  parsed_at path (ok s) = record s { source_path = path } ∷ []
  parsed_at path (err e) = []

  unfoldable mutual
    unfolding is_skipped is_md parse_skill

    pub walk : Text → Entries → List Skill
    walk path no_more = []
    walk path (more e es) = walk_entry path e ++ walk path es

    pub walk_entry : Text → Entry → List Skill
    walk_entry path (file name contents) =
        if is_md name then parsed_at (path ++ (47 ∷ name)) (parse_skill yaml contents) else []
    walk_entry path (dir name es) =
        let inside = walk (path ++ (47 ∷ name)) es in
        if is_skipped include_pending name then [] else inside

  abbrev pub permitted : Text → Entries → List Skill
  permitted root es = keep_if (λ s. is_permitted include_pending s.front.status) (walk root es)

  -- Where the order is not total on the skills that were found, `slice::sort_by` may panic or leave
  -- them in any order: `none`.
  unfoldable pub load_all : Text → Entries → Option (List Skill)
  unfolding walk sort_by is_total by_version dedupe
  load_all root es =
      let found = permitted root es in
      if is_total by_version found then some (dedupe [] (sort_by by_version found)) else none
