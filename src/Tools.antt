-- ===== src/Tools.antt =====
-- crates/forge-tools/src/builtins.rs: `safe_resolve`, which keeps the file tools inside the workspace.
-- A path is its components, as `std::path::Path` reads them. `canonicalize` of the dunce crate asks
-- the file system and is an argument; so is whether a given text starts at the root.
pub mod Contained
use forge_os.Prelude.{
  Text, text_eq, Bool, true, false, ◌&&◌, Option, none, some, List, [], ◌∷◌, ◌++◌, Result, ok, err,
  if◌then◌else◌,
}
use mathlib.Core.List.{reverse}

-- `..`, or a name.
pub data Component : Type 0 where
  parent_dir : Component
  normal : Text → Component

abbrev pub FilePath : Type 0
FilePath = List Component

abbrev pub same_component : Component → Component → Bool
same_component parent_dir parent_dir = true
same_component (normal a) (normal b) = text_eq a b
same_component _ _ = false

-- `Path::starts_with`
unfoldable pub path_starts_with : FilePath → FilePath → Bool
unfolding text_eq
path_starts_with p [] = true
path_starts_with [] (c ∷ cs) = false
path_starts_with (d ∷ p) (c ∷ cs) = same_component d c && path_starts_with p cs

-- The path of `InvalidInput`, printed in its reason.
pub data PathError : Type 0 where
  escapes : FilePath → FilePath → PathError

-- A path as a caller gives it.
pub record GivenPath : Type 0 where
  pub absolute : Bool
  pub components : FilePath

abbrev pub join : FilePath → GivenPath → FilePath
join root g = if g.absolute then g.components else root ++ g.components

abbrev pub or_itself : FilePath → Option FilePath → FilePath
or_itself p none = p
or_itself p (some q) = q

module _ (canonicalize : FilePath → Option FilePath) where
  -- The loop: `probe` is what is left of the target, its last component first.
  unfoldable pub probe_ancestors : FilePath → FilePath → FilePath → FilePath
  probe_ancestors target [] tail = elim (canonicalize []) [ some q ↦ q ++ tail | none ↦ target ]
  probe_ancestors target (parent_dir ∷ probe) tail =
      elim (canonicalize (reverse (parent_dir ∷ probe))) [ some q ↦ q ++ tail | none ↦ target ]
  probe_ancestors target (normal n ∷ probe) tail =
      elim (canonicalize (reverse (normal n ∷ probe))) [
        | some q ↦ q ++ tail
        | none ↦ probe_ancestors target probe (normal n ∷ tail)
      ]

  unfoldable pub canonicalize_deepest_existing : FilePath → FilePath
  unfolding probe_ancestors
  canonicalize_deepest_existing target = probe_ancestors target (reverse target) []

  unfoldable pub safe_resolve : FilePath → GivenPath → Result PathError FilePath
  unfolding canonicalize_deepest_existing path_starts_with
  safe_resolve root given =
      let canon_root = or_itself root (canonicalize root) in
      let canon_target = canonicalize_deepest_existing (join root given) in
      if path_starts_with canon_target canon_root
      then ok canon_target
      else err (escapes canon_target canon_root)
