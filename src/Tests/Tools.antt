-- ===== src/Tests/Tools.antt =====
-- `safe_resolve` of crates/forge-tools/src/builtins.rs in a small file system.
use forge_os.Prelude.{
  ◌≡◌, refl, text, text_eq, false, Option, none, some, List, [], ◌∷◌, ◌++◌, ok, err, if◌then◌else◌,
  All, ◌&&◌, arith, Bool-cases, inl, inr, subst,
}
use forge_os.Tools.{
  parent_dir, normal, FilePath, path_starts_with, GivenPath, escapes, probe_ancestors,
  canonicalize_deepest_existing, safe_resolve,
}
use forge_os.Tools.Contained.{GivesNames, IsName, IsContained, safe_resolve-IsContained}

opened : Unit {0}
unfolding text_eq path_starts_with probe_ancestors canonicalize_deepest_existing safe_resolve
opened = tt

-- The folders `/ws`, `/ws/src` and `/etc`, and the paths that lead there.
abbrev ws : FilePath
ws = normal (text "ws") ∷ []

abbrev src : FilePath
src = ws ++ normal (text "src") ∷ []

abbrev etc : FilePath
etc = normal (text "etc") ∷ []

abbrev table : List (FilePath × FilePath)
table =
    ([], [])
    ∷ (ws, ws)
    ∷ (src, src)
    ∷ (etc, etc)
    ∷ (ws ++ parent_dir ∷ [], [])
    ∷ (ws ++ parent_dir ∷ etc, etc)
    ∷ []

abbrev look : List (FilePath × FilePath) → FilePath → Option FilePath
look [] p = none
look ((from, to) ∷ rows) p =
    let rest = look rows p in
    if path_starts_with p from && path_starts_with from p then some to else rest

look-names :
    (rows : List (FilePath × FilePath))
    → All (λ e. All IsName e.1) rows
    → (p q : FilePath) → look rows p ≡ some q
    → All IsName q
look-names [] h p q e = absurd (ground (arith, e))
look-names ((from, to) ∷ rows) h p q e =
    elim (Bool-cases (path_starts_with p from && path_starts_with from p)) [
      | inr other ↦ look-names rows h.1 p q (rw (other, look) at e)
      | inl same ↦
          let k : ◌≡◌ {A = Option FilePath} (some to) (some q) = rw (same, look) at e in
          let one : to ≡ q = cc in subst (All IsName) one h.0
    ]

table-GivesNames : GivesNames (look table)
table-GivesNames =
    look-names table (tt, ((tt, tt), ((tt, (tt, tt)), ((tt, tt), (tt, ((tt, tt), tt))))))

abbrev new_file : GivenPath
new_file = record { absolute = false; components = normal (text "src") ∷ normal (text "a.rs") ∷ [] }

safe_resolve-IsContained_example :
    IsContained (look table) ws new_file (src ++ normal (text "a.rs") ∷ [])
unfolding opened
safe_resolve-IsContained_example =
    safe_resolve-IsContained (look table) table-GivesNames ws new_file
      (src ++ normal (text "a.rs") ∷ []) refl

-- A path out of the workspace is refused where all of it is there.
refused :
    safe_resolve
      (look table)
      ws
      (record { absolute = false; components = parent_dir ∷ normal (text "etc") ∷ [] })
    ≡ err (escapes etc ws)
unfolding opened
refused = refl

-- Behind a folder that is not there it is let through: `new/../../etc/x` names a file of `/etc` as
-- soon as the folder `new` has been made.
let_through :
    safe_resolve (look table) ws (record {
      absolute = false;
      components = normal (text "new") ∷ parent_dir ∷ parent_dir ∷ etc ++ normal (text "x") ∷ [];
    })
    ≡ ok (ws ++ normal (text "new") ∷ parent_dir ∷ parent_dir ∷ etc ++ normal (text "x") ∷ [])
unfolding opened
let_through = refl
