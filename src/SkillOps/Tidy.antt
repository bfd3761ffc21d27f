-- ===== src/SkillOps/Tidy.antt =====
-- What the operations of crates/forge-runtime/src/skills_ops.rs keep in the folders, the content
-- store and the table, one by one.
use forge_os.Prelude.{
  ℕ, text, ◌≡◌, ◌∙◌, refl, sym, ap, subst, Text, text_eq, text_eq_iff, Bool, true, false, ◌&&◌,
  ◌||◌, Option, some, List, [], ◌∷◌, ◌++◌, map, All, All-append, err, Option-cases, Result-cases,
  Bool-cases, inl, inr, ◌⊎◌, arith, ◌==◌,
}
use forge_os.Planner.{has}
use forge_os.Persistence.SkillHistory.{
  SkillHistory, SkillVersionRecord, SkillOrigin, NewSkillVersion, is_live, new_row, promote, newest,
  active_row, retire_id, retire_active,
}
use forge_os.Persistence.SkillHistory.Active.{OneActive, promote-OneActive}
use forge_os.Skills.{Skill, SkillError, malformed, Yaml, parse_skill}
use forge_os.Skills.Files.{
  Folder, Folders, file_names, read, exists, approve_skill, approve_proposal_detail,
}
use forge_os.Skills.Files.Names.{has-append}
use mathlib.Core.List.{map-append}
use forge_os.SkillOps.{contains_sha, put, retire_some, record_version}

-- Approval fails, or has the one outcome.
pub approve_cases :
    (yaml : Yaml) (hash : Text → Text) (file : Text) (d : Folders)
    → ((e : SkillError) × (approve_proposal_detail yaml hash file d ≡ err e))
      ⊎ ((s : Skill) × (approve_proposal_detail yaml hash file d
            ≡ approve_skill yaml hash file s d))
unfolding approve_proposal_detail
approve_cases yaml hash file d = elim (Option-cases (read file d.proposed)) [
  | inl e ↦ inl (malformed file (text "no such proposal"), rw (e, approve_proposal_detail) refl)
  | inr (raw, e) ↦ elim (Result-cases (parse_skill yaml raw)) [
    | inr (x, q) ↦ inl (x, rw (e, approve_proposal_detail) (rw q refl))
    | inl (s, q) ↦ inr (s, rw (e, approve_proposal_detail) (rw q refl))
  ]
]

abbrev pub Stored : (Text → Text) → Folder → Type 0
Stored hash = All (λ e. hash e.1 ≡ e.0)

pub put-Stored :
    (hash : Text → Text) (bytes : Text) (store : Folder)
    → Stored hash store
    → Stored hash (put (hash bytes) bytes store)
unfolding put
put-Stored hash bytes store h = elim (Bool-cases (contains_sha (hash bytes) store)) [
  | inl old ↦ rw (old, put) h
  | inr fresh ↦ rw (fresh, put) (All-append _ store ((hash bytes, bytes) ∷ []) h (refl, tt))
]

exists-concat :
    (x f c : Text) (d : Folder)
    → exists x (d ++ (f, c) ∷ []) ≡ (exists x d || (text_eq f x || false))
exists-concat x f c d =
    ap (has x) (map-append (λ e. e.0) d ((f, c) ∷ [])) ∙ has-append x (file_names d) (f ∷ [])

pub put-keeps :
    (x sha bytes : Text) (store : Folder)
    → contains_sha x store ≡ true
    → contains_sha x (put sha bytes store) ≡ true
unfolding put
put-keeps x sha bytes store h = elim (Bool-cases (contains_sha sha store)) [
  | inl old ↦ rw (old, put) h
  | inr fresh ↦
      rw (fresh, put) (exists-concat x sha bytes store ∙ ap (λ b. b || (text_eq sha x || false)) h)
]

pub put-contains_sha :
    (sha bytes : Text) (store : Folder) → contains_sha sha (put sha bytes store) ≡ true
unfolding put
put-contains_sha sha bytes store = elim (Bool-cases (contains_sha sha store)) [
  | inl old ↦ rw (old, put) old
  | inr fresh ↦
      rw (fresh, put)
        (ground (arith, exists-concat sha sha bytes store, (text_eq_iff sha sha).1 refl))
]

abbrev pub Kept : Folder → List SkillVersionRecord → Type 0
Kept store = All (λ r. contains_sha r.sha store ≡ true)

pub put-Kept :
    (sha bytes : Text) (store : Folder) (rs : List SkillVersionRecord)
    → Kept store rs
    → Kept (put sha bytes store) rs
put-Kept sha bytes store [] h = tt
put-Kept sha bytes store (r ∷ rs) h =
    (put-keeps r.sha sha bytes store h.0, put-Kept sha bytes store rs h.1)

-- The retirement of a row that is not there does nothing.
retire_some-active :
    (now : ℕ) (name why : Text) (h : SkillHistory)
    → retire_some (active_row name h) now name why h ≡ retire_active now name why h
unfolding retire_active
retire_some-active now name why h = elim (Option-cases (active_row name h)) [
  | inl e ↦ rw (e, retire_active) refl
  | inr (r, e) ↦ rw e refl
]

newest-append :
    (p : SkillVersionRecord → Bool) (xs : List SkillVersionRecord) (y : SkillVersionRecord)
    → p y ≡ true
    → newest p (xs ++ y ∷ []) ≡ some y
unfolding newest
newest-append p [] y h = rw (h, newest) refl
newest-append p (x ∷ xs) y h = rw (newest-append p xs y h, newest) refl

All-retired :
    (store : Folder) (id now : ℕ) (why : Text) (rs : List SkillVersionRecord)
    → Kept store rs
    → Kept store (map (retire_id id now why) rs)
All-retired store id now why [] h = tt
All-retired store id now why (r ∷ rs) h = (sha_kept r h.0, All-retired store id now why rs h.1)
  where
    sha_kept :
        (r : SkillVersionRecord)
        → contains_sha r.sha store ≡ true
        → contains_sha (retire_id id now why r).sha store ≡ true
    sha_kept r k = elim (Bool-cases (r.id == id)) [ inl same ↦ rw same k | inr other ↦ rw other k ]

pub retire_active-Kept :
    (store : Folder) (now : ℕ) (name why : Text) (h : SkillHistory)
    → Kept store h.rows
    → Kept store (retire_active now name why h).rows
unfolding retire_active
retire_active-Kept store now name why h k = elim (Option-cases (active_row name h)) [
  | inl e ↦ rw (e, retire_active) k
  | inr (r, e) ↦ rw (e, retire_active) (All-retired store r.id now why h.rows k)
]

-- What recording a version makes of the table.
pub record Recorded (name sha : Text) (store : Folder) (h h' : SkillHistory) : Type 0 where
  pub one : OneActive h'
  pub kept : Kept store h'.rows
  pub row : SkillVersionRecord
  pub active : active_row name h' ≡ some row
  pub row_sha : row.sha ≡ sha
  pub row_name : row.name ≡ name

pub record_version-Recorded :
    (now : ℕ) (why : Text) (mission : Option ℕ) (origin : SkillOrigin) (name sha version : Text)
    (parent reason : Option Text) (store : Folder) (h : SkillHistory)
    → OneActive h
    → Kept store h.rows
    → contains_sha sha store ≡ true
    → Recorded name sha store h
        (record_version now why mission origin name sha version parent reason h)
unfolding record_version promote is_live
record_version-Recorded now why mission origin name sha version parent reason store h one kept
      there =
    let v : NewSkillVersion = record {
      name = name;
      sha = sha;
      version = version;
      origin = origin;
      origin_mission_id = mission;
      parent_sha = parent;
      reason = reason;
    } in
    let before = retire_active now name why h in
    let made : Recorded name sha store h (promote now v before) = record {
      one = promote-OneActive now now why v h one;
      kept =
          All-append _ before.rows (new_row before.next_id now v ∷ [])
            (retire_active-Kept store now name why h kept) (there, tt);
      row = new_row before.next_id now v;
      active =
          newest-append (is_live name) before.rows (new_row before.next_id now v)
            (ap (λ b. b && true) ((text_eq_iff name name).1 refl));
      row_sha = refl;
      row_name = refl;
    } in
    subst (λ h₀. Recorded name sha store h (promote now v h₀))
      (sym (retire_some-active now name why h)) made
