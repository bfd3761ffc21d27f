-- ===== src/Skills/Files/Approve.antt =====
-- What `approve_proposal_detail` and `restore_from_bytes` of crates/forge-skills/src/proposal.rs put
-- into `active`, as the loader reads it.
use forge_os.Prelude.{
  ◌≡◌, refl, ◌∙◌, subst, Text, text_eq, false, Option, none, some, [], ◌∷◌, ◌++◌, arith, Bool-cases,
  Option-cases, inl, inr, trim, trim_idem, Result, ok, err,
}
use forge_os.Planner.Fences.{strip_prefix}
use forge_os.Skills.{
  Skill, SkillFrontMatter, SkillError, Yaml, check_front, is_blank, read_front, split_front,
  parse_lines, parse_skill, unix_lines, split_at_fence, strip_bom, dashes,
}
use forge_os.Skills.Fence.{IsYaml, written, parse_skill-document}
use forge_os.Skills.Files.Reads.{
  read-write_same, read-write_other, read-remove_other, exists-remove,
}
use forge_os.Skills.Files.{
  Folders, Approved, exists, read, remove, write, activated, approve_proposal_detail,
}

-- What a skill that was read satisfies.
pub record Checked (s : Skill) : Type 0 where
  pub name : is_blank s.front.name ≡ false
  pub version : is_blank s.front.version ≡ false
  pub description : is_blank s.front.description ≡ false
  pub body : trim s.body ≡ s.body

check_front-Checked :
    (front : SkillFrontMatter) (body : Text) (s : Skill) → check_front front body ≡ ok s → Checked s
unfolding check_front
check_front-Checked front body s h = elim (Bool-cases (is_blank front.name)) [
  | inl e ↦ absurd (let k = rw (e, check_front) at h in ground (arith, k))
  | inr e₁ ↦ elim (Bool-cases (is_blank front.version)) [
    | inl e ↦ absurd (let k = rw (e₁, e, check_front) at h in ground (arith, k))
    | inr e₂ ↦ elim (Bool-cases (is_blank front.description)) [
      | inl e ↦ absurd (let k = rw (e₁, e₂, e, check_front) at h in ground (arith, k))
      | inr e₃ ↦
          let r : Skill = record { front = front; body = trim body; source_path = [] } in
          let k : ◌≡◌ {A = Result SkillError Skill} (ok r) (ok s) =
            rw (e₁, e₂, e₃, check_front) at h in
          let q : r ≡ s = cc in
          subst Checked q
            (record { name = e₁; version = e₂; description = e₃; body = trim_idem body })
    ]
  ]
]

module _ (yaml : Yaml) where
  read_front-Checked :
      (o : Result Text SkillFrontMatter) (body : Text) (s : Skill)
      → read_front o body ≡ ok s
      → Checked s
  unfolding read_front
  read_front-Checked (err e) body s h = absurd (ground (arith, h))
  read_front-Checked (ok front) body s h = check_front-Checked front body s h

  split_front-Checked :
      (o : Option (Text × Text)) (s : Skill) → split_front yaml o ≡ ok s → Checked s
  unfolding split_front
  split_front-Checked none s h = absurd (ground (arith, h))
  split_front-Checked (some (head, body)) s h = read_front-Checked (yaml.from_str head) body s h

  pub parse_skill-Checked : (raw : Text) (s : Skill) → parse_skill yaml raw ≡ ok s → Checked s
  unfolding parse_skill parse_lines
  parse_skill-Checked raw s h =
      elim (Option-cases (strip_prefix (dashes ++ 10 ∷ []) (strip_bom (unix_lines raw)))) [
        | inl e ↦ absurd (let k = rw (e, parse_skill, parse_lines) at h in ground (arith, k))
        | inr (after_open, e) ↦
            split_front-Checked (split_at_fence after_open) s
              (rw (e, parse_skill, parse_lines) at h)
      ]

-- What the approval of the skill `s`, proposed as `file`, leaves behind.
pub record IsApproved (yaml : Yaml) (hash : Text → Text) (file : Text) (s : Skill) (d d' : Folders)
    (a : Approved) : Type 0 where
  pub doc : Text
  pub written : read file d'.active ≡ some doc
  pub parsed :
      parse_skill yaml doc
      ≡ ok (record { front = activated yaml s; body = s.body; source_path = [] })
  pub answer :
      a ≡ record { file = file; sha = hash doc; name = s.front.name; version = s.front.version }
  pub taken : exists file d'.proposed ≡ false
  pub archived : d'.archived ≡ d.archived
  pub others :
      (g : Text)
      → text_eq file g ≡ false
      → (read g d'.active ≡ read g d.active) × (read g d'.proposed ≡ read g d.proposed)

-- Take a proposal that reads as a skill, whose front matter, made active, serde_yaml writes and
-- reads back, and whose new document has no CR LF in it (a body with `\r\r\n` has one after it was
-- read). Approving it works. The file is no proposal any more; in its place an active file of that
-- name reads as the same skill, now active, with the same body. The answer has the hash of just the
-- text that was written, and the skill's name and version. Files of other names are as they were.
pub approve_proposal_detail-IsApproved :
    (yaml : Yaml) (hash : Text → Text) (file raw : Text) (s : Skill) (d : Folders)
    → read file d.proposed ≡ some raw
    → parse_skill yaml raw ≡ ok s
    → IsYaml yaml (activated yaml s)
    → unix_lines (written yaml (activated yaml s) s.body) ≡ written yaml (activated yaml s) s.body
    → (d' : Folders) × (a : Approved) × (approve_proposal_detail yaml hash file d ≡ ok (d', a))
      × IsApproved yaml hash file s d d' a
unfolding approve_proposal_detail check_front
approve_proposal_detail-IsApproved yaml hash file raw s d there parse y unix =
    let c = parse_skill-Checked yaml raw s parse in
    let doc = written yaml (activated yaml s) s.body in
    let same : check_front (activated yaml s) s.body
        ≡ ok (record { front = activated yaml s; body = s.body; source_path = [] }) =
      rw (c.name, check_front) (rw c.version (rw c.description (rw c.body refl))) in
    (
      record d { proposed = remove file d.proposed; active = write file doc d.active },
      record { file = file; sha = hash doc; name = s.front.name; version = s.front.version },
      rw (there, approve_proposal_detail) (rw parse refl),
      record {
        doc = doc;
        written = read-write_same file doc d.active;
        parsed = parse_skill-document yaml (activated yaml s) s.body y unix ∙ same;
        answer = refl;
        taken = exists-remove file d.proposed;
        archived = refl;
        others =
            λ g h. (read-write_other file doc g d.active h, read-remove_other file g d.proposed h);
      },
    )
