-- ===== src/Skills/Verdict.antt =====
-- What the gate of crates/forge-skills/src/validate.rs lets pass.
use forge_os.Prelude.{
  ◌≡◌, ◌∙◌, refl, sym, ap, Text, text, Bool, true, false, not, ◌&&◌, ◌||◌, List, [], ◌∷◌, map,
  Result, ok, err, Result-cases, inl, inr, leb, keep_if, keep_if-kept, keep_if-left, all, arith,
  Bool-cases,
}
use forge_os.Skills.{Skill, SkillError, Yaml, parse_skill}
use forge_os.Skills.Validate.{
  ValidationCheck, ValidationReport, ValidatorContext, is_soft, harmless, report_of, failed,
  hard_failures, body_len, resolves, is_empty, has_trigger, unresolved, collisions, regresses,
  previous, loud, checks_of, validate_skill, validate_bytes,
}

is_empty-cons {ℓ} : {A : Type ℓ} (x : A) (xs : List A) → is_empty (x ∷ xs) ≡ false
is_empty-cons x xs = ground arith

keep_if-all {ℓ} :
    {A : Type ℓ} (p : A → Bool) (xs : List A) → is_empty (keep_if (λ x. not (p x)) xs) ≡ all p xs
keep_if-all p [] = refl
keep_if-all p (x ∷ xs) = elim (Bool-cases (p x)) [
  | inl good ↦ rw (good, keep_if) (keep_if-all p xs)
  | inr bad ↦ rw (bad, keep_if) (is_empty-cons x _)
]

abbrev is_hard_failure : ValidationCheck → Bool
is_hard_failure c = not c.passed && not (is_soft c.severity)

harmless_no : (p q : Bool) → (not p && not q) ≡ true → (p || q) ≡ false
harmless_no p q h = ground arith

harmless_yes : (p q : Bool) → (not p && not q) ≡ false → (p || q) ≡ true
harmless_yes p q h = ground arith

gate :
    (a b c d x y z : Bool)
    → ((a || false)
        && ((b || false)
            && ((c || false)
                && ((d || false) && ((x || true) && ((y || true) && ((z || true) && true)))))))
      ≡ (a && b && c && d)
gate a b c d x y z = ground arith

-- No hard failure is the same as a report that is fine.
hard_failures-report_of :
    (checks : List ValidationCheck)
    → is_empty (hard_failures (report_of checks)) ≡ (report_of checks).ok
unfolding hard_failures
hard_failures-report_of [] = refl
hard_failures-report_of (c ∷ cs) = elim (Bool-cases (is_hard_failure c)) [
  | inl bad ↦
      ap (λ l. is_empty (map (λ c. c.id) l)) (keep_if-kept is_hard_failure c cs bad)
      ∙ is_empty-cons c.id _
      ∙ ap (λ b. b && all harmless cs) (sym (harmless_no c.passed (is_soft c.severity) bad))
  | inr fine ↦
      ap (λ l. is_empty (map (λ c. c.id) l)) (keep_if-left is_hard_failure c cs fine)
      ∙ hard_failures-report_of cs
      ∙ ap (λ b. b && all harmless cs) (sym (harmless_yes c.passed (is_soft c.severity) fine))
]

abbrev pub Verdict : ValidatorContext → Result SkillError Skill → ValidationReport → Type 0
Verdict ctx (err e) r = (r.ok ≡ false) × (failed r ≡ text "parses" ∷ [])
Verdict ctx (ok s) r =
    (r.ok ≡ (
      leb 40 (body_len s.body)
      && has_trigger s
      && not (is_empty s.front.tools)
      && all (resolves ctx) s.front.tools))
    × (map (λ c. c.id) r.checks ≡ map (λ c. c.id) (checks_of s ctx))

-- A document passes the gate if and only if it reads as a skill whose body has at least 40 bytes
-- that are no blanks, that has a keyword or a file pattern and at least one tool, and whose tools
-- are all known or start with `mcp:`. Versions, collisions and the case of keywords have no say.
-- The hard failures are none just if it passes, and a document that does not read fails with the
-- check `parses` alone.
pub validate_bytes-Verdict :
    (y : Yaml) (raw : Text) (ctx : ValidatorContext)
    → Verdict ctx (parse_skill y raw) (validate_bytes y raw ctx)
      × (is_empty (hard_failures (validate_bytes y raw ctx)) ≡ (validate_bytes y raw ctx).ok)
unfolding validate_bytes validate_skill checks_of hard_failures failed
validate_bytes-Verdict y raw ctx = elim (Result-cases (parse_skill y raw)) [
  | inr (e, h) ↦ rw (h, validate_bytes) ((refl, refl), refl)
  | inl (s, h) ↦
      rw (h, validate_bytes)
        (
          (
            gate (leb 40 (body_len s.body)) (has_trigger s) (not (is_empty s.front.tools))
                  (is_empty (unresolved s ctx)) (is_empty (collisions s ctx.active_skills))
                  (not (regresses s.front.version (previous s.front.name ctx.active_skills)))
                  (is_empty (loud s))
                ∙ ap
                    (λ d.
                      leb 40 (body_len s.body)
                      && has_trigger s
                      && not (is_empty s.front.tools)
                      && d)
                    (keep_if-all (resolves ctx) s.front.tools),
            refl,
          ),
          hard_failures-report_of (checks_of s ctx),
        )
]
