-- ===== src/Policy/Evaluate.antt =====
-- What `evaluate` of crates/forge-policy/src/lib.rs decides, against a description of when a rule
-- is violated.
use forge_os.Prelude.{
  ◌≡◌, refl, ap, Text, text_eq, text_eq_iff, starts_with, true, false, Option, none, some, List, [],
  ◌∷◌, ◌++◌, ok, arith, All, ◌⊎◌, inl, inr, Bool-cases, Result-cases,
}
use forge_os.Domain.Policy.{PolicyDecision, allow, deny, require_approval}
use forge_os.Policy.Regex.{Re, compile, is_match}
use forge_os.Policy.{
  OnFail, deny_rule, approval_rule, allow_rule, Rule, EvalCtx, StringPrefixCheck,
  StringMatchesCheck, field_value, applies, resolve_special, prefix_failure, match_failure,
  try_rule, evaluate, decision, decide_by, prefix_reason, match_reason,
}

-- The required prefix is missing.
abbrev pub MissesPrefix : Option StringPrefixCheck → EvalCtx → Type 0
MissesPrefix none ctx = ⊥
MissesPrefix (some check) ctx =
    starts_with (field_value ctx check.field) (resolve_special check.prefix_of ctx) ≡ false

-- A pattern that compiles matches the field.
abbrev pub HitsPattern : Option StringMatchesCheck → EvalCtx → Type 0
HitsPattern none ctx = ⊥
HitsPattern (some check) ctx =
    (re : Re) × (compile check.regex ≡ ok re) × (is_match re (field_value ctx check.field) ≡ true)

abbrev pub Concerns : Rule → EvalCtx → Type 0
Concerns rule ctx = (rule.when_tool ≡ none) ⊎ (rule.when_tool ≡ some ctx.tool)

abbrev pub IsViolated : Rule → EvalCtx → Type 0
IsViolated rule ctx =
    Concerns rule ctx
    × (MissesPrefix rule.require_input_string_prefix ctx
        ⊎ HitsPattern rule.deny_if_input_string_matches ctx)

-- The decision of a violated rule, whatever its reason text.
abbrev pub Decides : OnFail → Text → PolicyDecision → Type 0
Decides deny_rule name d = (reason : Text) × (d ≡ deny name reason)
Decides approval_rule name d = (reason : Text) × (d ≡ require_approval name reason)
Decides allow_rule name d = d ≡ allow

applies_cases :
    (rule : Rule) (ctx : EvalCtx)
    → (Concerns rule ctx × (applies rule.when_tool ctx.tool ≡ true))
      ⊎ ((¬ Concerns rule ctx) × (applies rule.when_tool ctx.tool ≡ false))
applies_cases rule ctx = go rule.when_tool
  where
    go :
        (w : Option Text)
        → (((w ≡ none) ⊎ (w ≡ some ctx.tool)) × (applies w ctx.tool ≡ true))
          ⊎ ((¬ ((w ≡ none) ⊎ (w ≡ some ctx.tool))) × (applies w ctx.tool ≡ false))
    go none = inl (inl refl, refl)
    go (some t) = elim (Bool-cases (text_eq t ctx.tool)) [
      | inl same ↦ inl (inr (ground (arith, text_eq_iff t ctx.tool)), same)
      | inr other ↦ inr ((λ c. ground (arith, text_eq_iff t ctx.tool)), other)
    ]

prefix_cases :
    (check : Option StringPrefixCheck) (ctx : EvalCtx)
    → (MissesPrefix check ctx × ((reason : Text) × (prefix_failure check ctx ≡ some reason)))
      ⊎ ((¬ MissesPrefix check ctx) × (prefix_failure check ctx ≡ none))
unfolding prefix_failure
prefix_cases none ctx = inr ((λ h. h), refl)
prefix_cases (some check) ctx =
    elim (Bool-cases
      (starts_with (field_value ctx check.field) (resolve_special check.prefix_of ctx))) [
        | inl has ↦ inr ((λ misses. cc), ground arith)
        | inr misses ↦ inl (
          misses,
          (
            prefix_reason check.field (field_value ctx check.field)
                (resolve_special check.prefix_of ctx),
            rw (misses, prefix_failure),
          ),
        )
      ]

match_cases :
    (check : Option StringMatchesCheck) (ctx : EvalCtx)
    → (HitsPattern check ctx × ((reason : Text) × (match_failure check ctx ≡ some reason)))
      ⊎ ((¬ HitsPattern check ctx) × (match_failure check ctx ≡ none))
unfolding match_failure
match_cases none ctx = inr ((λ h. h), refl)
match_cases (some check) ctx = elim (Result-cases (compile check.regex)) [
  | inr (e, bad) ↦ inr ((λ (re, good, _). cc), rw (bad, match_failure))
  | inl (re, good) ↦ elim (Bool-cases (is_match re (field_value ctx check.field))) [
    | inl hit ↦ inl (
      (re, good, hit),
      (
        match_reason check.field (field_value ctx check.field) check.regex,
        rw (good, match_failure) (rw hit),
      ),
    )
    | inr miss ↦ inr ((λ (re', good', hit). ground arith), rw (good, match_failure) (rw miss))
  ]
]

decide_by-Decides : (o : OnFail) (name reason : Text) → Decides o name (decide_by o name reason)
decide_by-Decides deny_rule name reason = (reason, refl)
decide_by-Decides approval_rule name reason = (reason, refl)
decide_by-Decides allow_rule name reason = refl

try_rule_cases :
    (rule : Rule) (ctx : EvalCtx)
    → (IsViolated rule ctx × ((reason : Text) × (try_rule rule ctx ≡ some (decision rule reason))))
      ⊎ ((¬ IsViolated rule ctx) × (try_rule rule ctx ≡ none))
unfolding try_rule
try_rule_cases rule ctx = elim (applies_cases rule ctx) [
  | inr (unconcerned, skip) ↦ inr ((λ v. unconcerned v.0), rw (skip, try_rule))
  | inl (concerned, on) ↦ elim (prefix_cases rule.require_input_string_prefix ctx) [
    | inl (misses, (reason, e)) ↦ inl ((concerned, inl misses), (reason, rw (on, try_rule) (rw e)))
    | inr (has, e) ↦ elim (match_cases rule.deny_if_input_string_matches ctx) [
      | inl (hits, (reason, e')) ↦
          inl ((concerned, inr hits), (reason, rw (on, try_rule) (rw e (rw e'))))
      | inr (clean, e') ↦
          inr
            ((λ v. elim v.1 [ inl m ↦ has m | inr h ↦ clean h ]), rw (on, try_rule) (rw e (rw e')))
    ]
  ]
]

-- The first violated rule of a list, with the rules before it.
pub record FirstViolated (rules : List Rule) (ctx : EvalCtx) : Type 0 where
  pub before : List Rule
  pub rule : Rule
  pub after : List Rule
  pub split : rules ≡ before ++ rule ∷ after
  pub kept : All (λ r. ¬ IsViolated r ctx) before
  pub violated : IsViolated rule ctx

-- `evaluate` allows a call that violates no rule. Else there is a first violated rule, and the
-- decision is that rule's: a denial or an approval request under its name, or an explicit allow.
pub evaluate-FirstViolated :
    (rules : List Rule) (ctx : EvalCtx)
    → (All (λ r. ¬ IsViolated r ctx) rules × (evaluate rules ctx ≡ allow))
      ⊎ ((first : FirstViolated rules ctx) × Decides first.rule.on_fail first.rule.name
            (evaluate rules ctx))
unfolding evaluate decision
evaluate-FirstViolated [] ctx = inl (tt, refl)
evaluate-FirstViolated (rule ∷ rules) ctx = elim (try_rule_cases rule ctx) [
  | inl (violated, (reason, e)) ↦ inr (
    record {
      before = [];
      rule = rule;
      after = rules;
      split = refl;
      kept = tt;
      violated = violated;
    },
    rw (e, evaluate) (decide_by-Decides rule.on_fail rule.name reason),
  )
  | inr (kept, e) ↦ elim (evaluate-FirstViolated rules ctx) [
    | inl (all_kept, allowed) ↦ inl ((kept, all_kept), rw (e, evaluate) allowed)
    | inr (first, decides) ↦ inr (
      record {
        before = rule ∷ first.before;
        rule = first.rule;
        after = first.after;
        split = ap (λ l. rule ∷ l) first.split;
        kept = (kept, first.kept);
        violated = first.violated;
      },
      rw (e, evaluate) decides,
    )
  ]
]
