-- ===== src/Tests/Policy.antt =====
-- Runs of the policy engine of crates/forge-policy.
use forge_os.Prelude.{
  ◌≡◌, refl, Text, text, text_eq, starts_with, contains, true, false, none, some, [], ◌∷◌, ok, ◌⊎◌,
  All, if◌then◌else◌,
}
use forge_os.Domain.Policy.{allow, is_allow, is_deny}
use forge_os.Policy.Regex.{compile, is_match, trim_start, trim_end, trim_start_pairs, split}
use forge_os.Policy.Literal.{alternatives, compile-alternatives}
use forge_os.Policy.{
  Rule, EvalCtx, OnFail, evaluate, try_rule, decision, prefix_failure, match_failure,
}
use forge_os.Policy.Evaluate.{IsViolated, Decides, FirstViolated, evaluate-FirstViolated}

-- The rule of config/policy.default.yaml, with fewer words.
abbrev destructive : Rule
destructive = record {
  name = text "approve_destructive_shell";
  when_tool = some (text "shell.run");
  require_input_string_prefix = none;
  deny_if_input_string_matches =
      some (record { field = text "command"; regex = alternatives (text "rm") (text "del" ∷ []) });
  on_fail = OnFail.approval_rule;
}

abbrev call : Text → EvalCtx
call command = record {
  tool = text "shell.run";
  input = λ field. if text_eq field (text "command") then some command else none;
  workspace_root = text "/ws";
}

engine : Unit {0}
unfolding evaluate try_rule decision prefix_failure match_failure is_match compile trim_start
    trim_end trim_start_pairs split text_eq starts_with contains is_allow is_deny
engine = tt

ls_allowed : evaluate (destructive ∷ []) (call (text "ls")) ≡ allow
unfolding engine
ls_allowed = refl

-- The word boundary is not checked: `rmx` is stopped as `rm` is.
rmx_stopped : is_allow (evaluate (destructive ∷ []) (call (text "rmx"))) ≡ false
unfolding engine
rmx_stopped = refl

evaluate-FirstViolated_example :
    (All (λ r. ¬ IsViolated r (call (text "rm x"))) (destructive ∷ [])
      × (evaluate (destructive ∷ []) (call (text "rm x")) ≡ allow))
    ⊎ ((first : FirstViolated (destructive ∷ []) (call (text "rm x"))) × Decides first.rule.on_fail
          first.rule.name
          (evaluate (destructive ∷ []) (call (text "rm x"))))
evaluate-FirstViolated_example = evaluate-FirstViolated (destructive ∷ []) (call (text "rm x"))

compile-alternatives_example :
    compile (alternatives (text "rm") (text "del" ∷ []))
    ≡ ok (record { anchored = true; alts = text "rm" ∷ text "del" ∷ [] })
compile-alternatives_example = compile-alternatives (text "rm") (text "del" ∷ []) refl refl
