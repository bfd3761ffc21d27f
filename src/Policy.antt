-- ===== src/Policy.antt =====
-- crates/forge-policy/src/lib.rs: rules are tried in order, and the first one that is violated
-- decides. Reading the YAML file is the serde_yaml crate's and is left out.
pub mod Regex
pub mod Evaluate
pub mod Literal
use forge_os.Prelude.{
  Text, text, text_eq, starts_with, Bool, true, false, not, Option, none, some, List, [], ◌∷◌, ◌++◌,
  Result, ok, err, if◌then◌else◌,
}
use forge_os.Domain.Policy.{PolicyDecision, allow, deny, require_approval}
use Regex.{Re, compile, is_match}

pub data OnFail : Type 0 where
  deny_rule approval_rule allow_rule : OnFail

pub record StringPrefixCheck : Type 0 where
  pub field : Text
  pub prefix_of : Text

pub record StringMatchesCheck : Type 0 where
  pub field : Text
  pub regex : Text

pub record Rule : Type 0 where
  pub name : Text
  pub when_tool : Option Text
  pub require_input_string_prefix : Option StringPrefixCheck
  pub deny_if_input_string_matches : Option StringMatchesCheck
  pub on_fail : OnFail

-- `input` is a serde_json value; a rule sees it only through `input.get(field)` as a string.
pub record EvalCtx : Type 0 where
  pub tool : Text
  pub input : Text → Option Text
  pub workspace_root : Text

-- The `match` on `rule.on_fail`.
abbrev pub decide_by : OnFail → Text → Text → PolicyDecision
decide_by deny_rule name reason = deny name reason
decide_by approval_rule name reason = require_approval name reason
decide_by allow_rule name reason = allow

unfoldable pub decision : Rule → Text → PolicyDecision
decision rule reason = decide_by rule.on_fail rule.name reason

unfoldable pub resolve_special : Text → EvalCtx → Text
resolve_special v ctx = if text_eq v (text "workspace_root") then ctx.workspace_root else v

-- `ctx.input.get(&field).and_then(|v| v.as_str()).unwrap_or("")`
abbrev pub field_value : EvalCtx → Text → Text
field_value ctx field = elim (ctx.input field) [ none ↦ [] | some value ↦ value ]

prefix_reason : Text → Text → Text → Text
prefix_reason field value prefix =
    text "field `"
    ++ field
    ++ text "` (`"
    ++ value
    ++ text "`) must start with `"
    ++ prefix
    ++ text "`"

match_reason : Text → Text → Text → Text
match_reason field value regex =
    text "field `"
    ++ field
    ++ text "` (`"
    ++ value
    ++ text "`) matches denied pattern `"
    ++ regex
    ++ text "`"

-- The `when_tool` test: `false` is the first `continue`.
abbrev pub applies : Option Text → Text → Bool
applies none tool = true
applies (some t) tool = text_eq t tool

-- The reason for which the prefix check fails, if it does.
unfoldable pub prefix_failure : Option StringPrefixCheck → EvalCtx → Option Text
unfolding resolve_special prefix_reason
prefix_failure none ctx = none
prefix_failure (some check) ctx =
    let value = field_value ctx check.field in
    let prefix = resolve_special check.prefix_of ctx in
    if not (starts_with value prefix) then some (prefix_reason check.field value prefix) else none

-- The reason for which the match check fails. A pattern that does not compile is the `continue`.
unfoldable pub match_failure : Option StringMatchesCheck → EvalCtx → Option Text
unfolding match_reason
match_failure none ctx = none
match_failure (some check) ctx =
    let value = field_value ctx check.field in
    elim (compile check.regex) [
      | err _ ↦ none
      | ok re ↦
          if is_match re value then some (match_reason check.field value check.regex) else none
    ]

-- One round of the loop: `none` is `continue` or the end of the body.
unfoldable pub try_rule : Rule → EvalCtx → Option PolicyDecision
unfolding prefix_failure match_failure decision
try_rule rule ctx =
    if applies rule.when_tool ctx.tool
    then (elim (prefix_failure rule.require_input_string_prefix ctx) [
      | some reason ↦ some (decision rule reason)
      | none ↦ elim (match_failure rule.deny_if_input_string_matches ctx) [
        | some reason ↦ some (decision rule reason)
        | none ↦ none
      ]
    ])
    else none

unfoldable pub evaluate : List Rule → EvalCtx → PolicyDecision
evaluate [] ctx = allow
evaluate (rule ∷ rules) ctx =
    let rest = evaluate rules ctx in elim (try_rule rule ctx) [ some d ↦ d | none ↦ rest ]
