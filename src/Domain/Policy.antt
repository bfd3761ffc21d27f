-- ===== src/Domain/Policy.antt =====
-- crates/forge-domain/src/policy.rs
use forge_os.Prelude.{Text, Bool, true, false}

pub data Permission : Type 0 where
  fs_read fs_write shell network : Permission

pub data PolicyDecision : Type 0 where
  allow : PolicyDecision
  deny : (rule reason : Text) → PolicyDecision
  require_approval : (rule reason : Text) → PolicyDecision

unfoldable pub is_allow : PolicyDecision → Bool
is_allow allow = true
is_allow _ = false

unfoldable pub is_deny : PolicyDecision → Bool
is_deny (deny _ _) = true
is_deny _ = false
