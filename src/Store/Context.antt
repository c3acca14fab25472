-- ===== src/Store/Context.antt =====
-- apps/api/src/common/auth/tenant-context.ts: the session's user, its branches and permissions.
use pulso_crm.Prelude.{
  ℕ, Bool, Option, none, some, List, includes, not, Result, ok, err, code, validation_error,
  not_found, if◌then◌else◌,
}

pub record TenantContext : Type 0 where
  pub user_id : ℕ
  -- The branches that the user has access to.
  pub branch_ids : List ℕ
  pub active_branch_id : Option ℕ
  -- `permissions.has('cash:operate')` and `permissions.has('payment:collect')`.
  pub can_operate_cash : Bool
  pub can_collect_payment : Bool

-- `branchId ?? ctx.activeBranchId`.
abbrev target_branch : Option ℕ → Option ℕ → Option ℕ
target_branch none active = active
target_branch (some b) active = some b

abbrev allowed_branch : TenantContext → Option ℕ → Result ℕ
allowed_branch ctx none = err (code validation_error)
allowed_branch ctx (some target) =
    if not (includes target ctx.branch_ids) then err (code not_found) else ok target

-- `TenantContextStore.requireBranch`.
unfoldable pub require_branch : TenantContext → Option ℕ → Result ℕ
require_branch ctx branch_id = allowed_branch ctx (target_branch branch_id ctx.active_branch_id)
