-- ===== src/Access.antt =====
-- agora/coordinator/rbac.py: roles, their permissions, and the decorator of the endpoints.
pub mod Guards
use hermes_agora.Base.{
  ℕ, String, ◌≡◌, Bool, true, not, Option, none, some, List, [], ◌∷◌, map, if◌then◌else◌, mem,
}

pub data Role : Type 0 where
  admin agent observer : Role

pub data Permission : Type 0 where
  discussion_create discussion_vote task_create task_execute task_review : Permission
  agent_register agent_approve config_read config_write admin_full : Permission

abbrev pub value : Permission → String
value discussion_create = "discussion:create"
value discussion_vote = "discussion:vote"
value task_create = "task:create"
value task_execute = "task:execute"
value task_review = "task:review"
value agent_register = "agent:register"
value agent_approve = "agent:approve"
value config_read = "config:read"
value config_write = "config:write"
value admin_full = "admin:full"

-- `set(Permission)`
abbrev pub all_permissions : List Permission
all_permissions =
    discussion_create ∷ discussion_vote ∷ task_create ∷ task_execute ∷ task_review ∷ agent_register
    ∷ agent_approve ∷ config_read ∷ config_write ∷ admin_full ∷ []

unfoldable pub role_permissions : Role → List Permission
role_permissions admin = all_permissions
role_permissions agent =
    discussion_create ∷ discussion_vote ∷ task_create ∷ task_execute ∷ task_review ∷ agent_register
    ∷ config_read ∷ []
role_permissions observer = discussion_create ∷ discussion_vote ∷ config_read ∷ []

-- `AGORA_RBAC_ENFORCE` in lower case, empty where it is not set
unfoldable pub rbac_enforced : String → Bool
rbac_enforced setting = mem setting ("true" ∷ "1" ∷ [])

unfoldable pub check_permission : Role → Permission → Bool
unfolding role_permissions
check_permission role permission = mem (value permission) (map value (role_permissions role))

pub data Answer {ℓ} (A : Type ℓ) : Type ℓ where
  http_error : (status_code : ℕ) → Answer A
  answered : A → Answer A

-- The wrapper around an endpoint, of which `result` is what it returns when it is called.
unfoldable pub requires {ℓ} : {A : Type ℓ} → String → Permission → Option Role → A → Answer A
unfolding rbac_enforced check_permission
requires setting permission role result =
    if not (rbac_enforced setting) then answered result else elim role [
      | none ↦ http_error 401
      | some r ↦ if not (check_permission r permission) then http_error 403 else answered result
    ]
