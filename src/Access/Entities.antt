-- ===== src/Access/Entities.antt =====
-- The roles of users (backend/src/users/entities/user.entity.ts), and the administrators' roles and
-- permissions (backend/src/auth/entities, backend/src/auth/enums).
use renaissance_api.Common.{ℕ, Bool, Option, List, [], ◌∷◌, ◌==◌, find_by}
use renaissance_api.Common.Action.{Action}

pub data UserRole : Type 0 where
  user moderator admin backend_executor oracle emergency_pause : UserRole

abbrev pub role_number : UserRole → ℕ
role_number user = 0
role_number moderator = 1
role_number admin = 2
role_number backend_executor = 3
role_number oracle = 4
role_number emergency_pause = 5

abbrev pub same_role : UserRole → UserRole → Bool
same_role a b = role_number a == role_number b

pub record User : Type 0 where
  pub id : ℕ
  pub role : UserRole

pub record UserDb : Type 0 where
  pub users : List User

pub data Error : Type 0 where
  assigning_user_not_found only_admin_assigns moderator_assigns_user user_not_found : Error
  only_admin_revokes not_authenticated insufficient_permissions : Error

abbrev pub RoleAction : Type 0 → Type 0
RoleAction = Action Error UserDb

abbrev pub find_user : ℕ → List User → Option User
find_user i = find_by λ u. u.id == i

pub data AdminRole : Type 0 where
  super_admin financial_admin support_admin risk_admin analyst support : AdminRole

abbrev pub admin_number : AdminRole → ℕ
admin_number super_admin = 0
admin_number financial_admin = 1
admin_number support_admin = 2
admin_number risk_admin = 3
admin_number analyst = 4
admin_number support = 5

abbrev pub same_admin : AdminRole → AdminRole → Bool
same_admin a b = admin_number a == admin_number b

pub data Permission : Type 0 where
  view_users edit_users delete_users suspend_users : Permission
  view_transactions process_withdrawals adjust_balances view_financial_reports : Permission
  view_risk_metrics set_bet_limits pause_in_emergency override_limits : Permission
  view_support_tickets respond_to_tickets view_user_activity reset_user_password : Permission
  manage_admins view_audit_logs manage_seasons manage_system_config : Permission
  moderate_content ban_users view_analytics export_data : Permission

-- `Object.values(Permission)`
abbrev pub all_permissions : List Permission
all_permissions =
    view_users ∷ edit_users ∷ delete_users ∷ suspend_users ∷ view_transactions ∷ process_withdrawals
    ∷ adjust_balances ∷ view_financial_reports ∷ view_risk_metrics ∷ set_bet_limits
    ∷ pause_in_emergency ∷ override_limits ∷ view_support_tickets ∷ respond_to_tickets
    ∷ view_user_activity ∷ reset_user_password ∷ manage_admins ∷ view_audit_logs ∷ manage_seasons
    ∷ manage_system_config ∷ moderate_content ∷ ban_users ∷ view_analytics ∷ export_data ∷ []

abbrev pub permission_number : Permission → ℕ
permission_number view_users = 0
permission_number edit_users = 1
permission_number delete_users = 2
permission_number suspend_users = 3
permission_number view_transactions = 4
permission_number process_withdrawals = 5
permission_number adjust_balances = 6
permission_number view_financial_reports = 7
permission_number view_risk_metrics = 8
permission_number set_bet_limits = 9
permission_number pause_in_emergency = 10
permission_number override_limits = 11
permission_number view_support_tickets = 12
permission_number respond_to_tickets = 13
permission_number view_user_activity = 14
permission_number reset_user_password = 15
permission_number manage_admins = 16
permission_number view_audit_logs = 17
permission_number manage_seasons = 18
permission_number manage_system_config = 19
permission_number moderate_content = 20
permission_number ban_users = 21
permission_number view_analytics = 22
permission_number export_data = 23

abbrev pub same_permission : Permission → Permission → Bool
same_permission a b = permission_number a == permission_number b

pub record RolePermission : Type 0 where
  pub role : AdminRole
  pub permission : Permission

-- `AdminRoleEntity`
pub record AdminRoleRow : Type 0 where
  pub id : ℕ
  pub user_id : ℕ
  pub role : AdminRole
  pub assigned_by : ℕ
  pub assigned_at : ℕ
  pub expires_at : Option ℕ
  pub active : Bool
  pub notes : Option ℕ

-- The two tables, and the cache of the service, with an entry for a role that has a permission.
pub record Store : Type 0 where
  pub role_permissions : List RolePermission
  pub admin_roles : List AdminRoleRow
  pub cache : List (AdminRole × List Permission)
