-- ===== src/Access.antt =====
-- backend/src/auth/services/role-management.service.ts and the guards of backend/src/auth/guards that
-- read the role of a user; the administrators' permissions are in Access/Permissions.
mod Entities
pub mod Permissions
pub mod Privileges
pub mod Caching
mod Tests
pub use Entities.*
use renaissance_api.Common.{
  ℕ, Bool, true, false, not, Option, none, some, List, [], ◌∷◌, ◌&&◌, ◌||◌, ◌==◌, if◌then◌else◌,
  find_by, select_by, save_by,
}
use renaissance_api.Common.Action.{
  Result, ok, err, ◌>>=◌, ◌>>◌, pure, gets, or_raise, raise_if, modify,
}

pub record RoleAssignmentResult : Type 0 where
  pub success : Bool
  pub user_id : ℕ
  pub previous_role : Option UserRole
  pub new_role : UserRole
  pub assigned_by : ℕ
  pub assigned_at : ℕ

pub record RoleValidationResult : Type 0 where
  pub valid : Bool
  pub user_id : ℕ
  pub role : Option UserRole
  pub has_privileged_access : Bool

-- `some` of an array.
abbrev pub some_by {ℓ} : {A : Type ℓ} → (A → Bool) → List A → Bool
some_by p [] = false
some_by p (x ∷ xs) = p x || some_by p xs

-- `every` of an array.
abbrev pub every_by {ℓ} : {A : Type ℓ} → (A → Bool) → List A → Bool
every_by p [] = true
every_by p (x ∷ xs) = p x && every_by p xs

abbrev pub is_privileged_role : UserRole → Bool
is_privileged_role r =
    some_by (same_role r) (admin ∷ backend_executor ∷ oracle ∷ emergency_pause ∷ [])

abbrev pub save_user : User → RoleAction (Unit {0})
save_user u = modify λ db. record db { users = save_by (λ x. x.id) u db.users }

abbrev pub assignment : ℕ → ℕ → UserRole → ℕ → UserRole → RoleAssignmentResult
assignment now target role by previous = record {
  success = true;
  user_id = target;
  previous_role = some previous;
  new_role = role;
  assigned_by = by;
  assigned_at = now;
}

-- The end of `assignRole` and of `revokePrivilegedRole`: the target gets the role.
abbrev pub set_role : ℕ → ℕ → UserRole → ℕ → User → RoleAction RoleAssignmentResult
set_role now target role by u = do
  save_user (record u { role = role })
  pure (assignment now target role by u.role)

abbrev pub assign_to : ℕ → ℕ → UserRole → ℕ → RoleAction RoleAssignmentResult
assign_to now target role by = do
  u ← do or_raise (← gets (λ db. find_user target db.users)) user_not_found
  set_role now target role by u

abbrev pub assign_by : ℕ → ℕ → UserRole → ℕ → User → RoleAction RoleAssignmentResult
assign_by now target role by assigning = do
  raise_if (is_privileged_role role && not (same_role assigning.role admin)) only_admin_assigns
  raise_if (same_role assigning.role moderator && not (same_role role user)) moderator_assigns_user
  assign_to now target role by

unfoldable pub assign_role : ℕ → ℕ → UserRole → ℕ → RoleAction RoleAssignmentResult
assign_role now target role by = do
  assigning ← do or_raise (← gets (λ db. find_user by db.users)) assigning_user_not_found
  assign_by now target role by assigning

abbrev pub failed_assignment : ℕ → ℕ → UserRole → ℕ → RoleAssignmentResult
failed_assignment now target role by = record {
  success = false;
  user_id = target;
  previous_role = none;
  new_role = role;
  assigned_by = by;
  assigned_at = now;
}

-- What the loop of `bulkAssignRole` keeps of one call.
abbrev pub result_or_failed :
    ℕ → ℕ → UserRole → ℕ → Result Error RoleAssignmentResult → RoleAssignmentResult
result_or_failed now target role by (ok r) = r
result_or_failed now target role by (err e) = failed_assignment now target role by

unfoldable pub bulk_assign_role :
    ℕ → List ℕ → UserRole → ℕ → UserDb → List RoleAssignmentResult × UserDb
unfolding assign_role
bulk_assign_role now [] role by db = ([], db)
bulk_assign_role now (target ∷ targets) role by db =
    let (r, db') = assign_role now target role by db in
    let (rs, db'') = bulk_assign_role now targets role by db' in
    (result_or_failed now target role by r ∷ rs, db'')

-- Whether a user is there and is an administrator.
abbrev pub is_admin : Option User → Bool
is_admin none = false
is_admin (some u) = same_role u.role admin

abbrev pub revoke_from : ℕ → ℕ → ℕ → RoleAction RoleAssignmentResult
revoke_from now target by = do
  u ← do or_raise (← gets (λ db. find_user target db.users)) user_not_found
  set_role now target user by u

unfoldable pub revoke_privileged_role : ℕ → ℕ → ℕ → RoleAction RoleAssignmentResult
revoke_privileged_role now target by = do
  allowed ← gets (λ db. is_admin (find_user by db.users))
  raise_if (not allowed) only_admin_revokes
  revoke_from now target by

abbrev pub validated : ℕ → (UserRole → Bool) → Option User → RoleValidationResult
validated i test none = record {
  valid = false;
  user_id = i;
  role = none;
  has_privileged_access = false;
}
validated i test (some u) = record {
  valid = test u.role;
  user_id = i;
  role = some u.role;
  has_privileged_access = is_privileged_role u.role;
}

unfoldable pub validate_user_role : ℕ → UserRole → UserDb → RoleValidationResult
validate_user_role i role db = validated i (same_role role) (find_user i db.users)

unfoldable pub validate_user_has_any_role : ℕ → List UserRole → UserDb → RoleValidationResult
validate_user_has_any_role i roles db =
    validated i (λ r. some_by (same_role r) roles) (find_user i db.users)

unfoldable pub get_users_by_role : UserRole → UserDb → List User
get_users_by_role role db = select_by (λ u. same_role u.role role) db.users

unfoldable pub get_privileged_users : UserDb → List User
get_privileged_users db = select_by (λ u. is_privileged_role u.role) db.users

-- `RolesGuard.canActivate` for the roles of a handler and the user of a request.
unfoldable pub roles_guard : Option (List UserRole) → Option User → Result Error Bool
roles_guard none u = ok true
roles_guard (some roles) none = err not_authenticated
roles_guard (some roles) (some u) =
    if some_by (same_role u.role) roles then ok true else err insufficient_permissions

-- `EmergencyPauseGuard.canActivate`, for a handler that is an emergency action or is not.
unfoldable pub emergency_pause_guard : Bool → Option User → Result Error Bool
emergency_pause_guard false u = ok true
emergency_pause_guard true none = err not_authenticated
emergency_pause_guard true (some u) =
    if some_by (same_role u.role) (emergency_pause ∷ admin ∷ [])
    then ok true
    else err insufficient_permissions
