-- ===== src/Access/Permissions.antt =====
-- backend/src/auth/services/permission.service.ts, and the guards that call it.
use renaissance_api.Common.{
  ℕ, Bool, true, false, not, Option, none, some, List, [], ◌∷◌, ◌++◌, map, ◌&&◌, leb, ◌==◌,
  if◌then◌else◌, find_by, select_by, save_by,
}
use renaissance_api.Common.Action.{Result, ok, err}
use renaissance_api.Access.{
  AdminRole, Permission, RolePermission, AdminRoleRow, Store, Error, same_admin, same_permission,
  some_by, every_by, all_permissions, super_admin, financial_admin, risk_admin, support_admin,
  not_authenticated, insufficient_permissions, view_users, suspend_users, view_transactions,
  process_withdrawals, adjust_balances, view_financial_reports, view_risk_metrics, set_bet_limits,
  pause_in_emergency, override_limits, view_support_tickets, respond_to_tickets, view_user_activity,
  reset_user_password, view_audit_logs, moderate_content, view_analytics, export_data,
}

-- Text of a note; the empty text is `none`.
abbrev or_kept {ℓ} : {A : Type ℓ} → Option A → Option A → Option A
or_kept none old = old
or_kept (some a) old = some a

abbrev pub is_pair : AdminRole → Permission → RolePermission → Bool
is_pair r p row = same_admin row.role r && same_permission row.permission p

-- A `Set` as a list; `add` of what is there changes nothing.
abbrev pub add_permission : Permission → List Permission → List Permission
add_permission p ps = if some_by (same_permission p) ps then ps else ps ++ p ∷ []

-- One turn of the loop of `loadPermissionsToCache`.
abbrev pub cache_permission :
    AdminRole → Permission → List (AdminRole × List Permission) → List (AdminRole × List Permission)
cache_permission r p [] = (r, p ∷ []) ∷ []
cache_permission r p ((s, ps) ∷ rest) =
    if same_admin s r then (s, add_permission p ps) ∷ rest else (s, ps) ∷ cache_permission r p rest

unfoldable pub load_rows :
    List RolePermission → List (AdminRole × List Permission) → List (AdminRole × List Permission)
load_rows [] cache = cache
load_rows (row ∷ rows) cache = load_rows rows (cache_permission row.role row.permission cache)

unfoldable pub load_permissions_to_cache : Store → Store
unfolding load_rows
load_permissions_to_cache s = record s { cache = load_rows s.role_permissions [] }

unfoldable pub get_default_permissions : List (AdminRole × List Permission)
get_default_permissions =
    (super_admin, all_permissions)
    ∷ (
      financial_admin,
      view_transactions ∷ process_withdrawals ∷ adjust_balances ∷ view_financial_reports
          ∷ view_analytics ∷ export_data ∷ view_audit_logs ∷ [],
    )
    ∷ (
      risk_admin,
      view_risk_metrics ∷ set_bet_limits ∷ pause_in_emergency ∷ override_limits ∷ view_analytics
          ∷ view_audit_logs ∷ view_users ∷ suspend_users ∷ [],
    )
    ∷ (
      support_admin,
      view_support_tickets ∷ respond_to_tickets ∷ view_user_activity ∷ reset_user_password
          ∷ view_users ∷ moderate_content ∷ view_audit_logs ∷ [],
    )
    ∷ []

-- A row of the pair, unless there is one.
abbrev pub ensure_pair : AdminRole → Permission → List RolePermission → List RolePermission
ensure_pair r p rows =
    if some_by (is_pair r p) rows then rows else rows ++ record { role = r; permission = p } ∷ []

abbrev pub ensure_all : AdminRole → List Permission → List RolePermission → List RolePermission
ensure_all r [] rows = rows
ensure_all r (p ∷ ps) rows = ensure_all r ps (ensure_pair r p rows)

abbrev pub ensure_defaults :
    List (AdminRole × List Permission) → List RolePermission → List RolePermission
ensure_defaults [] rows = rows
ensure_defaults ((r, ps) ∷ rest) rows = ensure_defaults rest (ensure_all r ps rows)

unfoldable pub initialize_default_permissions : Store → Store
unfolding get_default_permissions load_permissions_to_cache
initialize_default_permissions s =
    load_permissions_to_cache
      (record s { role_permissions = ensure_defaults get_default_permissions s.role_permissions })

-- `permissionCache.get`
abbrev pub cached : AdminRole → List (AdminRole × List Permission) → List Permission
cached r [] = []
cached r ((s, ps) ∷ rest) = if same_admin s r then ps else cached r rest

-- `!expiresAt || now <= expiresAt`
abbrev pub is_live : ℕ → AdminRoleRow → Bool
is_live now row = elim row.expires_at [ none ↦ true | some t ↦ leb now t ]

abbrev pub is_role_of : ℕ → AdminRoleRow → Bool
is_role_of u row = row.user_id == u && row.active

-- The loop of `getUserPermissions`.
abbrev pub add_all : List Permission → List Permission → List Permission
add_all [] acc = acc
add_all (p ∷ ps) acc = add_all ps (add_permission p acc)

unfoldable pub collect :
    ℕ → List (AdminRole × List Permission) → List AdminRoleRow → List Permission → List Permission
collect now cache [] acc = acc
collect now cache (row ∷ rows) acc =
    collect now cache rows (if is_live now row then add_all (cached row.role cache) acc else acc)

unfoldable pub get_user_permissions : ℕ → ℕ → Store → List Permission
unfolding collect
get_user_permissions now u s = collect now s.cache (select_by (is_role_of u) s.admin_roles) []

unfoldable pub has_permission : ℕ → ℕ → Permission → Store → Bool
unfolding get_user_permissions
has_permission now u p s = some_by (same_permission p) (get_user_permissions now u s)

unfoldable pub has_any_permission : ℕ → ℕ → List Permission → Store → Bool
unfolding get_user_permissions
has_any_permission now u ps s =
    some_by (λ p. some_by (same_permission p) (get_user_permissions now u s)) ps

unfoldable pub has_all_permissions : ℕ → ℕ → List Permission → Store → Bool
unfolding get_user_permissions
has_all_permissions now u ps s =
    every_by (λ p. some_by (same_permission p) (get_user_permissions now u s)) ps

unfoldable pub get_user_roles : ℕ → ℕ → Store → List AdminRole
get_user_roles now u s =
    map (λ r. r.role) (select_by (is_live now) (select_by (is_role_of u) s.admin_roles))

abbrev pub is_grant : ℕ → AdminRole → AdminRoleRow → Bool
is_grant u r row = row.user_id == u && same_admin row.role r

-- A row that is there is made active again; `save` leaves out an expiry that is not given.
abbrev pub granted :
    ℕ → ℕ → ℕ → AdminRole → ℕ → Option ℕ → Option ℕ → Option AdminRoleRow → AdminRoleRow
granted i now u r by expires notes none = record {
  id = i;
  user_id = u;
  role = r;
  assigned_by = by;
  assigned_at = now;
  expires_at = expires;
  active = true;
  notes = notes;
}
granted i now u r by expires notes (some row) = record row {
  active = true;
  assigned_by = by;
  assigned_at = now;
  expires_at = or_kept expires row.expires_at;
  notes = or_kept notes row.notes;
}

unfoldable pub assign_admin_role :
    (List AdminRoleRow → ℕ) → ℕ → ℕ → AdminRole → ℕ → Option ℕ → Option ℕ → Store → Store
assign_admin_role new_id now u r by expires notes s = record s {
  admin_roles =
      save_by (λ x. x.id)
        (granted (new_id s.admin_roles) now u r by expires notes
          (find_by (is_grant u r) s.admin_roles))
        s.admin_roles;
}

abbrev pub revoked : ℕ → AdminRole → AdminRoleRow → AdminRoleRow
revoked u r row = if is_grant u r row then record row { active = false } else row

unfoldable pub revoke_role : ℕ → AdminRole → Store → Store
revoke_role u r s = record s { admin_roles = map (revoked u r) s.admin_roles }

unfoldable pub get_role_permissions : AdminRole → Store → List Permission
get_role_permissions r s = cached r s.cache

unfoldable pub add_permission_to_role : AdminRole → Permission → Store → Store
unfolding load_permissions_to_cache
add_permission_to_role r p s =
    if some_by (is_pair r p) s.role_permissions
    then s
    else load_permissions_to_cache (record s {
      role_permissions = s.role_permissions ++ record { role = r; permission = p } ∷ [];
    })

unfoldable pub remove_permission_from_role : AdminRole → Permission → Store → Store
unfolding load_permissions_to_cache
remove_permission_from_role r p s =
    load_permissions_to_cache
      (record s { role_permissions = select_by (λ row. not (is_pair r p row)) s.role_permissions })

-- `PermissionGuard.canActivate` for what a handler requires and the id of a request's user.
unfoldable pub permission_guard : ℕ → List Permission → Bool → Option ℕ → Store → Result Error Bool
unfolding has_all_permissions has_any_permission
permission_guard now [] require_all u s = ok true
permission_guard now (p ∷ ps) require_all none s = err not_authenticated
permission_guard now (p ∷ ps) require_all (some u) s =
    let allowed =
      if require_all
      then has_all_permissions now u (p ∷ ps) s
      else has_any_permission now u (p ∷ ps) s in
    if allowed then ok true else err insufficient_permissions

-- `AdminRoleGuard.canActivate`
unfoldable pub admin_role_guard : ℕ → List AdminRole → Option ℕ → Store → Result Error Bool
unfolding get_user_roles
admin_role_guard now [] u s = ok true
admin_role_guard now (r ∷ rs) none s = err not_authenticated
admin_role_guard now (r ∷ rs) (some u) s =
    if some_by (λ x. some_by (same_admin x) (get_user_roles now u s)) (r ∷ rs)
    then ok true
    else err insufficient_permissions
