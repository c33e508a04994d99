-- ===== src/Access/Tests.antt =====
-- Calls of the services of roles and of permissions on small stores.
use renaissance_api.Common.{ℕ, ◌≡◌, refl, suc, true, false, none, some, List, [], ◌∷◌}
use renaissance_api.Common.Fresh.{max_key}
use renaissance_api.Access.{
  UserDb, user, moderator, admin, oracle, find_user, assign_role, some_by, Store, AdminRoleRow,
  risk_admin, suspend_users, ban_users, view_users,
}
use renaissance_api.Access.Permissions.{
  has_permission, initialize_default_permissions, remove_permission_from_role, get_role_permissions,
}
use renaissance_api.Access.Privileges.{assign, bulk_assign, revoke, run, IsNoHigher, run-IsNoHigher}
use renaissance_api.Access.Caching.{grants, has, has_permission-Granted}
use renaissance_api.Access.Caching

abbrev staff : UserDb
staff = record {
  users =
      record { id = 1; role = admin }
      ∷ record { id = 2; role = moderator }
      ∷ record { id = 3; role = user }
      ∷ [];
}

-- A user of the lowest role takes the role of the administrator away.
demoted : find_user 1 (assign_role 0 1 user 3 staff).1.users ≡ some (record { id = 1; role = user })
unfolding assign_role
demoted = refl

run-IsNoHigher_example : IsNoHigher 3 staff (
    run
      (assign 0 3 admin 2
        ∷ bulk_assign 0 (3 ∷ 1 ∷ []) moderator 3
        ∷ revoke 0 2 3
        ∷ assign 0 3 oracle 3
        ∷ [])
      staff)
run-IsNoHigher_example =
    run-IsNoHigher
      (assign 0 3 admin 2
        ∷ bulk_assign 0 (3 ∷ 1 ∷ []) moderator 3
        ∷ revoke 0 2 3
        ∷ assign 0 3 oracle 3
        ∷ [])
      3 staff (refl, (refl, (refl, (refl, tt))))

abbrev new_store : Store
new_store = record { role_permissions = []; admin_roles = []; cache = [] }

abbrev begun : Store
begun = initialize_default_permissions new_store

-- A default permission that is taken away comes back with the next start of the service.
back_again :
    let s' = remove_permission_from_role risk_admin view_users begun in
    (has view_users (get_role_permissions risk_admin s') ≡ false)
    × (has view_users (get_role_permissions risk_admin (initialize_default_permissions s')) ≡ true)
unfolding initialize_default_permissions remove_permission_from_role get_role_permissions
back_again = (refl, refl)

abbrev next_id : List AdminRoleRow → ℕ
next_id rows = suc (max_key (λ r. r.id) rows)

abbrev calls : List Caching.Call
calls =
    Caching.assign 10 7 risk_admin 1 (some 50) none
    ∷ Caching.add risk_admin ban_users
    ∷ Caching.remove risk_admin suspend_users
    ∷ []

has_permission-Granted_example :
    let s' = Caching.run next_id calls (initialize_default_permissions new_store) in
    has_permission 40 7 ban_users s'
    ≡ some_by (grants 40 7 ban_users s'.role_permissions) s'.admin_roles
has_permission-Granted_example = has_permission-Granted next_id calls 40 7 ban_users new_store
