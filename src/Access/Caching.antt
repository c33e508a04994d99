-- ===== src/Access/Caching.antt =====
-- What the permissions of a user are, by the rows of the two tables.
use renaissance_api.Common.{
  ℕ, ◌≡◌, refl, sym, ap, subst, ◌∙◌, Bool, true, false, not, Option, List, [], ◌∷◌, ◌++◌, ◌&&◌,
  ◌||◌, arith, ◌==◌, if◌then◌else◌, select_by, Bool-cases, inl, inr, ==→eq,
}
use renaissance_api.Access.{
  AdminRole, Permission, RolePermission, AdminRoleRow, Store, same_admin, same_permission,
  permission_number, admin_number, some_by,
}
use renaissance_api.Access.Permissions.{
  is_pair, add_permission, cache_permission, load_rows, load_permissions_to_cache,
  initialize_default_permissions, cached, is_live, is_role_of, add_all, collect,
  get_user_permissions, has_permission, ensure_defaults, get_default_permissions, assign_admin_role,
  revoke_role, add_permission_to_role, remove_permission_from_role,
}

abbrev pub has : Permission → List Permission → Bool
has p = some_by (same_permission p)

-- The cache holds just the permissions that the rows give to a role.
abbrev pub IsCached : Store → Type 0
IsCached s =
    (r : AdminRole) (p : Permission)
    → has p (cached r s.cache) ≡ some_by (is_pair r p) s.role_permissions

or_false : (x : Bool) → (x || false) ≡ x
or_false true = refl
or_false false = refl

or_turn : (x y z : Bool) → (x || (y || z)) ≡ ((y || x) || z)
or_turn true true z = refl
or_turn true false z = refl
or_turn false true z = refl
or_turn false false z = refl

or_assoc : (x y z : Bool) → (x || (y || z)) ≡ ((x || y) || z)
or_assoc true y z = refl
or_assoc false y z = refl

==-sym : (x y : ℕ) → (x == y) ≡ (y == x)
==-sym x y = ground arith

some_by-snoc {ℓ} :
    {A : Type ℓ} (p : A → Bool) (xs : List A) (x : A)
    → some_by p (xs ++ x ∷ []) ≡ (p x || some_by p xs)
some_by-snoc p [] x = refl
some_by-snoc p (y ∷ xs) x = ground (arith, some_by-snoc p xs x)

has-same :
    (p q : Permission) (ps : List Permission) → same_permission p q ≡ true → has p ps ≡ has q ps
has-same p q ps e =
    ap (λ n. some_by (λ x. n == permission_number x) ps)
      (==→eq (permission_number p) (permission_number q) e)

has-add_permission :
    (p q : Permission) (ps : List Permission)
    → has p (add_permission q ps) ≡ (same_permission p q || has p ps)
has-add_permission p q ps = elim (Bool-cases (same_permission p q)) [
  | inl e ↦ ground (arith, e, has-same p q ps e, some_by-snoc (same_permission p) ps q)
  | inr e ↦ ground (arith, e, some_by-snoc (same_permission p) ps q)
]

has-here :
    (b : Bool) (p q : Permission) (ps other : List Permission)
    → has p (if b then add_permission q ps else other)
      ≡ (b && same_permission p q || has p (if b then ps else other))
has-here true p q ps other = has-add_permission p q ps
has-here false p q ps other = refl

has-first :
    (b : Bool) (p q : Permission)
    → has p (if b then q ∷ [] else []) ≡ (b && same_permission p q || false)
has-first true p q = refl
has-first false p q = refl

has-there :
    (b c d : Bool) (p : Permission) (ps xs ys : List Permission)
    → (b ≡ true → c ≡ false)
    → has p xs ≡ (c && d || has p ys)
    → has p (if b then ps else xs) ≡ (c && d || has p (if b then ps else ys))
has-there true c d p ps xs ys h k = rw (h refl) refl
has-there false c d p ps xs ys h k = k

differ : (x y z : ℕ) → (x == y) ≡ false → (x == z) ≡ true → (y == z) ≡ false
differ x y z h k = ground arith

has-cache_permission :
    (r s : AdminRole) (p q : Permission) (cache : List (AdminRole × List Permission))
    → has p (cached r (cache_permission s q cache))
      ≡ (same_admin s r && same_permission p q || has p (cached r cache))
has-cache_permission r s p q [] = has-first (same_admin s r) p q
has-cache_permission r s p q ((t, ps) ∷ rest) = elim (Bool-cases (same_admin t s)) [
  | inl a ↦ rw a (
      has-here (same_admin t r) p q ps (cached r rest)
      ∙ ap (λ n. n == admin_number r && same_permission p q || has p (cached r ((t, ps) ∷ rest)))
          (==→eq (admin_number t) (admin_number s) a))
  | inr a ↦ rw a (
      has-there (same_admin t r) (same_admin s r) (same_permission p q) p ps
        (cached r (cache_permission s q rest)) (cached r rest)
        (differ (admin_number t) (admin_number s) (admin_number r) a)
        (has-cache_permission r s p q rest))
]

has-load_rows :
    (r : AdminRole) (p : Permission) (rows : List RolePermission)
    (cache : List (AdminRole × List Permission))
    → has p (cached r (load_rows rows cache))
      ≡ (some_by (is_pair r p) rows || has p (cached r cache))
unfolding load_rows
has-load_rows r p [] cache = refl
has-load_rows r p (row ∷ rows) cache =
    has-load_rows r p rows (cache_permission row.role row.permission cache)
    ∙ ap (λ b. some_by (is_pair r p) rows || b)
        (has-cache_permission r row.role p row.permission cache)
    ∙ or_turn (some_by (is_pair r p) rows)
        (same_admin row.role r && same_permission p row.permission) (has p (cached r cache))
    ∙ ap (λ b. (same_admin row.role r && b || some_by (is_pair r p) rows) || has p (cached r cache))
        (==-sym (permission_number p) (permission_number row.permission))

load-IsCached : (s : Store) → IsCached (load_permissions_to_cache s)
unfolding load_permissions_to_cache
load-IsCached s r p =
    has-load_rows r p s.role_permissions [] ∙ or_false (some_by (is_pair r p) s.role_permissions)

has-add_all :
    (p : Permission) (ps acc : List Permission) → has p (add_all ps acc) ≡ (has p ps || has p acc)
has-add_all p [] acc = refl
has-add_all p (q ∷ ps) acc =
    has-add_all p ps (add_permission q acc)
    ∙ ap (λ b. has p ps || b) (has-add_permission p q acc)
    ∙ or_turn (has p ps) (same_permission p q) (has p acc)

has-turn :
    (live b : Bool) (p : Permission) (ps acc : List Permission)
    → has p ps ≡ b
    → has p (if live then add_all ps acc else acc) ≡ (live && b || has p acc)
has-turn true b p ps acc h = has-add_all p ps acc ∙ ap (λ c. c || has p acc) h
has-turn false b p ps acc h = refl

-- The description by the rows: an active role of the user that is not expired has the permission.
abbrev pub grants : ℕ → ℕ → Permission → List RolePermission → AdminRoleRow → Bool
grants now u p rows row = is_role_of u row && (is_live now row && some_by (is_pair row.role p) rows)

has-collect :
    (now u : ℕ) (p : Permission) (s : Store) (rows : List AdminRoleRow) (acc : List Permission)
    → IsCached s
    → has p (collect now s.cache (select_by (is_role_of u) rows) acc)
      ≡ (some_by (grants now u p s.role_permissions) rows || has p acc)
unfolding collect
has-collect now u p s [] acc same = refl
has-collect now u p s (row ∷ rows) acc same = elim (Bool-cases (is_role_of u row)) [
  | inl e ↦ rw e (
      has-collect now u p s rows
        (if is_live now row then add_all (cached row.role s.cache) acc else acc) same
      ∙ ap (λ b. some_by (grants now u p s.role_permissions) rows || b)
          (has-turn (is_live now row) (some_by (is_pair row.role p) s.role_permissions) p
            (cached row.role s.cache) acc (same row.role p))
      ∙ or_turn (some_by (grants now u p s.role_permissions) rows)
          (is_live now row && some_by (is_pair row.role p) s.role_permissions) (has p acc))
  | inr e ↦ rw e (has-collect now u p s rows acc same)
]

pub data Call : Type 0 where
  add remove : AdminRole → Permission → Call
  assign : ℕ → ℕ → AdminRole → ℕ → Option ℕ → Option ℕ → Call
  revoke : ℕ → AdminRole → Call

pub perform : (List AdminRoleRow → ℕ) → Call → Store → Store
perform new_id (add r p) s = add_permission_to_role r p s
perform new_id (remove r p) s = remove_permission_from_role r p s
perform new_id (assign now u r by expires notes) s =
    assign_admin_role new_id now u r by expires notes s
perform new_id (revoke u r) s = revoke_role u r s

pub run : (List AdminRoleRow → ℕ) → List Call → Store → Store
run new_id [] s = s
run new_id (c ∷ cs) s = run new_id cs (perform new_id c s)

perform-IsCached :
    (new_id : List AdminRoleRow → ℕ) (c : Call) (s : Store)
    → IsCached s
    → IsCached (perform new_id c s)
unfolding perform add_permission_to_role remove_permission_from_role assign_admin_role revoke_role
perform-IsCached new_id (add r p) s same =
    let more = load_permissions_to_cache (record s {
      role_permissions = s.role_permissions ++ record { role = r; permission = p } ∷ [];
    }) in
    elim (Bool-cases (some_by (is_pair r p) s.role_permissions)) [
      | inl e ↦ subst (λ c. IsCached (if c then s else more)) (sym e) same
      | inr e ↦
          subst (λ c. IsCached (if c then s else more)) (sym e)
            (load-IsCached (record s {
              role_permissions = s.role_permissions ++ record { role = r; permission = p } ∷ [];
            }))
    ]
perform-IsCached new_id (remove r p) s same =
    load-IsCached
      (record s { role_permissions = select_by (λ row. not (is_pair r p row)) s.role_permissions })
perform-IsCached new_id (assign now u r by expires notes) s same = same
perform-IsCached new_id (revoke u r) s same = same

run-IsCached :
    (new_id : List AdminRoleRow → ℕ) (cs : List Call) (s : Store)
    → IsCached s
    → IsCached (run new_id cs s)
unfolding run
run-IsCached new_id [] s same = same
run-IsCached new_id (c ∷ cs) s same =
    run-IsCached new_id cs (perform new_id c s) (perform-IsCached new_id c s same)

initialized-IsCached : (s : Store) → IsCached (initialize_default_permissions s)
unfolding initialize_default_permissions
initialized-IsCached s =
    load-IsCached
      (record s { role_permissions = ensure_defaults get_default_permissions s.role_permissions })

-- Once the default permissions are there, and after any calls that add permissions to roles, take them
-- away, give roles and revoke them, a user has a permission, which the service reads from its cache, just
-- when a role of the user that is active and not expired has it in the table.
pub has_permission-Granted :
    (new_id : List AdminRoleRow → ℕ) (cs : List Call) (now u : ℕ) (p : Permission) (s : Store)
    → let s' = run new_id cs (initialize_default_permissions s) in
      has_permission now u p s' ≡ some_by (grants now u p s'.role_permissions) s'.admin_roles
unfolding has_permission get_user_permissions
has_permission-Granted new_id cs now u p s =
    let s' = run new_id cs (initialize_default_permissions s) in
    has-collect now u p s' s'.admin_roles []
      (run-IsCached new_id cs (initialize_default_permissions s) (initialized-IsCached s))
    ∙ or_false (some_by (grants now u p s'.role_permissions) s'.admin_roles)
