-- ===== src/Access/Privileges.antt =====
-- Only administrators give privileged roles.
use renaissance_api.Common.{
  ℕ, ◌≡◌, ◌⊎◌, refl, sym, ap, ◌∙◌, Bool, true, false, not, Option, none, some, List, [], ◌∷◌, ◌&&◌,
  arith, ◌==◌, if◌then◌else◌, All, find_by-save_by, Bool-cases, inl, inr,
}
use renaissance_api.Common.Action.{Result, ◌>>◌, raise_if, missing-or, refused-or}
use renaissance_api.Access.{
  User, UserDb, UserRole, Error, RoleAssignmentResult, user, moderator, admin, backend_executor,
  oracle, emergency_pause, find_user, same_role, is_privileged_role, is_admin, assign_role,
  assign_by, assign_to, set_role, bulk_assign_role, revoke_privileged_role, revoke_from,
  assigning_user_not_found, only_admin_assigns, moderator_assigns_user, user_not_found,
  only_admin_revokes,
}

true-ne-false : true ≡ false → ⊥
true-ne-false h = cc

-- The roles of the contract's actions, which are all but the two of ordinary users.
abbrev pub is_contract_role : UserRole → Bool
is_contract_role user = false
is_contract_role moderator = false
is_contract_role _ = true

contract_role : (r : UserRole) → is_privileged_role r ≡ is_contract_role r
contract_role user = refl
contract_role moderator = refl
contract_role admin = refl
contract_role backend_executor = refl
contract_role oracle = refl
contract_role emergency_pause = refl

abbrev pub is_privileged : Option User → Bool
is_privileged none = false
is_privileged (some u) = is_contract_role u.role

-- A user is as before, or has no privileged role.
abbrev pub IsNoHigher : ℕ → UserDb → UserDb → Type 0
IsNoHigher i db db' =
    (find_user i db'.users ≡ find_user i db.users) ⊎ (is_privileged (find_user i db'.users) ≡ false)

IsNoHigher-trans : (i : ℕ) (a b c : UserDb) → IsNoHigher i a b → IsNoHigher i b c → IsNoHigher i a c
IsNoHigher-trans i a b c h (inr low) = inr low
IsNoHigher-trans i a b c (inl same) (inl same') = inl (same' ∙ same)
IsNoHigher-trans i a b c (inr low) (inl same') = inr (ap is_privileged same' ∙ low)

ordinary_role : (r : UserRole) → is_contract_role r ≡ false → same_role r admin ≡ false
ordinary_role user h = refl
ordinary_role moderator h = refl
ordinary_role admin h = h
ordinary_role backend_executor h = refl
ordinary_role oracle h = refl
ordinary_role emergency_pause h = refl

not_admin : (o : Option User) → is_privileged o ≡ false → is_admin o ≡ false
not_admin none h = refl
not_admin (some u) h = ordinary_role u.role h

stays_no_admin :
    (i : ℕ) (a b : UserDb)
    → IsNoHigher i a b
    → is_admin (find_user i a.users) ≡ false
    → is_admin (find_user i b.users) ≡ false
stays_no_admin i a b (inl same) h = ap is_admin same ∙ h
stays_no_admin i a b (inr low) h = not_admin (find_user i b.users) low

set_role-IsNoHigher :
    (i now target : ℕ) (role : UserRole) (by : ℕ) (u : User) (db : UserDb)
    → is_contract_role role ≡ false
    → IsNoHigher i db (set_role now target role by u db).1
set_role-IsNoHigher i now target role by u db low =
    let u' = record u { role = role } in
    let found = find_by-save_by (λ x. x.id) u' i db.users in
    elim (Bool-cases (u'.id == i)) [
      | inl e ↦
          inr (
            ap is_privileged (found ∙ ap (λ c. if c then some u' else find_user i db.users) e)
            ∙ low)
      | inr e ↦ inl (found ∙ ap (λ c. if c then some u' else find_user i db.users) e)
    ]

lowered :
    (privileged admin_role : Bool)
    → admin_role ≡ false
    → (privileged && not admin_role) ≡ false
    → privileged ≡ false
lowered privileged admin_role h k = ground (arith, h, k)

lower_role :
    (role r : UserRole)
    → same_role r admin ≡ false
    → (is_privileged_role role && not (same_role r admin)) ≡ false
    → is_contract_role role ≡ false
lower_role role r h k =
    cc (contract_role role, lowered (is_privileged_role role) (same_role r admin) h k)

assign_role-IsNoHigher :
    (i now target : ℕ) (role : UserRole) (by : ℕ) (db : UserDb)
    → is_admin (find_user by db.users) ≡ false
    → IsNoHigher i db (assign_role now target role by db).1
unfolding assign_role
assign_role-IsNoHigher i now target role by db plain =
    let P = λ (r : Result Error RoleAssignmentResult × UserDb). IsNoHigher i db r.1 in
    missing-or P db (find_user by db.users) assigning_user_not_found (assign_by now target role by)
      (λ gone. inl refl)
      λ assigning here.
        refused-or P db (is_privileged_role role && not (same_role assigning.role admin))
          only_admin_assigns
          (raise_if (same_role assigning.role moderator && not (same_role role user))
              moderator_assigns_user
            >> assign_to now target role by)
          (λ bad. inl refl)
          λ may.
            refused-or P db (same_role assigning.role moderator && not (same_role role user))
              moderator_assigns_user (assign_to now target role by) (λ bad. inl refl)
              λ may'.
                missing-or P db (find_user target db.users) user_not_found
                  (set_role now target role by) (λ gone. inl refl)
                  λ u there.
                    set_role-IsNoHigher i now target role by u db
                      (lower_role role assigning.role (sym (ap is_admin here) ∙ plain) may)

bulk_assign_role-IsNoHigher :
    (i now : ℕ) (targets : List ℕ) (role : UserRole) (by : ℕ) (db : UserDb)
    → is_admin (find_user by db.users) ≡ false
    → IsNoHigher i db (bulk_assign_role now targets role by db).1
unfolding bulk_assign_role
bulk_assign_role-IsNoHigher i now [] role by db plain = inl refl
bulk_assign_role-IsNoHigher i now (target ∷ targets) role by db plain =
    let db' = (assign_role now target role by db).1 in
    IsNoHigher-trans i db db' (bulk_assign_role now targets role by db').1
      (assign_role-IsNoHigher i now target role by db plain)
      (bulk_assign_role-IsNoHigher i now targets role by db'
        (stays_no_admin by db db' (assign_role-IsNoHigher by now target role by db plain) plain))

revoke-IsNoHigher :
    (i now target by : ℕ) (db : UserDb)
    → is_admin (find_user by db.users) ≡ false
    → IsNoHigher i db (revoke_privileged_role now target by db).1
unfolding revoke_privileged_role
revoke-IsNoHigher i now target by db plain =
    refused-or (λ (r : Result Error RoleAssignmentResult × UserDb). IsNoHigher i db r.1) db
      (not (is_admin (find_user by db.users))) only_admin_revokes (revoke_from now target by)
      (λ bad. inl refl) λ may. elim (true-ne-false (ap not (sym plain) ∙ may)) [ ]

-- The calls that change roles, each with its time and the user who calls.
pub data Call : Type 0 where
  assign : ℕ → ℕ → UserRole → ℕ → Call
  bulk_assign : ℕ → List ℕ → UserRole → ℕ → Call
  revoke : ℕ → ℕ → ℕ → Call

abbrev pub caller : Call → ℕ
caller (assign now target role by) = by
caller (bulk_assign now targets role by) = by
caller (revoke now target by) = by

pub perform : Call → UserDb → UserDb
perform (assign now target role by) db = (assign_role now target role by db).1
perform (bulk_assign now targets role by) db = (bulk_assign_role now targets role by db).1
perform (revoke now target by) db = (revoke_privileged_role now target by db).1

pub run : List Call → UserDb → UserDb
run [] db = db
run (c ∷ cs) db = run cs (perform c db)

perform-IsNoHigher :
    (c : Call) (i : ℕ) (db : UserDb)
    → is_admin (find_user (caller c) db.users) ≡ false
    → IsNoHigher i db (perform c db)
unfolding perform
perform-IsNoHigher (assign now target role by) i db plain =
    assign_role-IsNoHigher i now target role by db plain
perform-IsNoHigher (bulk_assign now targets role by) i db plain =
    bulk_assign_role-IsNoHigher i now targets role by db plain
perform-IsNoHigher (revoke now target by) i db plain = revoke-IsNoHigher i now target by db plain

abbrev pub AllPlain : List Call → UserDb → Type 0
AllPlain cs db = All (λ c. is_admin (find_user (caller c) db.users) ≡ false) cs

still_plain :
    (c : Call) (cs : List Call) (db : UserDb)
    → is_admin (find_user (caller c) db.users) ≡ false
    → AllPlain cs db
    → AllPlain cs (perform c db)
still_plain c [] db h all = tt
still_plain c (d ∷ cs) db h all = (
  stays_no_admin (caller d) db (perform c db) (perform-IsNoHigher c (caller d) db h) all.0,
  still_plain c cs db h all.1,
)

-- Calls that assign and revoke roles, of users none of whom is an administrator at the start, raise
-- nobody to one of the contract's roles, whatever roles they give one another: at the end each user is
-- as before or is an ordinary user or a moderator.
pub run-IsNoHigher :
    (cs : List Call) (i : ℕ) (db : UserDb) → AllPlain cs db → IsNoHigher i db (run cs db)
unfolding run
run-IsNoHigher [] i db all = inl refl
run-IsNoHigher (c ∷ cs) i db all =
    IsNoHigher-trans i db (perform c db) (run cs (perform c db)) (perform-IsNoHigher c i db all.0)
      (run-IsNoHigher cs i (perform c db) (still_plain c cs db all.0 all.1))
