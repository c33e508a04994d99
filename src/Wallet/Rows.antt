-- ===== src/Wallet/Rows.antt =====
-- The rows of `balances` under `save`: what the wallet's proofs need of the two tables.
use renaissance_api.Common.{
  ℕ, ◌≡◌, refl, ◌≢◌, none, some, List, [], ◌∷◌, arith, ◌==◌, if◌then◌else◌, save_by, UniqueBy,
  find_by_sound, ==→eq,
}
use renaissance_api.Wallet.{Balance, find_user, find_id}

abbrev pub save : Balance → List Balance → List Balance
save = save_by (λ x. x.id)

abbrev pub UniqueIds : List Balance → Type 0
UniqueIds = UniqueBy (λ x. x.id)

pub user-find_user :
    (u : ℕ) (rows : List Balance) (b : Balance) → find_user u rows ≡ some b → b.user_id ≡ u
user-find_user u rows b h = ==→eq b.user_id u (find_by_sound (λ x. x.user_id == u) rows b h)

-- A row that is found by its user is found by its id.
pub find_id-of-find_user :
    (u : ℕ) (rows : List Balance) (b : Balance)
    → UniqueIds rows
    → find_user u rows ≡ some b
    → find_id b.id rows ≡ some b
find_id-of-find_user u [] b v h = cc
find_id-of-find_user u (x ∷ xs) b v h = ground (arith, find_id-of-find_user u xs b v.1)

-- Two rows that are found by two users have two ids.
pub id-ne :
    (u w : ℕ) (rows : List Balance) (b c : Balance)
    → UniqueIds rows
    → find_user u rows ≡ some b
    → find_user w rows ≡ some c
    → u ≢ w
    → b.id ≢ c.id
id-ne u w rows b c v hb hc ne = ground (
  arith,
  find_id-of-find_user u rows b v hb,
  find_id-of-find_user w rows c v hc,
  user-find_user u rows b hb,
  user-find_user w rows c hc,
)

-- A row that replaces the one found for `u` is found for `u`, and changes no other lookup.
pub find_user-save :
    (u w : ℕ) (b b' : Balance) (rows : List Balance)
    → UniqueIds rows
    → find_user u rows ≡ some b
    → b'.id ≡ b.id
    → b'.user_id ≡ u
    → find_user w (save b' rows) ≡ (if u == w then some b' else find_user w rows)
find_user-save u w b b' [] v h i o = cc
find_user-save u w b b' (x ∷ xs) v h i o =
    ground (arith, find_user-save u w b b' xs v.1, find_id-of-find_user u xs b v.1)

pub find_id-save :
    (i : ℕ) (b' : Balance) (rows : List Balance)
    → find_id i (save b' rows) ≡ (if b'.id == i then some b' else find_id i rows)
find_id-save i b' [] = refl
find_id-save i b' (x ∷ xs) = ground (arith, find_id-save i b' xs)

pub save-UniqueIds : (b : Balance) (rows : List Balance) → UniqueIds rows → UniqueIds (save b rows)
save-UniqueIds b [] v = (refl, tt)
save-UniqueIds b (x ∷ xs) v = ground (arith, save-UniqueIds b xs v.1, find_id-save x.id b xs)

-- A row with a new id for a user who has none.
pub find_user-save_new :
    (u w : ℕ) (b' : Balance) (rows : List Balance)
    → find_user u rows ≡ none
    → find_id b'.id rows ≡ none
    → b'.user_id ≡ u
    → find_user w (save b' rows) ≡ (if u == w then some b' else find_user w rows)
find_user-save_new u w b' [] h i o = ground arith
find_user-save_new u w b' (x ∷ xs) h i o = ground (arith, find_user-save_new u w b' xs)
