-- ===== src/Marketplace/Sales.antt =====
-- What a sale leaves: the balances, the owner of the card and the listing.
use renaissance_api.Common.{
  ℕ, ◌≡◌, ap, true, Option, none, some, List, arith, ◌==◌, ==→eq, if◌then◌else◌, Option-cases,
  find_by_sound, find_by-save_by, save_by, inl, inr, keep,
}
use renaissance_api.Common.Action.{ok}
use renaissance_api.Marketplace.{
  Market, NftListing, User, PlayerCard, find_user, find_nft, find_listing, debited, credited, sell,
  calculate_fees, sold_listing, NftOffer, find_active, is_active,
}

abbrev pub with_credit : ℕ → Option User → List User → List User
with_credit proceeds none rows = rows
with_credit proceeds (some u) rows = save_by (λ x. x.id) (credited proceeds u) rows

abbrev pub with_owner : ℕ → Option PlayerCard → List PlayerCard → List PlayerCard
with_owner owner none rows = rows
with_owner owner (some n) rows = save_by (λ x. x.id) (record n { user_id = owner }) rows

abbrev pub owned_by : ℕ → Option PlayerCard → Option PlayerCard
owned_by owner none = none
owned_by owner (some n) = some (record n { user_id = owner })

abbrev pub paid_to : ℕ → Option User → Option User
paid_to proceeds none = none
paid_to proceeds (some u) = some (credited proceeds u)

abbrev pub debited_rows : ℕ → User → List User → List User
debited_rows price buyer rows = save_by (λ x. x.id) (debited price buyer) rows

-- The store after a sale.
abbrev pub sold_db : NftListing → ℕ → ℕ → User → Market → Market
sold_db l price buyer_id buyer db =
    let rows = debited_rows price buyer db.users in
    record db {
      users = with_credit (calculate_fees price).seller_proceeds (find_user l.seller_id rows) rows;
      nfts = with_owner buyer_id (find_nft l.nft_id db.nfts) db.nfts;
      listings = save_by (λ x. x.id) (sold_listing buyer_id (calculate_fees price) l) db.listings;
    }

pub sell_run :
    (l : NftListing) (price buyer_id : ℕ) (buyer : User) (db : Market)
    → sell l price buyer_id buyer db
      ≡ (ok (sold_listing buyer_id (calculate_fees price) l), sold_db l price buyer_id buyer db)
sell_run l price buyer_id buyer db =
    elim (Option-cases (find_user l.seller_id (debited_rows price buyer db.users))) [
      | inl s ↦ elim (Option-cases (find_nft l.nft_id db.nfts)) [
        | inl n ↦ ground (arith, s, n)
        | inr (n, e) ↦ ground (arith, s, e)
      ]
      | inr (u, s) ↦ elim (Option-cases (find_nft l.nft_id db.nfts)) [
        | inl n ↦ ground (arith, s, n)
        | inr (n, e) ↦ ground (arith, s, e)
      ]
    ]

abbrev pub with_debit : ℕ → ℕ → User → Market → ℕ → Option User
with_debit price buyer_id buyer db v =
    if buyer_id == v then some (debited price buyer) else find_user v db.users

-- The sale of the listing `l` at `price` to the user `buyer`: the price leaves the buyer's balance and
-- the proceeds come to the seller's, the card is the buyer's, the listing is sold, and nothing else of
-- the users, the cards and the listings changes.
pub record IsSale (l : NftListing) (price buyer_id : ℕ) (buyer : User) (db db' : Market)
    : Type 0 where
  pub balances :
      (v : ℕ)
      → find_user v db'.users ≡ (
          if l.seller_id == v
          then paid_to (calculate_fees price).seller_proceeds (with_debit price buyer_id buyer db v)
          else with_debit price buyer_id buyer db v)
  pub owners :
      (n : ℕ)
      → find_nft n db'.nfts
        ≡ (if l.nft_id == n then owned_by buyer_id (find_nft n db.nfts) else find_nft n db.nfts)
  pub listed :
      (j : ℕ)
      → find_listing j db'.listings ≡ (
          if l.id == j
          then some (sold_listing buyer_id (calculate_fees price) l)
          else find_listing j db.listings)

find_user-with_credit :
    (p s v : ℕ) (rows : List User)
    → find_user v (with_credit p (find_user s rows) rows)
      ≡ (if s == v then paid_to p (find_user v rows) else find_user v rows)
find_user-with_credit p s v rows = elim (Option-cases (find_user s rows)) [
  | inl e ↦ ground (arith, e, ==→eq s v)
  | inr (u, e) ↦ ground (
    arith,
    e,
    find_by_sound (λ x. x.id == s) rows u e,
    find_by-save_by (λ x. x.id) (credited p u) v rows,
  )
]

pub find_nft-with_owner :
    (owner s n : ℕ) (rows : List PlayerCard)
    → find_nft n (with_owner owner (find_nft s rows) rows)
      ≡ (if s == n then owned_by owner (find_nft n rows) else find_nft n rows)
find_nft-with_owner owner s n rows = elim (Option-cases (find_nft s rows)) [
  | inl e ↦ ground (arith, e, ==→eq s n)
  | inr (c, e) ↦ ground (
    arith,
    e,
    find_by_sound (λ x. x.id == s) rows c e,
    find_by-save_by (λ x. x.id) (record c { user_id = owner }) n rows,
  )
]

pub sold_db-IsSale :
    (l : NftListing) (price buyer_id : ℕ) (buyer : User) (os : List NftOffer) (db : Market)
    → find_user buyer_id db.users ≡ some buyer
    → IsSale l price buyer_id buyer db (record (sold_db l price buyer_id buyer db) { offers = os })
sold_db-IsSale l price buyer_id buyer os db found = record {
  balances = λ v. ground (
    arith,
    find_by_sound (λ x. x.id == buyer_id) db.users buyer found,
    find_user-with_credit (calculate_fees price).seller_proceeds l.seller_id v
        (debited_rows price buyer db.users),
    find_by-save_by (λ x. x.id) (debited price buyer) v db.users,
  );
  owners = λ n. find_nft-with_owner buyer_id l.nft_id n db.nfts;
  listed = λ j.
      find_by-save_by (λ x. x.id) (sold_listing buyer_id (calculate_fees price) l) j db.listings;
}

pub find_active_sound :
    (i : ℕ) (l : NftListing) (rows : List NftListing)
    → find_active i rows ≡ some l
    → (find_listing i rows ≡ some l) × (is_active l.status ≡ true)
find_active_sound i l rows h = elim (Option-cases (find_listing i rows)) [
  | inl e ↦ cc (ap (keep (λ x. x.id) (λ x. is_active x.status)) e)
  | inr (x, e) ↦ ground (arith, e)
]

pub not_there :
    (i : ℕ) (l : NftListing) (rows : List NftListing)
    → find_active i rows ≡ none
    → find_listing i rows ≡ some l
    → is_active l.status ≡ true
    → ⊥
not_there i l rows gone stored is_open = ground arith
