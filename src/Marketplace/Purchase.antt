-- ===== src/Marketplace/Purchase.antt =====
-- A purchase on every branch.
use renaissance_api.Common.{ℕ, ◌≡◌, refl, true, false, some, map, ◌==◌, subst}
use renaissance_api.Common.Int.{pos, ltb_ℤ}
use renaissance_api.Common.Action.{
  Result, ok, err, missing-or, refused-or, ◌>>=◌, ◌>>◌, raise_if, in_transaction, pure, ran,
}
use renaissance_api.Marketplace.{
  Market, NftListing, User, Error, expired, listing_not_found, user_not_found, own_listing,
  has_expired, insufficient_balance, is_active, is_past, find_user, find_active, find_listing,
  closed_offer, calculate_fees, sold_listing, buy_nft, buy_found, sell, fetch_user, expire_offers,
  MarketAction,
}
use renaissance_api.Marketplace.Sales.{
  IsSale, sell_run, sold_db-IsSale, find_active_sound, not_there,
}

-- What lets `buyer_id` buy the listing `i`.
pub record CanBuy (now i buyer_id : ℕ) (db : Market) (l : NftListing) (u : User) : Type 0 where
  pub stored : find_listing i db.listings ≡ some l
  pub is_open : is_active l.status ≡ true
  pub apart : (l.seller_id == buyer_id) ≡ false
  pub in_time : is_past now l.expires_at ≡ false
  pub known : find_user buyer_id db.users ≡ some u
  pub covered : ltb_ℤ u.wallet_balance (pos l.price) ≡ false

abbrev pub Buys : ℕ → ℕ → ℕ → Market → Result Error NftListing × Market → Type 0
Buys now i buyer_id db (err e, db') =
    (db' ≡ db) × ((l : NftListing) (u : User) → ¬ CanBuy now i buyer_id db l u)
Buys now i buyer_id db (ok sold, db') =
    (l : NftListing) × (u : User) × CanBuy now i buyer_id db l u
    × (sold ≡ sold_listing buyer_id (calculate_fees l.price) l)
    × IsSale l l.price buyer_id u db db'
    × (db'.offers ≡ map (closed_offer i (λ o. false) expired) db.offers)

rolled_back :
    (now i buyer_id : ℕ) (db : Market) (r : Result Error NftListing × Market)
    → Buys now i buyer_id db r
    → Buys now i buyer_id db (in_transaction {S = Market} (λ _. r) db)
rolled_back now i buyer_id db (ok sold, db') b = b
rolled_back now i buyer_id db (err e, db') (same, refused) = (refl, refused)

module _ (now i buyer_id : ℕ) (db : Market) where
  bought :
      (l : NftListing) (u : User)
      → CanBuy now i buyer_id db l u
      → Buys now i buyer_id db ((sell l l.price buyer_id u >>= λ s. expire_offers i >> pure s) db)
  bought l u can =
      ran (Buys now i buyer_id db) (sell l l.price buyer_id u) (λ s. expire_offers i >> pure s) db _
        _ (sell_run l l.price buyer_id u db)
        (
          l,
          u,
          can,
          refl,
          sold_db-IsSale l l.price buyer_id u (map (closed_offer i (λ o. false) expired) db.offers)
              db can.known,
          refl,
        )

  -- A refusal for want of one condition.
  refused :
      (l : NftListing) (e : Error)
      → find_listing i db.listings ≡ some l
      → ((u : User) → ¬ CanBuy now i buyer_id db l u)
      → Buys now i buyer_id db (err e, db)
  refused l e stored never =
      (refl, λ l' u can. never u (subst (λ x. CanBuy now i buyer_id db x u) (cc) can))

  abbrev checked : NftListing → User → MarketAction NftListing
  checked l u = do
    raise_if (ltb_ℤ u.wallet_balance (pos l.price)) insufficient_balance
    s ← sell l l.price buyer_id u
    expire_offers i
    pure s

  buy_found-Buys :
      (l : NftListing)
      → find_listing i db.listings ≡ some l
      → is_active l.status ≡ true
      → Buys now i buyer_id db (buy_found now i buyer_id l db)
  buy_found-Buys l stored is_open =
      refused-or (Buys now i buyer_id db) db (l.seller_id == buyer_id) own_listing
        (raise_if (is_past now l.expires_at) has_expired >> (fetch_user buyer_id >>= checked l))
        (λ own. refused l own_listing stored λ u can. cc (can.apart))
        λ apart.
          refused-or (Buys now i buyer_id db) db (is_past now l.expires_at) has_expired
            (fetch_user buyer_id >>= checked l)
            (λ late. refused l has_expired stored λ u can. cc (can.in_time))
            λ in_time.
              missing-or (Buys now i buyer_id db) db (find_user buyer_id db.users) user_not_found
                (checked l)
                (λ unknown. refused l user_not_found stored λ u can. cc (unknown, can.known))
                λ u known.
                  refused-or (Buys now i buyer_id db) db (ltb_ℤ u.wallet_balance (pos l.price))
                    insufficient_balance
                    (sell l l.price buyer_id u >>= λ s. expire_offers i >> pure s)
                    (λ poor.
                      refused l insufficient_balance stored
                        λ u' can. cc (poor, known, can.known, can.covered))
                    λ covered. bought l u (record {
                      stored = stored;
                      is_open = is_open;
                      apart = apart;
                      in_time = in_time;
                      known = known;
                      covered = covered;
                    })

pub buy_nft-Buys :
    (now i buyer_id : ℕ) (db : Market) → Buys now i buyer_id db (buy_nft now i buyer_id db)
unfolding buy_nft
buy_nft-Buys now i buyer_id db = rolled_back now i buyer_id db _ (
    missing-or (Buys now i buyer_id db) db (find_active i db.listings) listing_not_found
      (buy_found now i buyer_id)
      (λ gone. (refl, λ l u can. not_there i l db.listings gone can.stored can.is_open))
      λ l here.
        let (stored, is_open) = find_active_sound i l db.listings here in
        buy_found-Buys now i buyer_id db l stored is_open)
