-- ===== src/Marketplace/Acceptance.antt =====
-- The acceptance of an offer on every branch.
use renaissance_api.Common.{
  ℕ, ◌≡◌, refl, ap, true, false, not, none, some, List, arith, map, ◌==◌, Option-cases, inl, inr,
  keep, save_by,
}
use renaissance_api.Common.Int.{pos, ltb_ℤ}
use renaissance_api.Common.Action.{
  Result, ok, err, missing-or, refused-or, ran, ◌>>=◌, ◌>>◌, raise_if, pure, in_transaction,
}
use renaissance_api.Marketplace.{
  Market, NftListing, NftOffer, User, Error, MarketAction, accepted, rejected, offer_not_found,
  not_seller, not_active, has_expired, user_not_found, insufficient_balance, is_active, is_pending,
  is_past, find_user, find_listing, find_offer, find_pending, closed_offer, accept_offer,
  accept_found, sell, fetch_user, save_offer, reject_others,
}
use renaissance_api.Marketplace.Sales.{IsSale, sell_run, sold_db-IsSale}

-- What lets `seller` accept the offer `i`.
pub record CanAccept (now i seller : ℕ) (db : Market) (o : NftOffer) (l : NftListing) (u : User)
    : Type 0 where
  pub stored : find_offer i db.offers ≡ some o
  pub is_open : is_pending o.status ≡ true
  pub listed : find_listing o.listing_id db.listings ≡ some l
  pub own : (l.seller_id == seller) ≡ true
  pub live : is_active l.status ≡ true
  pub in_time : is_past now o.expires_at ≡ false
  pub known : find_user o.bidder_id db.users ≡ some u
  pub covered : ltb_ℤ u.wallet_balance (pos o.amount) ≡ false

-- The offers once `o` is accepted: the others on its listing that were pending are rejected.
abbrev pub decided : NftOffer → ℕ → ℕ → List NftOffer → List NftOffer
decided o i listing os =
    map (closed_offer listing (λ x. x.id == i) rejected)
      (save_by (λ x. x.id) (record o { status = accepted }) os)

abbrev pub Accepts : ℕ → ℕ → ℕ → Market → Result Error NftOffer × Market → Type 0
Accepts now i seller db (err e, db') =
    (db' ≡ db) × ((o : NftOffer) (l : NftListing) (u : User) → ¬ CanAccept now i seller db o l u)
Accepts now i seller db (ok taken, db') =
    (o : NftOffer) × (l : NftListing) × (u : User) × CanAccept now i seller db o l u
    × (taken ≡ record o { status = accepted })
    × IsSale l o.amount o.bidder_id u db db'
    × (db'.offers ≡ decided o i l.id db.offers)

rolled_back :
    (now i seller : ℕ) (db : Market) (r : Result Error NftOffer × Market)
    → Accepts now i seller db r
    → Accepts now i seller db (in_transaction {S = Market} (λ _. r) db)
rolled_back now i seller db (ok taken, db') b = b
rolled_back now i seller db (err e, db') (same, refused) = (refl, refused)

find_pending_sound :
    (i : ℕ) (o : NftOffer) (rows : List NftOffer)
    → find_pending i rows ≡ some o
    → (find_offer i rows ≡ some o) × (is_pending o.status ≡ true)
find_pending_sound i o rows h = elim (Option-cases (find_offer i rows)) [
  | inl e ↦ cc (ap (keep (λ x. x.id) (λ x. is_pending x.status)) e)
  | inr (x, e) ↦ ground (arith, e)
]

module _ (now i seller : ℕ) (db : Market) where
  abbrev closing : NftListing → NftOffer → NftListing → MarketAction NftOffer
  closing l o x = do o' ← save_offer (record o { status = accepted }); reject_others l.id i; pure o'

  taken :
      (o : NftOffer) (l : NftListing) (u : User)
      → CanAccept now i seller db o l u
      → Accepts now i seller db ((sell l o.amount o.bidder_id u >>= closing l o) db)
  taken o l u can =
      ran (Accepts now i seller db) (sell l o.amount o.bidder_id u) (closing l o) db _ _
        (sell_run l o.amount o.bidder_id u db)
        (
          o,
          l,
          u,
          can,
          refl,
          sold_db-IsSale l o.amount o.bidder_id u (decided o i l.id db.offers) db can.known,
          refl,
        )

  module _ (o : NftOffer) (stored : find_offer i db.offers ≡ some o)
      (is_open : is_pending o.status ≡ true) where
    -- A refusal for want of one condition.
    refused :
        (l : NftListing) (e : Error)
        → find_listing o.listing_id db.listings ≡ some l
        → ((u : User) → ¬ CanAccept now i seller db o l u)
        → Accepts now i seller db (err e, db)
    refused l e listed never = (
      refl,
      λ o' l' u can. never u (record {
        stored = stored;
        is_open = is_open;
        listed = listed;
        own = cc (can.own, can.stored, can.listed, stored, listed);
        live = cc (can.live, can.stored, can.listed, stored, listed);
        in_time = cc (can.in_time, can.stored, stored);
        known = cc (can.known, can.stored, stored);
        covered = cc (can.covered, can.stored, stored);
      }),
    )

    abbrev checked : NftListing → User → MarketAction NftOffer
    checked l u = do
      raise_if (ltb_ℤ u.wallet_balance (pos o.amount)) insufficient_balance
      x ← sell l o.amount o.bidder_id u
      closing l o x

    own_listing-Accepts :
        (l : NftListing)
        → find_listing o.listing_id db.listings ≡ some l
        → Accepts now i seller db (
            (raise_if (not (l.seller_id == seller)) not_seller
                >> (raise_if (not (is_active l.status)) not_active
                    >> (raise_if (is_past now o.expires_at) has_expired
                        >> (fetch_user o.bidder_id >>= checked l))))
              db)
    own_listing-Accepts l listed =
        let P = Accepts now i seller db in
        let k = fetch_user o.bidder_id >>= checked l in
        let in_time = raise_if (is_past now o.expires_at) has_expired >> k in
        refused-or P db (not (l.seller_id == seller)) not_seller
          (raise_if (not (is_active l.status)) not_active >> in_time)
          (λ other. refused l not_seller listed λ u can. ground (arith, can.own, other))
          λ own.
            refused-or P db (not (is_active l.status)) not_active in_time
              (λ closed. refused l not_active listed λ u can. ground (arith, can.live, closed))
              λ live.
                refused-or P db (is_past now o.expires_at) has_expired k
                  (λ late. refused l has_expired listed λ u can. cc (can.in_time, late))
                  λ in_time.
                    missing-or P db (find_user o.bidder_id db.users) user_not_found (checked l)
                      (λ unknown. refused l user_not_found listed λ u can. cc (unknown, can.known))
                      λ u known.
                        refused-or P db (ltb_ℤ u.wallet_balance (pos o.amount)) insufficient_balance
                          (sell l o.amount o.bidder_id u >>= closing l o)
                          (λ poor.
                            refused l insufficient_balance listed
                              λ u' can. cc (poor, known, can.known, can.covered))
                          λ covered. taken o l u (record {
                            stored = stored;
                            is_open = is_open;
                            listed = listed;
                            own = ground (arith, own);
                            live = ground (arith, live);
                            in_time = in_time;
                            known = known;
                            covered = covered;
                          })

    accept_found-Accepts : Accepts now i seller db (accept_found now i seller o db)
    accept_found-Accepts =
        let P = Accepts now i seller db in
        missing-or P db (find_listing o.listing_id db.listings) not_seller
          (λ l.
            raise_if (not (l.seller_id == seller)) not_seller
            >> (raise_if (not (is_active l.status)) not_active
                >> (raise_if (is_past now o.expires_at) has_expired
                    >> (fetch_user o.bidder_id >>= checked l))))
          (λ gone. (refl, λ o' l u can. cc (gone, can.listed, can.stored, stored)))
          (own_listing-Accepts)

not_there :
    (i : ℕ) (o : NftOffer) (rows : List NftOffer)
    → find_pending i rows ≡ none
    → find_offer i rows ≡ some o
    → is_pending o.status ≡ true
    → ⊥
not_there i o rows gone stored is_open = ground arith

pub accept_offer-Accepts :
    (now i seller : ℕ) (db : Market) → Accepts now i seller db (accept_offer now i seller db)
unfolding accept_offer
accept_offer-Accepts now i seller db = rolled_back now i seller db _ (
    missing-or (Accepts now i seller db) db (find_pending i db.offers) offer_not_found
      (accept_found now i seller)
      (λ gone. (refl, λ o l u can. not_there i o db.offers gone can.stored can.is_open))
      λ o here.
        let (stored, is_open) = find_pending_sound i o db.offers here in
        accept_found-Accepts now i seller db o stored is_open)
