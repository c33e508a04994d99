-- ===== src/Marketplace.antt =====
-- backend/src/nft/nft-marketplace.service.ts: `NFTMarketplaceService`.
mod Entities
pub mod Sales
pub mod Queries
mod Tests
pub mod Acceptance
pub mod Ownership
pub mod Purchase
pub use Entities.*
use mathlib.Core.List.{reverse}
use renaissance_api.Common.{
  ℕ, ◌+◌, ◌-◌, ◌*◌, ◌/◌, Bool, true, false, not, Option, none, some, List, [], ◌∷◌, map, ◌&&◌, ◌||◌,
  ltb, ◌==◌, if◌then◌else◌, find_by, save_by, select_by,
}
use renaissance_api.Common.Int.{ℤ, pos, ◌+ℤ◌, ◌-ℤ◌, ltb_ℤ}
use renaissance_api.Common.Action.{
  ok, ◌>>=◌, ◌>>◌, pure, gets, or_raise, raise_if, modify, in_transaction,
}

pub record FeeBreakdown : Type 0 where
  pub platform_fee : ℕ
  pub royalty_fee : ℕ
  pub total_fees : ℕ
  pub seller_proceeds : ℕ

-- 2.5 and 5 percent, rounded to the nearest unit.
unfoldable pub calculate_fees : ℕ → FeeBreakdown
calculate_fees price =
    let platform = (price * 25 + 500) / 1000 in
    let royalty = (price * 5 + 50) / 100 in
    record {
      platform_fee = platform;
      royalty_fee = royalty;
      total_fees = platform + royalty;
      seller_proceeds = price - (platform + royalty);
    }

-- The ids that the database gives to new rows.
pub record IdSource : Type 0 where
  pub listing_ids : List NftListing → ℕ
  pub offer_ids : List NftOffer → ℕ

abbrev pub save_listing : NftListing → MarketAction NftListing
save_listing l db = (ok l, record db { listings = save_by (λ x. x.id) l db.listings })

abbrev pub save_offer : NftOffer → MarketAction NftOffer
save_offer o db = (ok o, record db { offers = save_by (λ x. x.id) o db.offers })

abbrev pub save_user : User → MarketAction (Unit {0})
save_user u db = (ok tt, record db { users = save_by (λ x. x.id) u db.users })

abbrev pub save_nft : PlayerCard → MarketAction (Unit {0})
save_nft n db = (ok tt, record db { nfts = save_by (λ x. x.id) n db.nfts })

abbrev pub fetch_listing : ℕ → MarketAction NftListing
fetch_listing i = do or_raise (← gets (λ db. find_listing i db.listings)) listing_not_found

abbrev pub fetch_active : ℕ → MarketAction NftListing
fetch_active i = do or_raise (← gets (λ db. find_active i db.listings)) listing_not_found

abbrev pub fetch_pending : ℕ → MarketAction NftOffer
fetch_pending i = do or_raise (← gets (λ db. find_pending i db.offers)) offer_not_found

abbrev pub fetch_user : ℕ → MarketAction User
fetch_user i = do or_raise (← gets (λ db. find_user i db.users)) user_not_found

abbrev pub new_listing : ℕ → ℕ → ℕ → CreateListing → NftListing
new_listing i now seller dto = record {
  id = i;
  nft_id = dto.nft_id;
  seller_id = seller;
  price = dto.price;
  min_offer_price = dto.min_offer_price;
  status = active;
  expires_at = dto.expires_at;
  buyer_id = none;
  platform_fee = (calculate_fees dto.price).platform_fee;
  royalty_fee = (calculate_fees dto.price).royalty_fee;
  created_at = now;
}

abbrev pub is_some {ℓ} : {A : Type ℓ} → Option A → Bool
is_some none = false
is_some (some a) = true

unfoldable pub create_listing : IdSource → ℕ → ℕ → CreateListing → MarketAction NftListing
create_listing ids now seller dto = do
  nft ← do or_raise (← gets (λ db. find_nft dto.nft_id db.nfts)) nft_not_found
  raise_if (not (nft.user_id == seller)) not_owner
  raise_if nft.is_burned burned
  listed ← gets (λ db. is_some (find_by (is_listing_of dto.nft_id) db.listings))
  raise_if listed already_listed
  i ← gets (λ db. ids.listing_ids db.listings)
  save_listing (new_listing i now seller dto)

unfoldable pub get_listing_by_id : ℕ → MarketAction NftListing
get_listing_by_id i = fetch_listing i

abbrev pub debited : ℕ → User → User
debited price u = record u { wallet_balance = u.wallet_balance -ℤ pos price }

abbrev pub credited : ℕ → User → User
credited proceeds u = record u { wallet_balance = u.wallet_balance +ℤ pos proceeds }

-- A seller who is not there gets nothing.
abbrev pub credit_seller : ℕ → Option User → MarketAction (Unit {0})
credit_seller proceeds none = pure tt
credit_seller proceeds (some u) = save_user (credited proceeds u)

abbrev pub transfer_nft : ℕ → Option PlayerCard → MarketAction (Unit {0})
transfer_nft owner none = pure tt
transfer_nft owner (some n) = save_nft (record n { user_id = owner })

abbrev pub sold_listing : ℕ → FeeBreakdown → NftListing → NftListing
sold_listing buyer fees l = record l {
  status = sold;
  buyer_id = some buyer;
  platform_fee = fees.platform_fee;
  royalty_fee = fees.royalty_fee;
}

-- What a purchase and an accepted offer do once the buyer is known to be able to pay.
abbrev pub sell : NftListing → ℕ → ℕ → User → MarketAction NftListing
sell l price buyer_id buyer = do
  save_user (debited price buyer)
  seller ← gets (λ db. find_user l.seller_id db.users)
  credit_seller (calculate_fees price).seller_proceeds seller
  nft ← gets (λ db. find_nft l.nft_id db.nfts)
  transfer_nft buyer_id nft
  save_listing (sold_listing buyer_id (calculate_fees price) l)

-- `UPDATE` of the pending offers of a listing, but for the offer `but`.
abbrev pub closed_offer : ℕ → (NftOffer → Bool) → OfferStatus → NftOffer → NftOffer
closed_offer i but s o =
    if o.listing_id == i && (is_pending o.status && not (but o)) then record o { status = s } else o

abbrev pub expire_offers : ℕ → MarketAction (Unit {0})
expire_offers i =
    modify λ db. record db { offers = map (closed_offer i (λ o. false) expired) db.offers }

abbrev pub buy_found : ℕ → ℕ → ℕ → NftListing → MarketAction NftListing
buy_found now i buyer_id l = do
  raise_if (l.seller_id == buyer_id) own_listing
  raise_if (is_past now l.expires_at) has_expired
  buyer ← fetch_user buyer_id
  raise_if (ltb_ℤ buyer.wallet_balance (pos l.price)) insufficient_balance
  l' ← sell l l.price buyer_id buyer
  expire_offers i
  pure l'

unfoldable pub buy_nft : ℕ → ℕ → ℕ → MarketAction NftListing
buy_nft now i buyer_id = in_transaction (fetch_active i >>= buy_found now i buyer_id)

unfoldable pub cancel_listing : ℕ → ℕ → MarketAction NftListing
cancel_listing i user = do
  l ← fetch_listing i
  raise_if (not (l.seller_id == user)) not_seller
  raise_if (not (is_active l.status)) not_active
  l' ← save_listing (record l { status = cancelled })
  expire_offers i
  pure l'

abbrev pub is_below : ℕ → Option ℕ → Bool
is_below amount none = false
is_below amount (some m) = ltb amount m

abbrev pub new_offer : ℕ → ℕ → ℕ → ℕ → MakeOffer → NftOffer
new_offer i now listing bidder dto = record {
  id = i;
  listing_id = listing;
  bidder_id = bidder;
  amount = dto.amount;
  status = pending;
  expires_at = dto.expires_at;
  message = dto.message;
  created_at = now;
}

unfoldable pub make_offer : IdSource → ℕ → ℕ → ℕ → MakeOffer → MarketAction NftOffer
make_offer ids now listing bidder_id dto = do
  l ← fetch_active listing
  raise_if (l.seller_id == bidder_id) own_listing
  raise_if (is_past now l.expires_at) has_expired
  raise_if (is_below dto.amount l.min_offer_price) low_offer
  bidder ← fetch_user bidder_id
  raise_if (ltb_ℤ bidder.wallet_balance (pos dto.amount)) insufficient_balance
  i ← gets (λ db. ids.offer_ids db.offers)
  save_offer (new_offer i now listing bidder_id dto)

-- The listing that is joined to an offer: without one, the caller is not its seller.
abbrev pub fetch_joined : NftOffer → MarketAction NftListing
fetch_joined o = do or_raise (← gets (λ db. find_listing o.listing_id db.listings)) not_seller

abbrev pub reject_others : ℕ → ℕ → MarketAction (Unit {0})
reject_others i offer =
    modify λ db. record db { offers = map (closed_offer i (λ o. o.id == offer) rejected) db.offers }

abbrev pub accept_found : ℕ → ℕ → ℕ → NftOffer → MarketAction NftOffer
accept_found now i seller o = do
  l ← fetch_joined o
  raise_if (not (l.seller_id == seller)) not_seller
  raise_if (not (is_active l.status)) not_active
  raise_if (is_past now o.expires_at) has_expired
  buyer ← fetch_user o.bidder_id
  raise_if (ltb_ℤ buyer.wallet_balance (pos o.amount)) insufficient_balance
  l' ← sell l o.amount o.bidder_id buyer
  o' ← save_offer (record o { status = accepted })
  reject_others l.id i
  pure o'

unfoldable pub accept_offer : ℕ → ℕ → ℕ → MarketAction NftOffer
accept_offer now i seller = in_transaction (fetch_pending i >>= accept_found now i seller)

-- An empty reason, 0, leaves the message as it is.
abbrev pub with_reason : Option ℕ → Option ℕ → Option ℕ
with_reason none old = old
with_reason (some r) old = if r == 0 then old else some r

unfoldable pub reject_offer : ℕ → ℕ → Option ℕ → MarketAction NftOffer
reject_offer i seller reason = do
  o ← fetch_pending i
  l ← fetch_joined o
  raise_if (not (l.seller_id == seller)) not_seller
  save_offer (record o { status = rejected; message = with_reason reason o.message })

unfoldable pub withdraw_offer : ℕ → ℕ → MarketAction NftOffer
withdraw_offer i bidder = do
  o ← fetch_pending i
  raise_if (not (o.bidder_id == bidder)) not_bidder
  save_offer (record o { status = withdrawn })

-- `getMyOffers`, the newest first.
unfoldable pub get_my_offers : ℕ → Market → List NftOffer
get_my_offers bidder db = reverse (select_by (λ o. o.bidder_id == bidder) db.offers)
