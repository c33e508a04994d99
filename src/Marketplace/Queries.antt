-- ===== src/Marketplace/Queries.antt =====
-- backend/src/nft/nft-marketplace.service.ts: the lists of listings and of offers.
use renaissance_api.Common.{
  ℕ, ◌+◌, ◌-◌, ◌*◌, ◌/◌, Bool, true, false, not, Option, none, some, List, ◌&&◌, ◌||◌, ltb, leb,
  ◌==◌, if◌then◌else◌, select_by, take, drop, length, arith,
}
use renaissance_api.Common.Sorting.{sort_by, IsSortedBy, sort_by-IsSortedBy}
use renaissance_api.Common.Action.{◌>>=◌, ◌>>◌, gets, raise_if}
use renaissance_api.Marketplace.{
  Market, MarketAction, NftListing, NftOffer, PlayerCard, find_nft, is_active, fetch_listing,
  not_seller,
}

pub data SortField : Type 0 where
  by_price by_created_at : SortField

-- An id or a text that is not given is 0.
pub record ListingsQuery : Type 0 where
  pub seller_id : ℕ
  pub reward_type : ℕ
  pub min_price : Option ℕ
  pub max_price : Option ℕ
  pub page : ℕ
  pub limit : ℕ
  pub sort_field : SortField
  pub ascending : Bool

pub record PaginatedListings : Type 0 where
  pub page_rows : List NftListing
  pub total : ℕ
  pub page : ℕ
  pub limit : ℕ
  pub total_pages : ℕ

-- `expires_at IS NULL OR expires_at > NOW()`
abbrev pub is_open : ℕ → Option ℕ → Bool
is_open now none = true
is_open now (some t) = ltb now t

abbrev pub has_reward : ℕ → Option PlayerCard → Bool
has_reward r none = false
has_reward r (some n) = n.reward_type == r

abbrev pub at_least : Option ℕ → ℕ → Bool
at_least none p = true
at_least (some m) p = leb m p

abbrev pub at_most : Option ℕ → ℕ → Bool
at_most none p = true
at_most (some m) p = leb p m

abbrev pub is_shown : ℕ → ListingsQuery → List PlayerCard → NftListing → Bool
is_shown now q cards l =
    is_active l.status
    && (is_open now l.expires_at
        && ((q.seller_id == 0 || l.seller_id == q.seller_id)
            && ((q.reward_type == 0 || has_reward q.reward_type (find_nft l.nft_id cards))
                && (at_least q.min_price l.price && at_most q.max_price l.price))))

abbrev pub sort_key : SortField → NftListing → ℕ
sort_key by_price l = l.price
sort_key by_created_at l = l.created_at

abbrev pub comes_before : SortField → Bool → NftListing → NftListing → Bool
comes_before f ascending a b =
    if ascending then leb (sort_key f a) (sort_key f b) else leb (sort_key f b) (sort_key f a)

unfoldable pub get_active_listings : ℕ → ListingsQuery → Market → PaginatedListings
get_active_listings now q db =
    let rows = select_by (is_shown now q db.nfts) db.listings in
    record {
      page_rows =
          take q.limit
            (drop ((q.page - 1) * q.limit) (sort_by (comes_before q.sort_field q.ascending) rows));
      total = length rows;
      page = q.page;
      limit = q.limit;
      total_pages = (length rows + (q.limit - 1)) / q.limit;
    }

-- The highest offer first, the older of two that are equal.
abbrev pub offer_before : NftOffer → NftOffer → Bool
offer_before a b = ltb b.amount a.amount || (a.amount == b.amount && leb a.created_at b.created_at)

unfoldable pub get_offers_for_listing : ℕ → ℕ → MarketAction (List NftOffer)
get_offers_for_listing i seller = do
  l ← fetch_listing i
  raise_if (not (l.seller_id == seller)) not_seller
  gets (λ db. sort_by offer_before (select_by (λ o. o.listing_id == i) db.offers))

-- The offers on a listing come in their order.
pub offers-IsSortedBy :
    (i : ℕ) (os : List NftOffer)
    → IsSortedBy offer_before (sort_by offer_before (select_by (λ o. o.listing_id == i) os))
offers-IsSortedBy i os =
    sort_by-IsSortedBy offer_before (λ a b. ground arith) (λ a b c p q. ground arith)
      (select_by (λ o. o.listing_id == i) os)
