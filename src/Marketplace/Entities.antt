-- ===== src/Marketplace/Entities.antt =====
-- backend/src/nft/entities and backend/src/nft/dto/marketplace.dto.ts: the rows and requests of the
-- marketplace. A price is a number of units of 10^-8, above 0 by the checks of the requests; a time is
-- in milliseconds, and the id of a row is its primary key.
use renaissance_api.Common.{
  ℕ, Bool, true, false, Option, none, some, List, ◌==◌, ◌&&◌, find_by, keep, ltb,
}
use renaissance_api.Common.Int.{ℤ}
use renaissance_api.Common.Action.{Action}

pub data ListingStatus : Type 0 where
  active sold cancelled listing_expired : ListingStatus

pub data OfferStatus : Type 0 where
  pending accepted rejected withdrawn expired : OfferStatus

pub record NftListing : Type 0 where
  pub id : ℕ
  pub nft_id : ℕ
  pub seller_id : ℕ
  pub price : ℕ
  pub min_offer_price : Option ℕ
  pub status : ListingStatus
  pub expires_at : Option ℕ
  pub buyer_id : Option ℕ
  pub platform_fee : ℕ
  pub royalty_fee : ℕ
  pub created_at : ℕ

pub record NftOffer : Type 0 where
  pub id : ℕ
  pub listing_id : ℕ
  pub bidder_id : ℕ
  pub amount : ℕ
  pub status : OfferStatus
  pub expires_at : Option ℕ
  pub message : Option ℕ
  pub created_at : ℕ

-- `NFTPlayerCard`
pub record PlayerCard : Type 0 where
  pub id : ℕ
  pub user_id : ℕ
  pub is_burned : Bool
  pub reward_type : ℕ

pub record User : Type 0 where
  pub id : ℕ
  pub wallet_balance : ℤ

pub record CreateListing : Type 0 where
  pub nft_id : ℕ
  pub price : ℕ
  pub min_offer_price : Option ℕ
  pub expires_at : Option ℕ

pub record MakeOffer : Type 0 where
  pub amount : ℕ
  pub message : Option ℕ
  pub expires_at : Option ℕ

pub record Market : Type 0 where
  pub listings : List NftListing
  pub offers : List NftOffer
  pub nfts : List PlayerCard
  pub users : List User

pub data Error : Type 0 where
  -- NotFoundException
  nft_not_found listing_not_found user_not_found offer_not_found : Error
  -- ForbiddenException
  not_owner not_seller not_bidder : Error
  -- BadRequestException
  burned already_listed own_listing has_expired not_active low_offer insufficient_balance : Error

abbrev pub MarketAction : Type 0 → Type 0
MarketAction = Action Error Market

abbrev pub is_active : ListingStatus → Bool
is_active active = true
is_active _ = false

abbrev pub is_pending : OfferStatus → Bool
is_pending pending = true
is_pending _ = false

abbrev pub find_listing : ℕ → List NftListing → Option NftListing
find_listing i = find_by λ x. x.id == i

-- The row of an id, if its status fits.
abbrev pub find_active : ℕ → List NftListing → Option NftListing
find_active i rows = keep (λ x. x.id) (λ x. is_active x.status) (find_listing i rows)

abbrev pub find_offer : ℕ → List NftOffer → Option NftOffer
find_offer i = find_by λ x. x.id == i

abbrev pub find_pending : ℕ → List NftOffer → Option NftOffer
find_pending i rows = keep (λ x. x.id) (λ x. is_pending x.status) (find_offer i rows)

abbrev pub find_nft : ℕ → List PlayerCard → Option PlayerCard
find_nft i = find_by λ x. x.id == i

abbrev pub find_user : ℕ → List User → Option User
find_user i = find_by λ x. x.id == i

-- An active listing of the card.
abbrev pub is_listing_of : ℕ → NftListing → Bool
is_listing_of n x = x.nft_id == n && is_active x.status

-- `expiresAt && expiresAt < new Date()`
abbrev pub is_past : ℕ → Option ℕ → Bool
is_past now none = false
is_past now (some t) = ltb t now
