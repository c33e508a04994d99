-- ===== src/Marketplace/Ownership.antt =====
-- Who owns what is for sale, over any sequence of calls.
use renaissance_api.Marketplace.Acceptance.{Accepts, accept_offer-Accepts}
use renaissance_api.Marketplace.Purchase.{Buys, buy_nft-Buys}
use renaissance_api.Common.{
  ℕ, ◌≡◌, refl, sym, subst, Bool, true, false, Option, none, some, List, [], ◌∷◌, arith, ◌==◌,
  ==→eq, find_by_sound, find_by, save_by, find_by-save_by, Option-cases, inl, inr,
}
use renaissance_api.Common.Action.{Result, ok, err}
use renaissance_api.Marketplace.{
  Market, NftListing, NftOffer, PlayerCard, User, find_nft, find_listing, is_active, is_listing_of,
  IdSource, CreateListing, MakeOffer, create_listing, buy_nft, cancel_listing, make_offer,
  accept_offer, reject_offer, withdraw_offer, new_listing, cancelled, Error,
}
use renaissance_api.Marketplace.Sales.{IsSale}

-- The card of an active listing belongs to its seller, and no card has two active listings.
pub record IsOwned (listings : List NftListing) (nfts : List PlayerCard) : Type 0 where
  pub owned :
      (i : ℕ) (l : NftListing) (n : PlayerCard)
      → find_listing i listings ≡ some l
      → is_active l.status ≡ true
      → find_nft l.nft_id nfts ≡ some n
      → n.user_id ≡ l.seller_id
  pub single :
      (i j : ℕ) (l m : NftListing)
      → find_listing i listings ≡ some l
      → find_listing j listings ≡ some m
      → is_active l.status ≡ true
      → is_active m.status ≡ true
      → l.nft_id ≡ m.nft_id
      → i ≡ j

abbrev put : NftListing → List NftListing → List NftListing
put = save_by (λ x. x.id)

-- A row that is found after an inactive row was saved, and is active, was there before.
found_before :
    (row : NftListing) (i : ℕ) (l : NftListing) (rows : List NftListing)
    → is_active row.status ≡ false
    → find_listing i (put row rows) ≡ some l
    → is_active l.status ≡ true
    → (find_listing i rows ≡ some l) × ((row.id == i) ≡ false)
found_before row i l rows closed here live = ground (arith, find_by-save_by (λ x. x.id) row i rows)

put_closed :
    (row : NftListing) (listings : List NftListing) (nfts : List PlayerCard)
    → is_active row.status ≡ false
    → IsOwned listings nfts
    → IsOwned (put row listings) nfts
put_closed row listings nfts closed own = record {
  owned = λ i l n here live card.
      let before = found_before row i l listings closed here live in
      own.owned i l n before.0 live card;
  single = λ i j l m here there live live' same.
      own.single i j l m (found_before row i l listings closed here live).0
        (found_before row j m listings closed there live').0 live live' same;
}

-- A sale of an active listing.
sale-IsOwned :
    (l : NftListing) (price buyer_id : ℕ) (u : User) (db db' : Market)
    → find_listing l.id db.listings ≡ some l
    → is_active l.status ≡ true
    → IsSale l price buyer_id u db db'
    → IsOwned db.listings db.nfts
    → IsOwned db'.listings db'.nfts
sale-IsOwned l price buyer_id u db db' stored live sale own = record {
  owned = λ i m n here live' card.
      ground (arith, sale.listed i, sale.owners m.nft_id, own.single l.id i l m, own.owned i m n);
  single = λ i j m m' here there live' live'' same.
      ground (arith, sale.listed i, sale.listed j, own.single i j m m');
}

-- What no row passes, a stored row does not.
find_by-none {ℓ} :
    {A : Type ℓ} (p q : A → Bool) (a : A) (xs : List A)
    → find_by p xs ≡ none
    → find_by q xs ≡ some a
    → p a ≡ false
find_by-none p q a [] h e = cc
find_by-none p q a (x ∷ xs) h e = ground (arith, find_by-none p q a xs)

-- A new listing of a card that its seller owns and that has no active one.
put_new :
    (row : NftListing) (n : PlayerCard) (listings : List NftListing) (nfts : List PlayerCard)
    → find_nft row.nft_id nfts ≡ some n
    → n.user_id ≡ row.seller_id
    → find_by (is_listing_of row.nft_id) listings ≡ none
    → IsOwned listings nfts
    → IsOwned (put row listings) nfts
put_new row n listings nfts card mine unlisted own = record {
  owned = λ i l n' here live card'.
      ground (arith, find_by-save_by (λ x. x.id) row i listings, own.owned i l n', card, card');
  single = λ i j l m here there live live' same. ground (
    arith,
    find_by-save_by (λ x. x.id) row i listings,
    find_by-save_by (λ x. x.id) row j listings,
    find_by-none (is_listing_of row.nft_id) (λ x. x.id == i) l listings unlisted,
    find_by-none (is_listing_of row.nft_id) (λ x. x.id == j) m listings unlisted,
    own.single i j l m,
  );
}

-- The market after a call that leaves listings and cards alone.
same-Owns :
    (db db' : Market)
    → db'.listings ≡ db.listings
    → db'.nfts ≡ db.nfts
    → IsOwned db.listings db.nfts
    → IsOwned db'.listings db'.nfts
same-Owns db db' p q own =
    subst (λ x. IsOwned x db'.nfts) (sym p) (subst (IsOwned db.listings) (sym q) own)

make_offer_same :
    (ids : IdSource) (now i bidder : ℕ) (dto : MakeOffer) (db : Market)
    → let db' = (make_offer ids now i bidder dto db).1 in
      (db'.listings ≡ db.listings) × (db'.nfts ≡ db.nfts)
unfolding make_offer
make_offer_same ids now i bidder dto db = ground arith

reject_offer_same :
    (i seller : ℕ) (reason : Option ℕ) (db : Market)
    → let db' = (reject_offer i seller reason db).1 in
      (db'.listings ≡ db.listings) × (db'.nfts ≡ db.nfts)
unfolding reject_offer
reject_offer_same i seller reason db = ground arith

withdraw_offer_same :
    (i bidder : ℕ) (db : Market)
    → let db' = (withdraw_offer i bidder db).1 in
      (db'.listings ≡ db.listings) × (db'.nfts ≡ db.nfts)
unfolding withdraw_offer
withdraw_offer_same i bidder db = ground arith

-- A predicate on the market that a call leaves.
OwnedAfter : {E A : Type 0} → Result E A × Market → Type 0
OwnedAfter (r, db) = IsOwned db.listings db.nfts

module _ (db : Market) (own : IsOwned db.listings db.nfts) where
  create_listing-IsOwned :
      (ids : IdSource) (now seller : ℕ) (dto : CreateListing)
      → OwnedAfter (create_listing ids now seller dto db)
  unfolding create_listing OwnedAfter
  create_listing-IsOwned ids now seller dto = elim (Option-cases (find_nft dto.nft_id db.nfts)) [
    | inl e ↦ ground (arith, e)
    | inr (n, e) ↦ ground (
      arith,
      e,
      put_new (new_listing (ids.listing_ids db.listings) now seller dto) n db.listings db.nfts,
      Option-cases (find_by (is_listing_of dto.nft_id) db.listings),
    )
  ]

  cancel_listing-IsOwned : (i user : ℕ) → OwnedAfter (cancel_listing i user db)
  unfolding cancel_listing OwnedAfter
  cancel_listing-IsOwned i user = elim (Option-cases (find_listing i db.listings)) [
    | inl e ↦ ground (arith, e)
    | inr (l, e) ↦
        ground (arith, e, put_closed (record l { status = cancelled }) db.listings db.nfts refl own)
  ]

  sold_id :
      (i : ℕ) (l : NftListing)
      → find_listing i db.listings ≡ some l
      → find_listing l.id db.listings ≡ some l
  sold_id i l stored =
      subst (λ k. find_listing k db.listings ≡ some l)
        (sym (==→eq l.id i (find_by_sound (λ x. x.id == i) db.listings l stored))) stored

  bought-IsOwned :
      (now i buyer_id : ℕ) (r : Result Error NftListing × Market)
      → Buys now i buyer_id db r
      → OwnedAfter r
  unfolding OwnedAfter
  bought-IsOwned now i buyer_id (err e, db') (same, never) =
      subst (λ (x : Market). IsOwned x.listings x.nfts) (sym same) own
  bought-IsOwned now i buyer_id (ok s, db') (l, u, can, result, sale, offers) =
      sale-IsOwned l l.price buyer_id u db db' (sold_id i l can.stored) can.is_open sale own

  accepted-IsOwned :
      (now i seller : ℕ) (r : Result Error NftOffer × Market)
      → Accepts now i seller db r
      → OwnedAfter r
  unfolding OwnedAfter
  accepted-IsOwned now i seller (err e, db') (same, never) =
      subst (λ (x : Market). IsOwned x.listings x.nfts) (sym same) own
  accepted-IsOwned now i seller (ok s, db') (o, l, u, can, result, sale, offers) =
      sale-IsOwned l o.amount o.bidder_id u db db' (sold_id o.listing_id l can.listed) can.live sale
        own

-- The calls of the service that change something.
pub data Call : Type 0 where
  creates : ℕ → ℕ → CreateListing → Call
  buys : ℕ → ℕ → ℕ → Call
  cancels : ℕ → ℕ → Call
  offers : ℕ → ℕ → ℕ → MakeOffer → Call
  accepts : ℕ → ℕ → ℕ → Call
  rejects : ℕ → ℕ → Option ℕ → Call
  withdraws : ℕ → ℕ → Call

module _ (ids : IdSource) where
  pub step : Call → Market → Market
  step (creates now seller dto) db = (create_listing ids now seller dto db).1
  step (buys now i buyer) db = (buy_nft now i buyer db).1
  step (cancels i user) db = (cancel_listing i user db).1
  step (offers now i bidder dto) db = (make_offer ids now i bidder dto db).1
  step (accepts now i seller) db = (accept_offer now i seller db).1
  step (rejects i seller reason) db = (reject_offer i seller reason db).1
  step (withdraws i bidder) db = (withdraw_offer i bidder db).1

  pub run : List Call → Market → Market
  run [] db = db
  run (c ∷ cs) db = run cs (step c db)

  step-IsOwned :
      (c : Call) (db : Market)
      → IsOwned db.listings db.nfts
      → IsOwned (step c db).listings (step c db).nfts
  unfolding step OwnedAfter
  step-IsOwned (creates now seller dto) db own = create_listing-IsOwned db own ids now seller dto
  step-IsOwned (buys now i buyer) db own =
      bought-IsOwned db own now i buyer _ (buy_nft-Buys now i buyer db)
  step-IsOwned (cancels i user) db own = cancel_listing-IsOwned db own i user
  step-IsOwned (offers now i bidder dto) db own =
      let (p, q) = make_offer_same ids now i bidder dto db in
      same-Owns db (make_offer ids now i bidder dto db).1 p q own
  step-IsOwned (accepts now i seller) db own =
      accepted-IsOwned db own now i seller _ (accept_offer-Accepts now i seller db)
  step-IsOwned (rejects i seller reason) db own =
      let (p, q) = reject_offer_same i seller reason db in
      same-Owns db (reject_offer i seller reason db).1 p q own
  step-IsOwned (withdraws i bidder) db own =
      let (p, q) = withdraw_offer_same i bidder db in
      same-Owns db (withdraw_offer i bidder db).1 p q own

  -- Where the card of each active listing belongs to its seller and no card has two active listings, it
  -- is so after any calls.
  pub run-IsOwned :
      (cs : List Call) (db : Market)
      → IsOwned db.listings db.nfts
      → IsOwned (run cs db).listings (run cs db).nfts
  unfolding run
  run-IsOwned [] db own = own
  run-IsOwned (c ∷ cs) db own = run-IsOwned cs (step c db) (step-IsOwned c db own)
