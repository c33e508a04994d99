-- ===== src/Marketplace/Tests.antt =====
-- A small market, and the theorems about the marketplace at it.
use renaissance_api.Common.{◌≡◌, refl, [], ◌∷◌, none, some, false, arith, suc}
use renaissance_api.Common.Int.{pos, ◌+ℤ◌, ◌-ℤ◌}
use renaissance_api.Common.Fresh.{max_key}
use renaissance_api.Marketplace.{Market, IdSource, active, pending, buy_nft, calculate_fees}
use renaissance_api.Marketplace.Ownership.{
  IsOwned, run, run-IsOwned, creates, buys, offers, accepts,
}

abbrev ids : IdSource
ids = record {
  listing_ids = λ ls. suc (max_key (λ l. l.id) ls);
  offer_ids = λ os. suc (max_key (λ o. o.id) os);
}

-- User 7 sells card 3 for 100; user 8 has 250, and user 9 offers 90.
abbrev market : Market
market = record {
  listings =
      record {
        id = 1;
        nft_id = 3;
        seller_id = 7;
        price = 10000000000;
        min_offer_price = none;
        status = active;
        expires_at = some 1000;
        buyer_id = none;
        platform_fee = 250000000;
        royalty_fee = 500000000;
        created_at = 1;
      }
      ∷ [];
  offers =
      record {
        id = 4;
        listing_id = 1;
        bidder_id = 9;
        amount = 9000000000;
        status = pending;
        expires_at = none;
        message = none;
        created_at = 2;
      }
      ∷ [];
  nfts = record { id = 3; user_id = 7; is_burned = false; reward_type = 1 } ∷ [];
  users =
      record { id = 7; wallet_balance = pos 0 }
      ∷ record { id = 8; wallet_balance = pos 25000000000 }
      ∷ record { id = 9; wallet_balance = pos 9000000000 }
      ∷ [];
}

seller_paid :
    (buy_nft 5 1 8 market).1.users
    ≡ record { id = 7; wallet_balance = pos 9250000000 }
      ∷ record { id = 8; wallet_balance = pos 15000000000 }
      ∷ record { id = 9; wallet_balance = pos 9000000000 }
      ∷ []
unfolding buy_nft calculate_fees ◌+ℤ◌ ◌-ℤ◌
seller_paid = refl

market-IsOwned : IsOwned market.listings market.nfts
market-IsOwned = record {
  owned = λ i l n here live card. ground arith;
  single = λ i j l m here there live live' same. ground arith;
}

run-IsOwned_example :
    let cs =
      offers 5 1 8 (record { amount = 1; message = none; expires_at = none })
      ∷ accepts 6 4 7
      ∷ creates 7 9 (record { nft_id = 3; price = 5; min_offer_price = none; expires_at = none })
      ∷ buys 8 2 8
      ∷ [] in
    IsOwned (run ids cs market).listings (run ids cs market).nfts
run-IsOwned_example =
    run-IsOwned ids
      (offers 5 1 8 (record { amount = 1; message = none; expires_at = none })
        ∷ accepts 6 4 7
        ∷ creates 7 9 (record { nft_id = 3; price = 5; min_offer_price = none; expires_at = none })
        ∷ buys 8 2 8
        ∷ [])
      market market-IsOwned
