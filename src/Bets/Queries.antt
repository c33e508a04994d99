-- ===== src/Bets/Queries.antt =====
-- backend/src/bets/bets.service.ts: the reading methods, and what the statistics add up to. A page
-- counts from 1, and the limit of a page is above 0.
use renaissance_api.Common.{
  ℕ, ◌+◌, ◌-◌, ◌*◌, ◌/◌, ◌≡◌, Bool, true, false, not, Option, none, some, List, [], ◌∷◌, ◌==◌,
  arith, if◌then◌else◌, ltb, select_by, count_by, take, drop, length,
}
use mathlib.Core.List.{reverse}
use renaissance_api.Common.Int.{ℤ, pos, ◌+ℤ◌}
use renaissance_api.Common.Action.{◌>>=◌, ◌>>◌, pure, gets, or_raise, raise_if}
use renaissance_api.Bets.{
  Bet, BetStatus, lost, cancelled, Db, BetAction, is_pending, is_won, find_bet, find_match,
  bet_not_found, match_not_found, no_access,
}

pub record PaginatedBets : Type 0 where
  pub page_rows : List Bet
  pub total : ℕ
  pub page : ℕ
  pub limit : ℕ
  pub total_pages : ℕ

-- `findAndCount` of the newest rows first, and the page made of it; `Math.ceil(total / limit)`.
abbrev pub page_of : ℕ → ℕ → List Bet → PaginatedBets
page_of page limit rows = record {
  page_rows = take limit (drop ((page - 1) * limit) (reverse rows));
  total = length rows;
  page = page;
  limit = limit;
  total_pages = (length rows + (limit - 1)) / limit;
}

unfoldable pub get_user_bets : ℕ → ℕ → ℕ → Db → PaginatedBets
get_user_bets user page limit db = page_of page limit (select_by (λ b. b.user_id == user) db.bets)

unfoldable pub get_match_bets : ℕ → ℕ → ℕ → BetAction PaginatedBets
get_match_bets i page limit = do
  or_raise (← gets (λ db. find_match i db.matches)) match_not_found
  gets (λ db. page_of page limit (select_by (λ b. b.match_id == i) db.bets))

-- `getBetById`; the owner is checked if a user is given.
unfoldable pub get_bet_by_id : ℕ → Option ℕ → BetAction Bet
get_bet_by_id i none = do or_raise (← gets (λ db. find_bet i db.bets)) bet_not_found
get_bet_by_id i (some user) = do
  b ← or_raise (← gets (λ db. find_bet i db.bets)) bet_not_found
  raise_if (not (b.user_id == user)) no_access
  pure b

abbrev pub is_lost : BetStatus → Bool
is_lost lost = true
is_lost _ = false

abbrev pub is_cancelled : BetStatus → Bool
is_cancelled cancelled = true
is_cancelled _ = false

-- `winRate` is the quotient of two numbers.
pub record BettingStats : Type 0 where
  pub total_bets : ℕ
  pub pending_bets : ℕ
  pub won_bets : ℕ
  pub lost_bets : ℕ
  pub cancelled_bets : ℕ
  pub total_staked : ℤ
  pub total_won : ℤ
  pub win_rate : ℕ × ℕ

-- `SUM(...)`
abbrev pub sum_of : (Bet → ℤ) → List Bet → ℤ
sum_of f [] = pos 0
sum_of f (b ∷ bs) = f b +ℤ sum_of f bs

unfoldable pub get_user_betting_stats : ℕ → Db → BettingStats
get_user_betting_stats user db =
    let own = select_by (λ b. b.user_id == user) db.bets in
    let won = count_by (λ b. is_won b.status) own in
    let lost = count_by (λ b. is_lost b.status) own in
    record {
      total_bets = length own;
      pending_bets = count_by (λ b. is_pending b.status) own;
      won_bets = won;
      lost_bets = lost;
      cancelled_bets = count_by (λ b. is_cancelled b.status) own;
      total_staked = sum_of (λ b. b.stake_amount) own;
      total_won = sum_of (λ b. if is_won b.status then b.potential_payout else pos 0) own;
      win_rate = if ltb 0 (won + lost) then (won * 100, won + lost) else (0, 1);
    }

count_by-statuses :
    (bs : List Bet)
    → count_by (λ b. is_pending b.status) bs
        + count_by (λ b. is_won b.status) bs
        + count_by (λ b. is_lost b.status) bs
        + count_by (λ b. is_cancelled b.status) bs
      ≡ length bs
count_by-statuses [] = omega arith
count_by-statuses (b ∷ bs) = ground (arith, count_by-statuses bs)

-- The pending, the won, the lost and the cancelled bets of the statistics add up to all of the
-- user's, whatever the database holds.
pub betting_stats_partition :
    (user : ℕ) (db : Db)
    → let s = get_user_betting_stats user db in
      s.pending_bets + s.won_bets + s.lost_bets + s.cancelled_bets ≡ s.total_bets
unfolding get_user_betting_stats
betting_stats_partition user db = count_by-statuses (select_by (λ b. b.user_id == user) db.bets)
