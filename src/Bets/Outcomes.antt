-- ===== src/Bets/Outcomes.antt =====
-- The bets of a match before and after its settlement, the winners first and then the losers.
use renaissance_api.Common.{
  ℕ, ◌≡◌, refl, Bool, true, false, List, [], ◌∷◌, arith, if◌then◌else◌, length, ◌≤◌, ◌&&◌, ◌==◌,
  select_by, none, map,
}
use renaissance_api.Common.Int.{pos, int_laws}
use renaissance_api.Bets.{
  Bet, MatchOutcome, same_outcome, selected, settled_bet, is_pending, find_bet,
}
use renaissance_api.Bets.Batch.{settle_all, UniqueIds}
use renaissance_api.Bets.Payment.{paid_to}

-- The pending bets of a match, won or lost as `w` says.
abbrev pub pending_bets : ℕ → MatchOutcome → Bool → List Bet → List Bet
pending_bets m outcome w = select_by (selected m outcome w)

-- A bet after the settlement of a match: a pending bet of it is won or lost.
abbrev pub after_match : ℕ → MatchOutcome → ℕ → Bet → Bet
after_match m outcome now b =
    if b.match_id == m && is_pending b.status
    then settled_bet now (same_outcome b.predicted_outcome outcome) b
    else b

module _ (m : ℕ) (outcome : MatchOutcome) (now : ℕ) where
  pub settle_all-both :
      (bs : List Bet)
      → settle_all m outcome false now (settle_all m outcome true now bs)
        ≡ map (after_match m outcome now) bs
  unfolding settle_all
  settle_all-both [] = refl
  settle_all-both (b ∷ bs) = ground (arith, settle_all-both bs)

  pub losers-left :
      (bs : List Bet)
      → pending_bets m outcome false (settle_all m outcome true now bs)
        ≡ pending_bets m outcome false bs
  unfolding settle_all
  losers-left [] = refl
  losers-left (b ∷ bs) = ground (arith, losers-left bs)

  find_bet-settle_all :
      (w : Bool) (i : ℕ) (bs : List Bet)
      → find_bet i bs ≡ none
      → find_bet i (settle_all m outcome w now bs) ≡ none
  unfolding settle_all
  find_bet-settle_all w i [] h = refl
  find_bet-settle_all w i (b ∷ bs) h = ground (arith, find_bet-settle_all w i bs)

  pub settle_all-UniqueIds :
      (w : Bool) (bs : List Bet) → UniqueIds bs → UniqueIds (settle_all m outcome w now bs)
  unfolding settle_all
  settle_all-UniqueIds w [] u = tt
  settle_all-UniqueIds w (b ∷ bs) u =
      ground (arith, settle_all-UniqueIds w bs u.1, find_bet-settle_all w b.id bs u.0)

  pub none-pending :
      (w : Bool) (bs : List Bet)
      → pending_bets m outcome w (map (after_match m outcome now) bs) ≡ []
  none-pending w [] = refl
  none-pending w (b ∷ bs) = ground (arith, none-pending w bs)

  pub length-pending_bets :
      (w : Bool) (bs : List Bet) → length (pending_bets m outcome w bs) ≤ length bs
  length-pending_bets w [] = omega arith
  length-pending_bets w (b ∷ bs) = ground (arith, length-pending_bets w bs)

pub paid_to-lost : (u : ℕ) (bs : List Bet) → paid_to false u bs ≡ pos 0
paid_to-lost u [] = refl
paid_to-lost u (b ∷ bs) = grind (int_laws, paid_to-lost u bs)
