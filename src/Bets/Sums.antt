-- ===== src/Bets/Sums.antt =====
-- What the batches of a settlement sum up to: the summary, the events and the payments of a list of
-- bets, and how a list splits at a batch.
use renaissance_api.Common.{
  ℕ, zero, suc, ◌+◌, ◌≡◌, refl, sym, ap, ◌∙◌, Bool, List, [], ◌∷◌, ◌++◌, arith, if◌then◌else◌, take,
  drop, length,
}
use mathlib.Core.List.{append_assoc, append-nil}
use renaissance_api.Common.Int.{◌+ℤ◌, int_laws, +ℤ-zero, +ℤ_assoc}
use renaissance_api.Wallet.Invariant.{only}
use renaissance_api.Bets.{
  Bet, BetSettled, Summary, no_bets, add_summary, settled_event, count_settled,
}
use renaissance_api.Bets.Payment.{payout, paid, paid_to, payouts, add_batch}

-- The summary and the events of bets that all win, or all lose.
abbrev pub tally : Bool → List Bet → Summary
tally w bs = record {
  settled = length bs;
  won = if w then length bs else 0;
  lost = if w then 0 else length bs;
  total_payout = payouts w bs;
}

abbrev pub settled_events : Bool → List Bet → List BetSettled
settled_events w [] = []
settled_events w (b ∷ bs) = settled_event w (payout w b) b ∷ settled_events w bs

pub summary_eq :
    (s t : Summary)
    → s.settled ≡ t.settled
    → s.won ≡ t.won
    → s.lost ≡ t.lost
    → s.total_payout ≡ t.total_payout
    → s ≡ t
summary_eq s t p q r z = cc

pub add_no_bets : (s : Summary) → add_summary no_bets s ≡ s
add_no_bets s =
    summary_eq (add_summary no_bets s) s (omega arith) (omega arith) (omega arith) (omega int_laws)

tally-next :
    (w : Bool) (b : Bet) (bs : List Bet) (s : Summary)
    → add_summary (count_settled w (payout w b) s) (tally w bs) ≡ add_summary s (tally w (b ∷ bs))
tally-next w b bs s =
    summary_eq (add_summary (count_settled w (payout w b) s) (tally w bs))
      (add_summary s (tally w (b ∷ bs))) (omega arith) (ground arith) (ground arith)
      (+ℤ_assoc s.total_payout (payout w b) (payouts w bs))

pub tally-nil : (w : Bool) (s : Summary) → s ≡ add_summary s (tally w [])
tally-nil w s =
    summary_eq s (add_summary s (tally w [])) (omega arith) (ground arith) (ground arith)
      (sym (+ℤ-zero s.total_payout))

pub add_batch_lem :
    (w : Bool) (bs : List Bet) (s : Summary) (events : List BetSettled)
    → add_batch w bs (s, events) ≡ (add_summary s (tally w bs), events ++ settled_events w bs)
add_batch_lem w [] s events = cc (tally-nil w s, append-nil events)
add_batch_lem w (b ∷ bs) s events =
    add_batch_lem w bs (count_settled w (payout w b) s)
      (events ++ settled_event w (payout w b) b ∷ [])
    ∙ cc (
      tally-next w b bs s,
      append_assoc events (settled_event w (payout w b) b ∷ []) (settled_events w bs),
    )

-- A list of bets is its batch and the rest.
pub paid_to-take-drop :
    (w : Bool) (u n : ℕ) (bs : List Bet)
    → paid_to w u (take n bs) +ℤ paid_to w u (drop n bs) ≡ paid_to w u bs
paid_to-take-drop w u zero bs = grind int_laws
paid_to-take-drop w u (suc n) [] = grind int_laws
paid_to-take-drop w u (suc n) (b ∷ bs) =
    +ℤ_assoc (only b.user_id (paid w b) u) (paid_to w u (take n bs)) (paid_to w u (drop n bs))
    ∙ ap (λ z. only b.user_id (paid w b) u +ℤ z) (paid_to-take-drop w u n bs)

payouts-take-drop :
    (w : Bool) (n : ℕ) (bs : List Bet)
    → payouts w (take n bs) +ℤ payouts w (drop n bs) ≡ payouts w bs
payouts-take-drop w zero bs = grind int_laws
payouts-take-drop w (suc n) [] = grind int_laws
payouts-take-drop w (suc n) (b ∷ bs) =
    +ℤ_assoc (payout w b) (payouts w (take n bs)) (payouts w (drop n bs))
    ∙ ap (λ z. payout w b +ℤ z) (payouts-take-drop w n bs)

pub length-take-drop : (n : ℕ) (bs : List Bet) → length (take n bs) + length (drop n bs) ≡ length bs
length-take-drop zero bs = omega arith
length-take-drop (suc n) [] = omega arith
length-take-drop (suc n) (b ∷ bs) = omega (arith, length-take-drop n bs)

pub settled_events-take-drop :
    (w : Bool) (n : ℕ) (bs : List Bet)
    → settled_events w (take n bs) ++ settled_events w (drop n bs) ≡ settled_events w bs
settled_events-take-drop w zero bs = refl
settled_events-take-drop w (suc n) [] = refl
settled_events-take-drop w (suc n) (b ∷ bs) =
    ap (λ l. settled_event w (payout w b) b ∷ l) (settled_events-take-drop w n bs)

pub tally-take-drop :
    (w : Bool) (n : ℕ) (bs : List Bet) (s : Summary)
    → add_summary (add_summary s (tally w (take n bs))) (tally w (drop n bs))
      ≡ add_summary s (tally w bs)
tally-take-drop w n bs s =
    summary_eq (add_summary (add_summary s (tally w (take n bs))) (tally w (drop n bs)))
      (add_summary s (tally w bs)) (omega (arith, length-take-drop n bs))
      (ground (arith, length-take-drop n bs)) (ground (arith, length-take-drop n bs))
      (+ℤ_assoc s.total_payout (payouts w (take n bs)) (payouts w (drop n bs))
        ∙ ap (λ z. s.total_payout +ℤ z) (payouts-take-drop w n bs))
