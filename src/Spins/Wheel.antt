-- ===== src/Spins/Wheel.antt =====
-- The wheel of backend/src/spin/spin.service.ts: how often an outcome is drawn, and what it pays.
use renaissance_api.Common.{ℕ, zero, suc, ◌+◌, ◌*◌, ◌%◌, ◌≡◌, refl, ap, ◌∙◌, arith, if◌then◌else◌}
use renaissance_api.Common.Int.{ℤ, pos, negsuc, ◌+ℤ◌, int_laws, scaled}
use renaissance_api.Spins.{
  SpinOutcome, jackpot, high_win, medium_win, small_win, no_win, generate_secure_outcome,
  select_outcome, outcome_weights, same_outcome,
}

-- The table of the wheel, written again as two functions: out of 1000, and in tenths of the stake.
abbrev pub share_of : SpinOutcome → ℕ
share_of jackpot = 5
share_of high_win = 50
share_of medium_win = 150
share_of small_win = 300
share_of no_win = 495

abbrev pub tenths_of : SpinOutcome → ℕ
tenths_of jackpot = 500
tenths_of high_win = 100
tenths_of medium_win = 30
tenths_of small_win = 15
tenths_of no_win = 0

-- How many of the `n` random numbers from `start` on draw the outcome, for a stake.
unfoldable pub draws : ℤ → SpinOutcome → ℕ → ℕ → ℕ
draws stake o start zero = 0
draws stake o start (suc n) =
    (if same_outcome (generate_secure_outcome stake start).0 o then 1 else 0)
    + draws stake o (suc start) n

pub payout_of_outcome :
    (stake : ℤ) (random : ℕ)
    → (generate_secure_outcome stake random).1
      ≡ scaled stake (tenths_of (generate_secure_outcome stake random).0) 10
unfolding generate_secure_outcome select_outcome
payout_of_outcome (pos n) random = ground arith
payout_of_outcome (negsuc n) random = ground arith

one_round : (stake : ℤ) (o : SpinOutcome) → draws stake o 0 1000 ≡ share_of o
unfolding draws generate_secure_outcome select_outcome
one_round stake jackpot = refl
one_round stake high_win = refl
one_round stake medium_win = refl
one_round stake small_win = refl
one_round stake no_win = refl

draws-append :
    (stake : ℤ) (o : SpinOutcome) (start m n : ℕ)
    → draws stake o start (m + n) ≡ draws stake o start m + draws stake o (start + m) n
unfolding draws
draws-append stake o start zero n = grind arith
draws-append stake o start (suc m) n = grind (arith, draws-append stake o (suc start) m n)

drawn_same :
    (stake : ℤ) (r r' : ℕ)
    → r % 1000 ≡ r' % 1000
    → generate_secure_outcome stake r ≡ generate_secure_outcome stake r'
unfolding generate_secure_outcome
drawn_same stake r r' same = ap (λ x. select_outcome stake x 0 outcome_weights) same

draws_same :
    (stake : ℤ) (o : SpinOutcome) (s t n : ℕ)
    → s % 1000 ≡ t % 1000
    → draws stake o s n ≡ draws stake o t n
unfolding draws
draws_same stake o s t zero same = refl
draws_same stake o s t (suc n) same =
    let rest : draws stake o (suc s) n ≡ draws stake o (suc t) n =
      draws_same stake o (suc s) (suc t) n (omega arith) in
    rw (drawn_same stake s t same, rest) refl

-- Whatever the stake is, of the first `rounds` · 1000 random numbers an outcome is drawn by exactly
-- its share in 1000: 5 the jackpot, 50 a high win, 150 a medium win, 300 a small win, 495 no win.
pub draws_in_rounds :
    (stake : ℤ) (o : SpinOutcome) (rounds : ℕ)
    → draws stake o 0 (rounds * 1000) ≡ rounds * share_of o
draws_in_rounds stake o zero = unfold draws in omega arith
draws_in_rounds stake o (suc rounds) = grind (
  arith,
  draws-append stake o 0 1000 (rounds * 1000),
  one_round stake o,
  draws_same stake o 1000 0 (rounds * 1000),
  draws_in_rounds stake o rounds,
)

-- The payouts of the `n` random numbers from `start` on, and the same in tenths of the stake.
unfoldable pub sum_payouts : ℤ → ℕ → ℕ → ℤ
sum_payouts stake start zero = pos 0
sum_payouts stake start (suc n) =
    (generate_secure_outcome stake start).1 +ℤ sum_payouts stake (suc start) n

unfoldable sum_tenths : ℤ → ℕ → ℕ → ℕ
sum_tenths stake start zero = 0
sum_tenths stake start (suc n) =
    tenths_of (generate_secure_outcome stake start).0 + sum_tenths stake (suc start) n

tenths_of_round : (stake : ℤ) → sum_tenths stake 0 1000 ≡ 16500
unfolding sum_tenths generate_secure_outcome select_outcome
tenths_of_round stake = refl

payout_of_tens :
    (k random : ℕ)
    → (generate_secure_outcome (pos (10 * k)) random).1
      ≡ pos (k * tenths_of (generate_secure_outcome (pos (10 * k)) random).0)
payout_of_tens k random = payout_of_outcome (pos (10 * k)) random ∙ ap pos (omega arith)

sum_payouts-tenths :
    (k start n : ℕ)
    → sum_payouts (pos (10 * k)) start n ≡ pos (k * sum_tenths (pos (10 * k)) start n)
unfolding sum_payouts sum_tenths
sum_payouts-tenths k start zero = ground arith
sum_payouts-tenths k start (suc n) =
    grind (int_laws, payout_of_tens k start, sum_payouts-tenths k (suc start) n)

-- A stake of 10 · `k` units on each of 1000 random numbers in a row from 0 on is paid back as 16500 · `k` units,
-- which is 1.65 times of what was staked.
pub return_of_round : (k : ℕ) → sum_payouts (pos (10 * k)) 0 1000 ≡ pos (k * 16500)
return_of_round k =
    sum_payouts-tenths k 0 1000 ∙ ap (λ t. pos (k * t)) (tenths_of_round (pos (10 * k)))
