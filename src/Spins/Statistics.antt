-- ===== src/Spins/Statistics.antt =====
-- The statistics and the history of backend/src/spin/spin.service.ts.
use renaissance_api.Common.{◌+◌, ◌≡◌, refl, ap, ◌∙◌, List, [], ◌∷◌, arith, length, count_by}
use renaissance_api.Common.Int.{ℤ, ◌+ℤ◌, ◌-ℤ◌, int_laws}
use renaissance_api.Spins.{
  Spin, SpinDb, jackpot, high_win, medium_win, small_win, no_win, same_outcome, sum_by,
  get_spin_statistics, to_result,
}

counts_partition :
    (ss : List Spin)
    → count_by (λ s. same_outcome s.outcome jackpot) ss
        + count_by (λ s. same_outcome s.outcome high_win) ss
        + count_by (λ s. same_outcome s.outcome medium_win) ss
        + count_by (λ s. same_outcome s.outcome small_win) ss
        + count_by (λ s. same_outcome s.outcome no_win) ss
      ≡ length ss
counts_partition [] = refl
counts_partition (s ∷ ss) = grind (arith, counts_partition ss)

sub_sums : (a b c d : ℤ) → (a +ℤ b) -ℤ (c +ℤ d) ≡ (a -ℤ c) +ℤ (b -ℤ d)
sub_sums a b c d = omega int_laws

sums_net :
    (ss : List Spin)
    → sum_by (λ s. s.payout_amount) ss -ℤ sum_by (λ s. s.stake_amount) ss
      ≡ sum_by (λ s. (to_result s).net_result) ss
sums_net [] = omega int_laws
sums_net (s ∷ ss) =
    sub_sums s.payout_amount (sum_by (λ x. x.payout_amount) ss) s.stake_amount
      (sum_by (λ x. x.stake_amount) ss)
    ∙ ap (λ z. (s.payout_amount -ℤ s.stake_amount) +ℤ z) (sums_net ss)

-- The statistics agree with the spins: the counts of the five outcomes add up to the number of
-- spins, and what was paid out less what was staked is the sum of the net results of the answers.
pub spin_stats_partition :
    (db : SpinDb)
    → let stats = get_spin_statistics db in
      (stats.outcome_counts jackpot
          + stats.outcome_counts high_win
          + stats.outcome_counts medium_win
          + stats.outcome_counts small_win
          + stats.outcome_counts no_win
        ≡ stats.total_spins)
      × (stats.total_paid_out -ℤ stats.total_staked
          ≡ sum_by (λ s. (to_result s).net_result) db.spins)
unfolding get_spin_statistics
spin_stats_partition db = (counts_partition db.spins, sums_net db.spins)
