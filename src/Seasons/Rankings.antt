-- ===== src/Seasons/Rankings.antt =====
-- The ranks that `calculateRankings` gives.
use renaissance_api.Common.{
  ℕ, zero, suc, ◌+◌, ◌≤◌, ◌≡◌, refl, ap, subst, ◌∙◌, Bool, true, Option, none, some, List, [], ◌∷◌,
  arith, ◌==◌, find_by, save_by, select_by, count_by, take, get_elem?, All, find_by-save_by,
  Bool-cases, inl, inr, ◌⊎◌,
}
use renaissance_api.Common.Sorting.{sort_by, IsSortedBy, sort_by-IsSortedBy, count_by-sort_by}
use renaissance_api.Seasons.{
  SeasonalLeaderboard, SeasonDb, LeaderboardTier, comes_before, is_listed, get_season_leaderboard,
  rank_rows, ranked, calculate_rankings,
}

abbrev pub find_row : ℕ → List SeasonalLeaderboard → Option SeasonalLeaderboard
find_row i = find_by λ r. r.id == i

abbrev pub has_id : ℕ → SeasonalLeaderboard → Bool
has_id i r = r.id == i

-- No two rows have one id, as a count.
abbrev pub HasOneEach : List SeasonalLeaderboard → Type 0
HasOneEach rows = (i : ℕ) → count_by (has_id i) rows ≤ 1

count_by-select_by {ℓ} :
    {A : Type ℓ} (p q : A → Bool) (xs : List A) → count_by p (select_by q xs) ≤ count_by p xs
count_by-select_by p q [] = omega arith
count_by-select_by p q (x ∷ xs) = ground (arith, count_by-select_by p q xs)

count_by-take {ℓ} :
    {A : Type ℓ} (p : A → Bool) (n : ℕ) (xs : List A) → count_by p (take n xs) ≤ count_by p xs
count_by-take p zero xs = omega arith
count_by-take p (suc n) [] = omega arith
count_by-take p (suc n) (x ∷ xs) = ground (arith, count_by-take p n xs)

pub All-take {ℓ κ} :
    {A : Type ℓ} (P : A → Type κ) (n : ℕ) (xs : List A) → All P xs → All P (take n xs)
All-take P zero xs h = tt
All-take P (suc n) [] h = tt
All-take P (suc n) (x ∷ xs) h = (h.0, All-take P n xs h.1)

IsSortedBy-take {ℓ} :
    {A : Type ℓ} (before : A → A → Bool) (n : ℕ) (xs : List A)
    → IsSortedBy before xs
    → IsSortedBy before (take n xs)
IsSortedBy-take before zero xs s = tt
IsSortedBy-take before (suc n) [] s = tt
IsSortedBy-take before (suc n) (x ∷ xs) s =
    (All-take (λ y. before x y ≡ true) n xs s.0, IsSortedBy-take before n xs s.1)

total : (a b : SeasonalLeaderboard) → (comes_before a b ≡ true) ⊎ (comes_before b a ≡ true)
total a b = elim (Bool-cases (comes_before a b)) [ inl e ↦ inl e | inr e ↦ inr (ground (arith, e)) ]

trans :
    (a b c : SeasonalLeaderboard)
    → comes_before a b ≡ true
    → comes_before b c ≡ true
    → comes_before a c ≡ true
trans a b c h k = ground (arith, h, k)

leaderboard-IsSortedBy :
    (season limit : ℕ) (tier : Option LeaderboardTier) (rows : List SeasonalLeaderboard)
    → IsSortedBy comes_before (get_season_leaderboard season limit tier rows)
unfolding get_season_leaderboard
leaderboard-IsSortedBy season limit tier rows =
    IsSortedBy-take comes_before limit
      (sort_by comes_before (select_by (is_listed season tier) rows))
      (sort_by-IsSortedBy comes_before total trans (select_by (is_listed season tier) rows))

leaderboard-HasOneEach :
    (season limit : ℕ) (tier : Option LeaderboardTier) (rows : List SeasonalLeaderboard)
    → HasOneEach rows
    → HasOneEach (get_season_leaderboard season limit tier rows)
unfolding get_season_leaderboard
leaderboard-HasOneEach season limit tier rows one i =
    let listed = select_by (is_listed season tier) rows in
    omega (
      arith,
      one i,
      count_by-select_by (has_id i) (is_listed season tier) rows,
      count_by-sort_by comes_before (has_id i) listed,
      count_by-take (has_id i) limit (sort_by comes_before listed),
    )

-- A row that is not on the list keeps what it has.
unranked :
    (i j : ℕ) (rs rows : List SeasonalLeaderboard)
    → count_by (has_id j) rs ≡ 0
    → find_row j (rank_rows i rs rows) ≡ find_row j rows
unfolding rank_rows
unranked i j [] rows h = refl
unranked i j (r ∷ rs) rows h =
    unranked (i + 1) j rs (save_by (λ x. x.id) (ranked (i + 1) r) rows) (ground (arith, h))
    ∙ ground (arith, h, find_by-save_by (λ x. x.id) (ranked (i + 1) r) j rows)

first_ranked :
    (i : ℕ) (x : SeasonalLeaderboard) (rs rows : List SeasonalLeaderboard)
    → count_by (has_id x.id) (x ∷ rs) ≤ 1
    → find_row x.id (rank_rows i (x ∷ rs) rows) ≡ some (ranked (i + 1) x)
unfolding rank_rows
first_ranked i x rs rows one =
    unranked (i + 1) x.id rs (save_by (λ y. y.id) (ranked (i + 1) x) rows) (ground (arith, one))
    ∙ ground (arith, find_by-save_by (λ y. y.id) (ranked (i + 1) x) x.id rows)

some_injective {ℓ} : {A : Type ℓ} (x y : A) → some x ≡ some y → x ≡ y
some_injective x y h = cc

-- The row at an index gets the rank of the index.
ranked_at :
    (i k : ℕ) (r : SeasonalLeaderboard) (rs rows : List SeasonalLeaderboard)
    → HasOneEach rs
    → get_elem? rs k ≡ some r
    → find_row r.id (rank_rows i rs rows) ≡ some (ranked (i + k + 1) r)
unfolding rank_rows
ranked_at i k r [] rows one h = cc
ranked_at i zero r (x ∷ rs) rows one h =
    subst (λ y. find_row y.id (rank_rows i (x ∷ rs) rows) ≡ some (ranked (i + 0 + 1) y))
      (some_injective x r h)
      (first_ranked i x rs rows (one x.id) ∙ ap (λ n. some (ranked n x)) (omega arith))
ranked_at i (suc k) r (x ∷ rs) rows one h =
    ranked_at (i + 1) k r rs (save_by (λ y. y.id) (ranked (i + 1) x) rows)
      (λ j. omega (arith, one j)) h
    ∙ ap (λ n. some (ranked n r)) (omega arith)

-- The ranks of a season, whose rows have distinct ids, are the places from 1 on of its rows in the
-- order of their points, of which the first 10000 count: the row at a place gets it as its rank and is
-- else as it was, and a row that is not on the list is as it was.
pub calculate_rankings-Ranks :
    (season k j : ℕ) (r : SeasonalLeaderboard) (db : SeasonDb)
    → HasOneEach db.rows
    → get_elem? (get_season_leaderboard season 10000 none db.rows) k ≡ some r
    → count_by (has_id j) (get_season_leaderboard season 10000 none db.rows) ≡ 0
    → let db' = (calculate_rankings season db).1 in
      IsSortedBy comes_before (get_season_leaderboard season 10000 none db.rows)
      × (find_row r.id db'.rows ≡ some (ranked (k + 1) r))
      × (find_row j db'.rows ≡ find_row j db.rows)
      × (db'.seasons ≡ db.seasons)
unfolding calculate_rankings
calculate_rankings-Ranks season k j r db one here off =
    let board = get_season_leaderboard season 10000 none db.rows in
    (
      leaderboard-IsSortedBy season 10000 none db.rows,
      ranked_at 0 k r board db.rows (leaderboard-HasOneEach season 10000 none db.rows one) here
          ∙ ap (λ n. some (ranked n r)) (omega arith),
      unranked 0 j board db.rows off,
      refl,
    )
