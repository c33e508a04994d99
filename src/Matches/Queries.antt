-- ===== src/Matches/Queries.antt =====
-- backend/src/matches/matches.service.ts: the lists of matches. The SQL pattern match `ILIKE` of a
-- text in a name is the parameter `like`.
use renaissance_api.Common.{
  ℕ, ◌+◌, ◌-◌, ◌*◌, ◌/◌, Bool, true, false, Option, none, some, List, [], ◌∷◌, ◌&&◌, ◌||◌, ltb, leb,
  ◌==◌, if◌then◌else◌, select_by, take, drop, length,
}
use renaissance_api.Common.Action.{◌>>=◌, ◌>>◌, pure, gets, raise_if}
use renaissance_api.Bets.{MatchStatus, upcoming, live, finished, match_cancelled, postponed}
use renaissance_api.Matches.{Match, MatchAction, bad_page, bad_limit}

pub record MatchFilters : Type 0 where
  pub status : Option MatchStatus
  pub league : Option ℕ
  pub season : Option ℕ
  pub home_team : Option ℕ
  pub away_team : Option ℕ
  pub start_time_from : Option ℕ
  pub start_time_to : Option ℕ

pub record PaginatedMatches : Type 0 where
  pub page_rows : List Match
  pub total : ℕ
  pub page : ℕ
  pub limit : ℕ
  pub total_pages : ℕ

abbrev pub no_filters : MatchFilters
no_filters = record {
  status = none;
  league = none;
  season = none;
  home_team = none;
  away_team = none;
  start_time_from = none;
  start_time_to = none;
}

abbrev pub same_status : MatchStatus → MatchStatus → Bool
same_status upcoming upcoming = true
same_status live live = true
same_status finished finished = true
same_status match_cancelled match_cancelled = true
same_status postponed postponed = true
same_status _ _ = false

-- A condition that is added if the filter is given.
abbrev pub where_given {ℓ} : {A : Type ℓ} → Option A → (A → Bool) → Bool
where_given none test = true
where_given (some a) test = test a

-- An empty text, 0, is as none.
abbrev pub where_text : Option ℕ → (ℕ → Bool) → Bool
where_text none test = true
where_text (some a) test = a == 0 || test a

abbrev pub is_text : ℕ → Option ℕ → Bool
is_text a none = false
is_text a (some b) = b == a

-- `orderBy('match.startTime', 'ASC')`
abbrev pub insert_by_start : Match → List Match → List Match
insert_by_start m [] = m ∷ []
insert_by_start m (x ∷ xs) =
    if leb m.start_time x.start_time then m ∷ x ∷ xs else x ∷ insert_by_start m xs

abbrev pub sort_by_start : List Match → List Match
sort_by_start [] = []
sort_by_start (m ∷ ms) = insert_by_start m (sort_by_start ms)

module _ (like : ℕ → ℕ → Bool) where
  abbrev pub passes_filters : MatchFilters → Match → Bool
  passes_filters f m =
      where_given f.status (λ s. same_status m.status s)
      && (where_text f.league (λ t. is_text t m.league)
          && (where_text f.season (λ t. is_text t m.season)
              && (where_text f.home_team (λ t. like t m.home_team)
                  && (where_text f.away_team (λ t. like t m.away_team)
                      && (where_given f.start_time_from (λ t. leb t m.start_time)
                          && where_given f.start_time_to (λ t. leb m.start_time t))))))

  abbrev pub page_of : ℕ → ℕ → List Match → PaginatedMatches
  page_of page limit rows = record {
    page_rows = take limit (drop ((page - 1) * limit) (sort_by_start rows));
    total = length rows;
    page = page;
    limit = limit;
    total_pages = (length rows + (limit - 1)) / limit;
  }

  unfoldable pub get_matches : ℕ → ℕ → MatchFilters → MatchAction PaginatedMatches
  get_matches page limit filters = do
    raise_if (ltb page 1) bad_page
    raise_if (ltb limit 1 || ltb 100 limit) bad_limit
    gets (λ db. page_of page limit (select_by (passes_filters filters) db.matches))

  unfoldable pub get_upcoming_matches : ℕ → ℕ → ℕ → MatchAction PaginatedMatches
  unfolding get_matches
  get_upcoming_matches now page limit =
      get_matches page limit
        (record no_filters { status = some upcoming; start_time_from = some now })

  unfoldable pub get_live_matches : MatchAction (List Match)
  unfolding get_matches
  get_live_matches = do
    result ← get_matches 1 100 (record no_filters { status = some live })
    pure result.page_rows

  unfoldable pub get_finished_matches : ℕ → ℕ → MatchAction PaginatedMatches
  unfolding get_matches
  get_finished_matches page limit =
      get_matches page limit (record no_filters { status = some finished })
