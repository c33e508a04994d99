-- ===== src/Seasons/Current.antt =====
-- The seasons over any calls: at most one is in course.
use renaissance_api.Common.{
  ℕ, ◌≤◌, ◌≡◌, refl, sym, subst, true, false, Option, none, List, [], ◌∷◌, map, ◌-◌, ◌*◌, arith,
  select_by, count_by, All, Bool-cases, inl, inr,
}
use renaissance_api.Seasons.{
  Season, SeasonDb, IdSource, CreateSeason, UpdateSeason, find_season, create_season, update_season,
  complete_season, archive_season, reset_season, check_and_reset_seasons, archive_old_seasons,
  is_current, is_over, is_old, or_default,
}
use renaissance_api.Seasons.Dates.{
  span, spans, meets, IsDisjoint, create_season-IsDisjoint, update_season-KeepsDates,
  complete_season-KeepsDates, archive_season-KeepsDates, reset_season-KeepsDates,
  reset_all-KeepsDates, archive_all-KeepsDates,
}

-- What the controller and the timers call, with the time where it counts.
pub data Call : Type 0 where
  create : CreateSeason → Call
  update : ℕ → UpdateSeason → Call
  complete archive : ℕ → Call
  reset : Season → Call
  check_and_reset : ℕ → Call
  archive_old : ℕ → Option ℕ → Call

pub perform : IdSource → Call → SeasonDb → SeasonDb
perform ids (create dto) db = (create_season ids dto db).1
perform ids (update i dto) db = (update_season i dto db).1
perform ids (complete i) db = (complete_season i db).1
perform ids (archive i) db = (archive_season i db).1
perform ids (reset s) db = (reset_season s db).1
perform ids (check_and_reset now) db = (check_and_reset_seasons now db).1
perform ids (archive_old now days) db = (archive_old_seasons now days db).1

pub run : IdSource → List Call → SeasonDb → SeasonDb
run ids [] db = db
run ids (c ∷ cs) db = run ids cs (perform ids c db)

-- An update that sets no end.
abbrev pub LeavesEnd : Call → Type 0
LeavesEnd (update i dto) = dto.end_date ≡ none
LeavesEnd _ = Unit

perform-IsDisjoint :
    (ids : IdSource) (fresh : (xs : List Season) → find_season (ids.season_ids xs) xs ≡ none)
    (c : Call) (db : SeasonDb)
    → LeavesEnd c
    → IsDisjoint (spans db)
    → IsDisjoint (spans (perform ids c db))
unfolding perform check_and_reset_seasons archive_old_seasons
perform-IsDisjoint ids fresh (create dto) db l d =
    create_season-IsDisjoint ids dto db (fresh db.seasons) d
perform-IsDisjoint ids fresh (update i dto) db l d =
    subst IsDisjoint (sym (update_season-KeepsDates i dto l db)) d
perform-IsDisjoint ids fresh (complete i) db l d =
    subst IsDisjoint (sym (complete_season-KeepsDates i db)) d
perform-IsDisjoint ids fresh (archive i) db l d =
    subst IsDisjoint (sym (archive_season-KeepsDates i db)) d
perform-IsDisjoint ids fresh (reset s) db l d =
    subst IsDisjoint (sym (reset_season-KeepsDates s db)) d
perform-IsDisjoint ids fresh (check_and_reset now) db l d =
    subst IsDisjoint (sym (reset_all-KeepsDates (select_by (is_over now) db.seasons) db)) d
perform-IsDisjoint ids fresh (archive_old now days) db l d =
    subst IsDisjoint
      (sym (
        archive_all-KeepsDates (select_by (is_old (now - or_default days 90 * 86400000)) db.seasons)
          db))
      d

-- A time that one of two disjoint seasons covers, the other does not.
none_current :
    (now : ℕ) (s : Season) (xs : List Season)
    → is_current now s ≡ true
    → All (λ b. meets (span s) b ≡ false) (map span xs)
    → count_by (is_current now) xs ≡ 0
none_current now s [] h all = refl
none_current now s (x ∷ xs) h all = ground (arith, none_current now s xs h all.1, all.0)

one_current :
    (now : ℕ) (xs : List Season) → IsDisjoint (map span xs) → count_by (is_current now) xs ≤ 1
one_current now [] d = omega arith
one_current now (x ∷ xs) d = elim (Bool-cases (is_current now x)) [
  | inl e ↦ rw e (omega (arith, none_current now x xs e d.1))
  | inr e ↦ rw e (omega (arith, one_current now xs d.2))
]

run-IsDisjoint :
    (ids : IdSource) (fresh : (xs : List Season) → find_season (ids.season_ids xs) xs ≡ none)
    (cs : List Call) (db : SeasonDb)
    → All LeavesEnd cs
    → IsDisjoint (spans db)
    → IsDisjoint (spans (run ids cs db))
unfolding run
run-IsDisjoint ids fresh [] db l d = d
run-IsDisjoint ids fresh (c ∷ cs) db l d =
    run-IsDisjoint ids fresh cs (perform ids c db) l.1 (perform-IsDisjoint ids fresh c db l.0 d)

-- From seasons of which each begins before it ends and no two overlap, any calls that create, change,
-- complete, archive and reset seasons, of which no update sets an end, lead to such seasons, and at
-- each time at most one of them is in course; new seasons get fresh ids.
pub run-OneCurrent :
    (ids : IdSource) (fresh : (xs : List Season) → find_season (ids.season_ids xs) xs ≡ none)
    (cs : List Call) (now : ℕ) (db : SeasonDb)
    → All LeavesEnd cs
    → IsDisjoint (spans db)
    → IsDisjoint (spans (run ids cs db)) × (count_by (is_current now) (run ids cs db).seasons ≤ 1)
run-OneCurrent ids fresh cs now db l d =
    let d' = run-IsDisjoint ids fresh cs db l d in (d', one_current now (run ids cs db).seasons d')
