-- ===== src/Seasons/Dates.antt =====
-- Which calls keep the dates of the seasons, and that a new season overlaps with none.
use renaissance_api.Common.{
  ℕ, ◌<◌, ◌≡◌, refl, sym, ap, subst, ◌∙◌, Bool, true, false, none, some, List, [], ◌∷◌, ◌++◌, map,
  ==→eq, ◌&&◌, arith, ltb, leb, ◌==◌, if◌then◌else◌, find_by, save_by, All, find_by_sound,
  Bool-cases, inl, inr,
}
use renaissance_api.Common.Action.{
  Result, ◌>>=◌, ◌>>◌, raise_if, gets, missing-or, refused-or, bind-Stays,
}
use renaissance_api.Seasons.{
  Season, SeasonDb, SeasonAction, completed, archived, Error, IdSource, CreateSeason, UpdateSeason,
  find_season, is_some, overlaps, has_name, new_season, save_named, save_season, assigned,
  create_season, update_season, complete_season, archive_season, calculate_rankings, reset_season,
  reset_all, archive_all, bad_dates, overlapping, name_taken, season_not_found, or_default,
  get_season_by_id, add_season,
}

true-ne-false : true ≡ false → ⊥
true-ne-false h = cc

-- When a season begins and ends.
abbrev pub Span : Type 0
Span = ℕ × ℕ

abbrev pub span : Season → Span
span s = (s.start_date, s.end_date)

abbrev pub spans : SeasonDb → List Span
spans db = map span db.seasons

abbrev pub meets : Span → Span → Bool
meets a b = ltb a.0 b.1 && ltb b.0 a.1

-- Each begins before it ends, and no two have a time in common.
abbrev pub IsDisjoint : List Span → Type 0
IsDisjoint [] = Unit
IsDisjoint (a ∷ rest) = (a.0 < a.1) × All (λ b. meets a b ≡ false) rest × IsDisjoint rest

All-snoc :
    (a x : Span) (xs : List Span)
    → All (λ b. meets a b ≡ false) xs
    → meets a x ≡ false
    → All (λ b. meets a b ≡ false) (xs ++ x ∷ [])
All-snoc a x [] all h = (h, tt)
All-snoc a x (y ∷ xs) all h = (all.0, All-snoc a x xs all.1 h)

IsDisjoint-snoc :
    (x : Span) (xs : List Span)
    → x.0 < x.1
    → All (λ b. meets b x ≡ false) xs
    → IsDisjoint xs
    → IsDisjoint (xs ++ x ∷ [])
IsDisjoint-snoc x [] h all d = (h, tt, tt)
IsDisjoint-snoc x (y ∷ xs) h all d =
    (d.0, All-snoc y x xs d.1 all.0, IsDisjoint-snoc x xs h all.1 d.2)

-- A saved row that has the dates of the one it replaces changes no dates.
save-spans :
    (s s' : Season) (xs : List Season)
    → find_season s.id xs ≡ some s'
    → span s ≡ span s'
    → map span (save_by (λ x. x.id) s xs) ≡ map span xs
save-spans s s' [] h e = cc
save-spans s s' (x ∷ xs) h e = ground (arith, save-spans s s' xs)

save_new-spans :
    (s : Season) (xs : List Season)
    → find_season s.id xs ≡ none
    → map span (save_by (λ x. x.id) s xs) ≡ map span xs ++ span s ∷ []
save_new-spans s [] h = refl
save_new-spans s (x ∷ xs) h = ground (arith, save_new-spans s xs)

none_overlap :
    (i : ℕ) (dto : CreateSeason) (xs : List Season)
    → is_some (find_by (overlaps dto) xs) ≡ false
    → All (λ b. meets b (span (new_season i dto)) ≡ false) (map span xs)
none_overlap i dto [] h = tt
none_overlap i dto (x ∷ xs) h = elim (Bool-cases (overlaps dto x)) [
  | inl e ↦
      elim (true-ne-false
        (sym (ap is_some (ap (λ c. if c then some x else find_by (overlaps dto) xs) e)) ∙ h)) [ ]
  | inr e ↦ (
    e,
    none_overlap i dto xs
        (sym (ap is_some (ap (λ c. if c then some x else find_by (overlaps dto) xs) e)) ∙ h),
  )
]

-- What does not touch the dates.
abbrev KeepsDates : {A : Type 0} → SeasonAction A → Type 0
KeepsDates m = (db : SeasonDb) → spans (m db).1 ≡ spans db

bind-KeepsDates :
    {A B : Type 0} (m : SeasonAction A) (f : A → SeasonAction B)
    → KeepsDates m
    → ((a : A) → KeepsDates (f a))
    → KeepsDates (m >>= f)
bind-KeepsDates m f km kf db =
    bind-Stays (λ db'. spans db' ≡ spans db) m f db (km db) λ a db' same. kf a db' ∙ same

-- A season that is found and saved with its dates.
resaved :
    (i : ℕ) (change : Season → Season) (db : SeasonDb)
    → ((s : Season) → (span (change s) ≡ span s) × ((change s).id ≡ s.id))
    → spans ((get_season_by_id i >>= λ s. save_season (change s)) db).1 ≡ spans db
unfolding get_season_by_id
resaved i change db same =
    missing-or (λ r. spans r.1 ≡ spans db) db (find_season i db.seasons) season_not_found
      (λ s. save_season (change s)) (λ gone. refl)
      λ s here.
        let own = find_by_sound (λ x. x.id == i) db.seasons s here in
        let (dates, same_id) = same s in
        save-spans (change s) s db.seasons
          (subst (λ j. find_season j db.seasons ≡ some s) (ground (arith, own, same_id)) here) dates

pub complete_season-KeepsDates : (i : ℕ) → KeepsDates (complete_season i)
unfolding complete_season
complete_season-KeepsDates i db =
    resaved i (λ s. record s { status = completed }) db λ s. (refl, refl)

pub archive_season-KeepsDates : (i : ℕ) → KeepsDates (archive_season i)
unfolding archive_season
archive_season-KeepsDates i db =
    resaved i (λ s. record s { status = archived }) db λ s. (refl, refl)

pub reset_season-KeepsDates : (s : Season) → KeepsDates (reset_season s)
unfolding reset_season calculate_rankings
reset_season-KeepsDates s db =
    bind-KeepsDates (calculate_rankings s.id) (λ _. complete_season s.id) (λ db'. refl)
      (λ a. complete_season-KeepsDates s.id) db

pub reset_all-KeepsDates : (ss : List Season) → KeepsDates (reset_all ss)
unfolding reset_all
reset_all-KeepsDates [] db = refl
reset_all-KeepsDates (s ∷ ss) db =
    bind-KeepsDates (reset_season s) (λ _. reset_all ss) (reset_season-KeepsDates s)
      (λ a. reset_all-KeepsDates ss) db

pub archive_all-KeepsDates : (ss : List Season) → KeepsDates (archive_all ss)
unfolding archive_all
archive_all-KeepsDates [] db = refl
archive_all-KeepsDates (s ∷ ss) db =
    bind-KeepsDates (archive_season s.id) (λ _. archive_all ss) (archive_season-KeepsDates s.id)
      (λ a. archive_all-KeepsDates ss) db

-- A new season overlaps with none.
pub create_season-IsDisjoint :
    (ids : IdSource) (dto : CreateSeason) (db : SeasonDb)
    → find_season (ids.season_ids db.seasons) db.seasons ≡ none
    → IsDisjoint (spans db)
    → IsDisjoint (spans (create_season ids dto db).1)
unfolding create_season
create_season-IsDisjoint ids dto db fresh d =
    let P = λ (r : Result Error Season × SeasonDb). IsDisjoint (spans r.1) in
    let s = new_season (ids.season_ids db.seasons) dto in
    let overlap = is_some (find_by (overlaps dto) db.seasons) in
    let taken = is_some (find_by (has_name s.id s.name) db.seasons) in
    refused-or P db (leb dto.end_date dto.start_date) bad_dates
      (gets (λ x. is_some (find_by (overlaps dto) x.seasons)) >>= λ o.
        raise_if o overlapping >> add_season ids dto)
      (λ bad. d)
      λ ordered.
        refused-or P db overlap overlapping (add_season ids dto) (λ met. d)
          λ apart.
            refused-or P db taken name_taken (save_season s) (λ named. d)
              λ new. subst IsDisjoint (sym (save_new-spans s db.seasons fresh)) (
                IsDisjoint-snoc (span s) (spans db) (ground (arith, ordered))
                  (none_overlap s.id dto db.seasons apart) d)

pub update_season-KeepsDates :
    (i : ℕ) (dto : UpdateSeason) → dto.end_date ≡ none → KeepsDates (update_season i dto)
unfolding update_season
update_season-KeepsDates i dto kept db =
    missing-or (λ r. spans r.1 ≡ spans db) db (find_season i db.seasons) season_not_found
      (λ s. save_named (assigned dto s)) (λ gone. refl)
      λ s here.
        let s' = assigned dto s in
        let own = ==→eq s.id i (find_by_sound (λ x. x.id == i) db.seasons s here) in
        refused-or (λ r. spans r.1 ≡ spans db) db
          (is_some (find_by (has_name s'.id s'.name) db.seasons)) name_taken (save_season s')
          (λ named. refl)
          λ free.
            save-spans s' s db.seasons
              (subst (λ j. find_season j db.seasons ≡ some s) (sym own) here)
              (ap (λ e. (s.start_date, or_default e s.end_date)) kept)
