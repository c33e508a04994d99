-- ===== src/Bets/Locked.antt =====
-- A batch of a settlement as it is read again under its locks: it is the batch that was loaded.
use renaissance_api.Common.{
  ℕ, zero, suc, ◌≡◌, refl, sym, ap, subst, Bool, true, none, some, List, [], ◌∷◌, arith, eq→==,
  if◌then◌else◌, select_by, take, All, Bool-cases, inl, inr,
}
use renaissance_api.Bets.Batch.{UniqueIds}
use renaissance_api.Bets.{
  Bet, MatchOutcome, same_outcome, is_pending, selected, find_bet, contains_id, locked_bets,
  keep_found, ordered_bets,
}

-- The re-read of the batch under its locks finds the batch.
locked-finds :
    (batch : List Bet) (b : Bet) (rows : List Bet)
    → find_bet b.id rows ≡ some b
    → is_pending b.status ≡ true
    → contains_id b.id batch ≡ true
    → find_bet b.id (locked_bets batch rows) ≡ some b
locked-finds batch b [] f p c = cc
locked-finds batch b (x ∷ xs) f p c = ground (arith, locked-finds batch b xs, eq→== b.id b.id refl)

-- A row of the table that is pending.
abbrev pub IsStored : List Bet → Bet → Type 0
IsStored rows b = (find_bet b.id rows ≡ some b) × (is_pending b.status ≡ true)

ordered_from :
    (batch rows bs : List Bet)
    → All (IsStored rows) bs
    → All (λ b. contains_id b.id batch ≡ true) bs
    → ordered_bets (locked_bets batch rows) bs ≡ bs
ordered_from batch rows [] s c = refl
ordered_from batch rows (b ∷ bs) s c =
    rw (locked-finds batch b rows s.0.0 s.0.1 c.0, keep_found)
      (ap (λ l. b ∷ l) (ordered_from batch rows bs s.1 c.1))

contains-weaken :
    (x : Bet) (batch bs : List Bet)
    → All (λ b. contains_id b.id batch ≡ true) bs
    → All (λ b. contains_id b.id (x ∷ batch) ≡ true) bs
contains-weaken x batch [] h = tt
contains-weaken x batch (b ∷ bs) h = (ground arith, contains-weaken x batch bs h.1)

contains_id-All : (bs : List Bet) → All (λ b. contains_id b.id bs ≡ true) bs
contains_id-All [] = tt
contains_id-All (b ∷ bs) =
    (ground (arith, eq→== b.id b.id refl), contains-weaken b bs bs (contains_id-All bs))

ordered-locked :
    (rows bs : List Bet) → All (IsStored rows) bs → ordered_bets (locked_bets bs rows) bs ≡ bs
ordered-locked rows bs s = ordered_from bs rows bs s (contains_id-All bs)

-- The chosen bets of a table with distinct ids are stored and pending, and the rest of the table
-- does not matter.
stored-below :
    (x : Bet) (rows bs : List Bet)
    → find_bet x.id bs ≡ none
    → All (λ b. find_bet b.id bs ≡ some b) rows
    → All (λ b. find_bet b.id (x ∷ bs) ≡ some b) rows
stored-below x [] bs u h = tt
stored-below x (b ∷ rows) bs u h = (ground arith, stored-below x rows bs u h.1)

find_bet-All : (bs : List Bet) → UniqueIds bs → All (λ b. find_bet b.id bs ≡ some b) bs
find_bet-All [] u = tt
find_bet-All (b ∷ bs) u =
    (ground (arith, eq→== b.id b.id refl), stored-below b bs bs u.0 (find_bet-All bs u.1))

-- A bet that a batch settles: stored, pending, and won or lost as the batch asks.
abbrev pub IsDue : MatchOutcome → Bool → List Bet → Bet → Type 0
IsDue outcome w rows b = IsStored rows b × (same_outcome b.predicted_outcome outcome ≡ w)

selected_parts :
    (m : ℕ) (outcome : MatchOutcome) (w : Bool) (b : Bet)
    → selected m outcome w b ≡ true
    → (is_pending b.status ≡ true) × (same_outcome b.predicted_outcome outcome ≡ w)
selected_parts m outcome w b e = ground arith

chosen-IsDue_from :
    (m : ℕ) (outcome : MatchOutcome) (w : Bool) (rows bs : List Bet)
    → All (λ b. find_bet b.id rows ≡ some b) bs
    → All (IsDue outcome w rows) (select_by (selected m outcome w) bs)
chosen-IsDue_from m outcome w rows [] h = tt
chosen-IsDue_from m outcome w rows (b ∷ bs) h =
    let rest = select_by (selected m outcome w) bs in
    let ih = chosen-IsDue_from m outcome w rows bs h.1 in
    elim (Bool-cases (selected m outcome w b)) [
      | inl e ↦
          let (p, o) = selected_parts m outcome w b e in
          subst (λ c. All (IsDue outcome w rows) (if c then b ∷ rest else rest)) (sym e)
            (((h.0, p), o), ih)
      | inr e ↦ subst (λ c. All (IsDue outcome w rows) (if c then b ∷ rest else rest)) (sym e) ih
    ]

take-All : (P : Bet → Type 0) (n : ℕ) (bs : List Bet) → All P bs → All P (take n bs)
take-All P zero bs h = tt
take-All P (suc n) [] h = tt
take-All P (suc n) (b ∷ bs) h = (h.0, take-All P n bs h.1)

-- Every bet of a batch is due, in a table with distinct ids.
pub batch-IsDue :
    (m : ℕ) (outcome : MatchOutcome) (w : Bool) (n : ℕ) (rows : List Bet)
    → UniqueIds rows
    → All (IsDue outcome w rows) (take n (select_by (selected m outcome w) rows))
batch-IsDue m outcome w n rows u =
    take-All (IsDue outcome w rows) n (select_by (selected m outcome w) rows)
      (chosen-IsDue_from m outcome w rows rows (find_bet-All rows u))

-- The re-read leaves a batch of due bets as it is.
pub ordered-batch :
    (outcome : MatchOutcome) (w : Bool) (rows bs : List Bet)
    → All (IsDue outcome w rows) bs
    → ordered_bets (locked_bets bs rows) bs ≡ bs
ordered-batch outcome w rows bs h = ordered-locked rows bs (forget bs h)
  where
    forget : (cs : List Bet) → All (IsDue outcome w rows) cs → All (IsStored rows) cs
    forget [] d = tt
    forget (c ∷ cs) d = (d.0.0, forget cs d.1)
