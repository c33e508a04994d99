-- ===== src/Bets/Batch.antt =====
-- The bets of a match as the batches of a settlement see them: what is selected, what the saved
-- rows amount to, and what is left.
use renaissance_api.Common.{
  ℕ, zero, suc, ◌≡◌, refl, sym, ap, ◌∙◌, ◌≢◌, Bool, true, false, none, List, [], ◌∷◌, arith, eq→==,
  if◌then◌else◌, select_by, save_by, take, drop, UniqueBy, All, Bool-cases, inl, inr,
}
use renaissance_api.Bets.{Bet, MatchOutcome, selected, settled_bet, find_bet}

abbrev pub put : Bet → List Bet → List Bet
put = save_by (λ x. x.id)

abbrev pub UniqueIds : List Bet → Type 0
UniqueIds = UniqueBy (λ x. x.id)

-- The rows of `bs` saved one after the other.
unfoldable pub put_all : List Bet → List Bet → List Bet
put_all [] rows = rows
put_all (b ∷ bs) rows = put_all bs (put b rows)

abbrev pub HasOtherId : ℕ → Bet → Type 0
HasOtherId i b = b.id ≢ i

put_all-cons :
    (x : Bet) (bs rows : List Bet)
    → All (HasOtherId x.id) bs
    → put_all bs (x ∷ rows) ≡ x ∷ put_all bs rows
unfolding put_all
put_all-cons x [] rows h = refl
put_all-cons x (b ∷ bs) rows h = ground (arith, put_all-cons x bs (put b rows) h.1)

-- The rows that a batch saves.
abbrev pub settled_rows : ℕ → Bool → List Bet → List Bet
settled_rows now w [] = []
settled_rows now w (b ∷ bs) = settled_bet now w b ∷ settled_rows now w bs

module _ (m : ℕ) (outcome : MatchOutcome) (w : Bool) (now : ℕ) where
  -- The selected bets settled: the first `n` of them, and all.
  pub settle_first : ℕ → List Bet → List Bet
  settle_first n [] = []
  settle_first zero (b ∷ bs) = b ∷ bs
  settle_first (suc n) (b ∷ bs) = elim (selected m outcome w b) [
    | true ↦ settled_bet now w b ∷ settle_first n bs
    | false ↦ b ∷ settle_first (suc n) bs
  ]

  unfoldable pub settle_all : List Bet → List Bet
  settle_all [] = []
  settle_all (b ∷ bs) = (if selected m outcome w b then settled_bet now w b else b) ∷ settle_all bs

  abbrev pub chosen : List Bet → List Bet
  chosen = select_by (selected m outcome w)

  ids-other :
      (i n : ℕ) (bs : List Bet)
      → find_bet i bs ≡ none
      → All (HasOtherId i) (settled_rows now w (take n (chosen bs)))
  ids-other i zero bs h = tt
  ids-other i (suc n) [] h = tt
  ids-other i (suc n) (b ∷ bs) h = elim (Bool-cases (selected m outcome w b)) [
    | inl e ↦ rw (e, chosen) (ground arith, ids-other i n bs (ground arith))
    | inr e ↦ rw (e, chosen) (ids-other i (suc n) bs (ground arith))
  ]

  module _ (n : ℕ) (b : Bet) (bs : List Bet) where
    chosen-hit : selected m outcome w b ≡ true → chosen (b ∷ bs) ≡ b ∷ chosen bs
    chosen-hit e = ap (λ c. if c then b ∷ chosen bs else chosen bs) e

    chosen-miss : selected m outcome w b ≡ false → chosen (b ∷ bs) ≡ chosen bs
    chosen-miss e = ap (λ c. if c then b ∷ chosen bs else chosen bs) e

    first-hit :
        selected m outcome w b ≡ true
        → settle_first (suc n) (b ∷ bs) ≡ settled_bet now w b ∷ settle_first n bs
    unfolding settle_first
    first-hit e =
        ap
          (λ c.
            let r : List Bet = elim c [
              | true ↦ settled_bet now w b ∷ settle_first n bs
              | false ↦ b ∷ settle_first (suc n) bs
            ] in
            r)
          e

    first-miss :
        selected m outcome w b ≡ false → settle_first (suc n) (b ∷ bs) ≡ b ∷ settle_first (suc n) bs
    unfolding settle_first
    first-miss e =
        ap
          (λ c.
            let r : List Bet = elim c [
              | true ↦ settled_bet now w b ∷ settle_first n bs
              | false ↦ b ∷ settle_first (suc n) bs
            ] in
            r)
          e

    put_all-hit :
        find_bet b.id bs ≡ none
        → put_all (settled_rows now w (take (suc n) (b ∷ chosen bs))) (b ∷ bs)
          ≡ settled_bet now w b ∷ put_all (settled_rows now w (take n (chosen bs))) bs
    unfolding put_all
    put_all-hit h =
        ap
          (λ c.
            put_all (settled_rows now w (take n (chosen bs)))
              (if c then settled_bet now w b ∷ bs else b ∷ put (settled_bet now w b) bs))
          (eq→== b.id b.id refl)
        ∙ put_all-cons (settled_bet now w b) (settled_rows now w (take n (chosen bs))) bs
            (ids-other b.id n bs h)

    put_all-miss :
        find_bet b.id bs ≡ none
        → put_all (settled_rows now w (take (suc n) (chosen bs))) (b ∷ bs)
          ≡ b ∷ put_all (settled_rows now w (take (suc n) (chosen bs))) bs
    put_all-miss h =
        put_all-cons b (settled_rows now w (take (suc n) (chosen bs))) bs
          (ids-other b.id (suc n) bs h)

  -- Saving the first `n` chosen bets, settled, settles them in the table.
  pub put_all-settle_first :
      (n : ℕ) (bs : List Bet)
      → UniqueIds bs
      → put_all (settled_rows now w (take n (chosen bs))) bs ≡ settle_first n bs
  put_all-settle_first zero [] u = unfold put_all settle_first in refl
  put_all-settle_first zero (b ∷ bs) u = unfold put_all settle_first in refl
  put_all-settle_first (suc n) [] u = unfold put_all settle_first in refl
  put_all-settle_first (suc n) (b ∷ bs) u = elim (Bool-cases (selected m outcome w b)) [
    | inl e ↦
        ap (λ l. put_all (settled_rows now w (take (suc n) l)) (b ∷ bs)) (chosen-hit n b bs e)
        ∙ put_all-hit n b bs u.0
        ∙ ap (λ l. settled_bet now w b ∷ l) (put_all-settle_first n bs u.1)
        ∙ sym (first-hit n b bs e)
    | inr e ↦
        ap (λ l. put_all (settled_rows now w (take (suc n) l)) (b ∷ bs)) (chosen-miss n b bs e)
        ∙ put_all-miss n b bs u.0
        ∙ ap (λ l. b ∷ l) (put_all-settle_first (suc n) bs u.1)
        ∙ sym (first-miss n b bs e)
  ]

  settled_bet-not-selected : (b : Bet) → selected m outcome w (settled_bet now w b) ≡ false
  settled_bet-not-selected b = ground arith

  -- What is chosen after a batch is what the batch left.
  pub chosen-settle_first :
      (n : ℕ) (bs : List Bet) → chosen (settle_first n bs) ≡ drop n (chosen bs)
  chosen-settle_first zero [] = unfold settle_first in refl
  chosen-settle_first (suc n) [] = unfold settle_first in refl
  chosen-settle_first zero (b ∷ bs) = unfold settle_first in refl
  chosen-settle_first (suc n) (b ∷ bs) = elim (Bool-cases (selected m outcome w b)) [
    | inl e ↦
        ap chosen (first-hit n b bs e)
        ∙ chosen-miss n (settled_bet now w b) (settle_first n bs) (settled_bet-not-selected b)
        ∙ chosen-settle_first n bs
        ∙ ap (drop (suc n)) (sym (chosen-hit n b bs e))
    | inr e ↦
        ap chosen (first-miss n b bs e)
        ∙ chosen-miss n b (settle_first (suc n) bs) e
        ∙ chosen-settle_first (suc n) bs
        ∙ ap (drop (suc n)) (sym (chosen-miss n b bs e))
  ]

  pub settle_all-settle_first :
      (n : ℕ) (bs : List Bet) → settle_all (settle_first n bs) ≡ settle_all bs
  unfolding settle_first settle_all
  settle_all-settle_first n [] = refl
  settle_all-settle_first zero (b ∷ bs) = refl
  settle_all-settle_first (suc n) (b ∷ bs) =
      ground (arith, settle_all-settle_first n bs, settle_all-settle_first (suc n) bs)

  pub settle_all-none : (bs : List Bet) → chosen bs ≡ [] → settle_all bs ≡ bs
  unfolding settle_all
  settle_all-none [] h = refl
  settle_all-none (b ∷ bs) h = ground (arith, settle_all-none bs)

  find_bet-settle_first :
      (i n : ℕ) (bs : List Bet) → find_bet i bs ≡ none → find_bet i (settle_first n bs) ≡ none
  unfolding settle_first
  find_bet-settle_first i n [] h = refl
  find_bet-settle_first i zero (b ∷ bs) h = h
  find_bet-settle_first i (suc n) (b ∷ bs) h =
      ground (arith, find_bet-settle_first i n bs, find_bet-settle_first i (suc n) bs)

  pub settle_first-UniqueIds :
      (n : ℕ) (bs : List Bet) → UniqueIds bs → UniqueIds (settle_first n bs)
  unfolding settle_first
  settle_first-UniqueIds n [] u = tt
  settle_first-UniqueIds zero (b ∷ bs) u = u
  settle_first-UniqueIds (suc n) (b ∷ bs) u = ground (
    arith,
    settle_first-UniqueIds n bs u.1,
    settle_first-UniqueIds (suc n) bs u.1,
    find_bet-settle_first b.id n bs u.0,
    find_bet-settle_first b.id (suc n) bs u.0,
  )
