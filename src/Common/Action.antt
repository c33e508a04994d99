-- ===== src/Common/Action.antt =====
-- A service method: it reads and writes the database and may throw. What was written before a
-- throw stays written, unless a transaction rolls it back.
use mathlib.Core.Path.{◌≡◌, refl, sym, subst}
use mathlib.Core.Bool.{Bool, true, false}
use mathlib.Core.Option.{Option, none, some}

pub data Result (E A : Type 0) : Type 0 where
  ok : A → Result E A
  err : E → Result E A

abbrev pub Action : Type 0 → Type 0 → Type 0 → Type 0
Action E S A = S → Result E A × S

module _ {E S A : Type 0} where
  abbrev pub pure : A → Action E S A
  pure a s = (ok a, s)

  abbrev pub raise : E → Action E S A
  raise e s = (err e, s)

  abbrev pub gets : (S → A) → Action E S A
  gets f s = (ok (f s), s)

  abbrev pub or_raise : Option A → E → Action E S A
  or_raise none e = raise e
  or_raise (some a) _ = pure a

  -- `startTransaction`, then `commitTransaction`, or `rollbackTransaction` and the throw again.
  abbrev pub in_transaction : Action E S A → Action E S A
  in_transaction m s = let (r, s') = m s in elim r [ ok a ↦ (ok a, s') | err e ↦ (err e, s) ]

infixl 5 ◌>>=◌ ◌>>◌
abbrev pub ◌>>=◌ : {E S A B : Type 0} → Action E S A → (A → Action E S B) → Action E S B
◌>>=◌ m f s = let (r, s') = m s in elim r [ ok a ↦ f a s' | err e ↦ (err e, s') ]

abbrev pub ◌>>◌ : {E S A B : Type 0} → Action E S A → Action E S B → Action E S B
m >> k = m >>= λ _. k

module _ {E S : Type 0} where
  abbrev pub raise_if : Bool → E → Action E S (Unit {0})
  raise_if true e s = (err e, s)
  raise_if false e s = (ok tt, s)

  abbrev pub modify : (S → S) → Action E S (Unit {0})
  modify f s = (ok tt, f s)

-- What succeeds behind a check has passed it.
pub raise_if_ok :
    {E S A : Type 0} (c : Bool) (e : E) (m : Action E S A) (s : S) (a : A) (s' : S)
    → (raise_if c e >> m) s ≡ (ok a, s')
    → (c ≡ false) × (m s ≡ (ok a, s'))
raise_if_ok true e m s a s' h = cc
raise_if_ok false e m s a s' h = (refl, h)

-- What holds of an action's result, by its checks: of the throw, and of what follows.
module _ {E S B : Type 0} (P : Result E B × S → Type 0) (s : S) where
  pub found-or :
      {A : Type 0} (o : Option A) (e : E) (k : A → Action E S B)
      → P (err e, s)
      → ((a : A) → o ≡ some a → P (k a s))
      → P ((or_raise o e >>= k) s)
  found-or none e k f g = f
  found-or (some a) e k f g = g a refl

  -- The same, where the throw is told by what is missing.
  pub missing-or :
      {A : Type 0} (o : Option A) (e : E) (k : A → Action E S B)
      → (o ≡ none → P (err e, s))
      → ((a : A) → o ≡ some a → P (k a s))
      → P ((or_raise o e >>= k) s)
  missing-or none e k f g = f refl
  missing-or (some a) e k f g = g a refl

  pub guarded :
      (c : Bool) (e : E) (k : Action E S B)
      → P (err e, s)
      → (c ≡ false → P (k s))
      → P ((raise_if c e >> k) s)
  guarded true e k f g = f
  guarded false e k f g = g refl

  -- The same, where the throw is told by the check's failure.
  pub refused-or :
      (c : Bool) (e : E) (k : Action E S B)
      → (c ≡ true → P (err e, s))
      → (c ≡ false → P (k s))
      → P ((raise_if c e >> k) s)
  refused-or true e k f g = f refl
  refused-or false e k f g = g refl

  pub guarded_twice :
      (c d : Bool) (e e' : E) (k : Action E S B)
      → P (err e, s)
      → P (err e', s)
      → (c ≡ false → d ≡ false → P (k s))
      → P (((raise_if c e >> raise_if d e') >> k) s)
  guarded_twice true d e e' k f f' g = f
  guarded_twice false true e e' k f f' g = f'
  guarded_twice false false e e' k f f' g = g refl refl

-- What follows an action whose result is known.
pub ran :
    {E S A B : Type 0} (P : Result E B × S → Type 0) (m : Action E S A) (f : A → Action E S B)
    (s : S) (a : A) (s' : S)
    → m s ≡ (ok a, s')
    → P (f a s')
    → P ((m >>= f) s)
ran {E} {S} {A} {B} P m f s a s' h p =
    subst (λ (r : Result E A × S). P ((◌>>=◌ {E = E} {S = S} {A = A} {B = B} (λ _. r) f) s)) (sym h)
      p

after-Stays :
    {E S A B : Type 0} (P : S → Type 0) (r : Result E A × S) (f : A → Action E S B) (s : S)
    → P r.1
    → ((a : A) (s' : S) → P s' → P (f a s').1)
    → P ((◌>>=◌ {E = E} {S = S} {A = A} {B = B} (λ _. r) f) s).1
after-Stays P (ok a, s') f s p g = g a s' p
after-Stays P (err e, s') f s p g = p

-- What both of two actions keep of the database, they keep in sequence.
pub bind-Stays :
    {E S A B : Type 0} (P : S → Type 0) (m : Action E S A) (f : A → Action E S B) (s : S)
    → P (m s).1
    → ((a : A) (s' : S) → P s' → P (f a s').1)
    → P ((m >>= f) s).1
bind-Stays P m f s p g = after-Stays P (m s) f s p g

after_by :
    {E S A B : Type 0} (P : Result E A × S → Type 0) (Q : Result E B × S → Type 0)
    (r : Result E A × S) (f : A → Action E S B) (s : S)
    → P r
    → ((a : A) (s' : S) → P (ok a, s') → Q (f a s'))
    → ((e : E) (s' : S) → P (err e, s') → Q (err e, s'))
    → Q ((◌>>=◌ {E = E} {S = S} {A = A} {B = B} (λ _. r) f) s)
after_by P Q (ok a, s') f s p g h = g a s' p
after_by P Q (err e, s') f s p g h = h e s' p

-- What holds of a sequence of two actions, by what holds of the first.
pub bind_by :
    {E S A B : Type 0} (P : Result E A × S → Type 0) (Q : Result E B × S → Type 0)
    (m : Action E S A) (f : A → Action E S B) (s : S)
    → P (m s)
    → ((a : A) (s' : S) → P (ok a, s') → Q (f a s'))
    → ((e : E) (s' : S) → P (err e, s') → Q (err e, s'))
    → Q ((m >>= f) s)
bind_by P Q m f s p g h = after_by P Q (m s) f s p g h
