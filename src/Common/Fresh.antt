-- ===== src/Common/Fresh.antt =====
-- A concrete source of ids: one more than the largest key there is.
use renaissance_api.Common.Lists.{find_by}
use renaissance_api.Common.Tests.{◌==◌}
use Prim.Native.Nat.{ℕ, suc, ◌≤◌, max}
use mathlib.Core.Path.{◌≡◌, refl}
use mathlib.Core.Option.{none}
use mathlib.Core.List.{List, [], ◌∷◌}
use native.Mathlib.Omega.{arith}

module _ {ℓ} {A : Type ℓ} (key : A → ℕ) where
  abbrev pub max_key : List A → ℕ
  max_key [] = 0
  max_key (x ∷ xs) = max (key x) (max_key xs)

  past_max_key : (n : ℕ) (xs : List A) → max_key xs ≤ n → find_by (λ x. key x == suc n) xs ≡ none
  past_max_key n [] h = refl
  past_max_key n (x ∷ xs) h = ground (arith, past_max_key n xs)

  pub max_key-fresh : (xs : List A) → find_by (λ x. key x == suc (max_key xs)) xs ≡ none
  max_key-fresh xs = past_max_key (max_key xs) xs (omega arith)
