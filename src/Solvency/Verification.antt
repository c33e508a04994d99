-- ===== src/Solvency/Verification.antt =====
-- How the generation of a proof of reserves ends.
use renaissance_api.Common.{List, [], ◌∷◌}
use renaissance_api.Common.Int.{ℤ}
use renaissance_api.Solvency.Reserves.{Error, no_root, invalid_user_id}

-- Why a generation for the balances throws.
abbrev pub refusal : List ℤ → Error
refusal [] = no_root
refusal (b ∷ bs) = invalid_user_id
