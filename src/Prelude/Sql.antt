-- ===== src/Prelude/Sql.antt =====
-- The expressions that the CHECK clauses of src-tauri/migrations share.
use Prim.Native.Nat.{ℕ, zero, suc}
use mathlib.Core.Bool.{Bool, true, false, not, ◌&&◌}
use mathlib.Core.Option.{Option, none, some}
use mathlib.Core.List.{[], ◌∷◌}
use burnly.Prelude.Tests.{◌==◌}
use burnly.Prelude.Lists.{any, length}
use burnly.Prelude.Text.{Text}
use burnly.Prelude.Int.{ℤ, leb_ℤ}

-- `length(trim(value)) > 0`, where SQL trims spaces only.
abbrev pub is_filled : Text → Bool
is_filled value = any (λ c. not (c == b' ')) value

abbrev is_dash_at : ℕ → Text → Bool
is_dash_at n [] = false
is_dash_at zero (c ∷ _) = c == b'-'
is_dash_at (suc n) (_ ∷ cs) = is_dash_at n cs

-- `length(value) = 10` and dashes at the fifth and the eighth character.
abbrev pub is_date_shaped : Text → Bool
is_date_shaped value = length value == 10 && is_dash_at 4 value && is_dash_at 7 value

-- `value IS NULL OR value >= least`
abbrev pub is_null_or_from : ℤ → Option ℤ → Bool
is_null_or_from least none = true
is_null_or_from least (some n) = leb_ℤ least n
