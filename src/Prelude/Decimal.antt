-- ===== src/Prelude/Decimal.antt =====
-- `strconv.FormatInt(n, 10)` on the numbers from 0 up.
use Prim.Native.Nat.{ℕ, zero, suc, ◌+◌, ◌/◌, ◌%◌}
use mathlib.Core.List.{[], ◌∷◌}
use weightkeep.Prelude.Tests.{◌==◌, if◌then◌else◌}
use weightkeep.Prelude.Strings.{Text}

-- The digits of `n` before `out`; the fuel bounds the number of digits.
digits : ℕ → ℕ → Text → Text
digits zero n out = out
digits (suc fuel) n out =
    let more = digits fuel (n / 10) ((b'0' + n % 10) ∷ out) in
    if n / 10 == 0 then (b'0' + n % 10) ∷ out else more

-- A number has at most as many digits as it has ones, plus one.
unfoldable pub format_int : ℕ → Text
unfolding digits
format_int n = digits (n + 1) n []
