-- ===== src/Prelude/Texts.antt =====
-- Numbers in messages: `{}` of an unsigned integer.
use Prim.Native.Nat.{ℕ, zero, suc, ◌/◌, ◌%◌}
use Prim.Native.String.{String, ◌++◌ as ◌<>◌}
use mathlib.Core.List.{List, [], ◌∷◌}
use send_rs.Prelude.Tests.{nat_eq, if◌then◌else◌}

digit_in : List String → ℕ → String
digit_in [] n = ""
digit_in (d ∷ ds) zero = d
digit_in (d ∷ ds) (suc n) = digit_in ds n

digit : ℕ → String
unfolding digit_in
digit = digit_in ("0" ∷ "1" ∷ "2" ∷ "3" ∷ "4" ∷ "5" ∷ "6" ∷ "7" ∷ "8" ∷ "9" ∷ [])

digits : ℕ → ℕ → String
unfolding digit
digits zero n = ""
digits (suc fuel) n =
    let front = digits fuel (n / 10) in
    if nat_eq (n / 10) 0 then digit n else front <> digit (n % 10)

-- A number has fewer digits than one more than itself.
unfoldable pub decimal : ℕ → String
unfolding digits
decimal n = digits (suc n) n
