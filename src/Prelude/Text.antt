-- ===== src/Prelude/Text.antt =====
-- Building texts: f-strings, `str(n)` of an integer, and amounts with two decimals.
use Prim.Native.Nat.{ℕ, zero, suc, ◌/◌, ◌%◌}
use Prim.Native.String.{String}
use Prim.Native.String as S
use mathlib.Core.List.{List, [], ◌∷◌}
use retail_reconciliation_ag.Prelude.Tests.{ltb, if◌then◌else◌}

-- The pieces of an f-string, one after the other.
unfoldable pub text : List String → String
text [] = ""
text (s ∷ ss) = S.◌++◌ s (text ss)

-- `sep.join(parts)`
unfoldable pub join : String → List String → String
join sep [] = ""
join sep (s ∷ []) = s
join sep (s ∷ t ∷ ss) = S.◌++◌ s (S.◌++◌ sep (join sep (t ∷ ss)))

unfoldable pub digit : ℕ → String
digit zero = "0"
digit (suc zero) = "1"
digit (suc (suc zero)) = "2"
digit (suc (suc (suc zero))) = "3"
digit (suc (suc (suc (suc zero)))) = "4"
digit (suc (suc (suc (suc (suc zero))))) = "5"
digit (suc (suc (suc (suc (suc (suc zero)))))) = "6"
digit (suc (suc (suc (suc (suc (suc (suc zero))))))) = "7"
digit (suc (suc (suc (suc (suc (suc (suc (suc zero)))))))) = "8"
digit _ = "9"

-- One digit a round: `n` rounds are more than a number `n` has digits.
unfoldable pub repr_loop : ℕ → ℕ → String
unfolding digit
repr_loop zero n = digit n
repr_loop (suc rounds) n =
    let front = repr_loop rounds (n / 10) in
    if ltb n 10 then digit n else S.◌++◌ front (digit (n % 10))

-- `str(n)`
unfoldable pub repr : ℕ → String
unfolding repr_loop
repr n = repr_loop n n

-- `str(amount)` of an amount in paise, which has two decimals.
unfoldable pub show_money : ℕ → String
unfolding repr digit text
show_money paise =
    text (repr (paise / 100) ∷ "." ∷ digit (paise % 100 / 10) ∷ digit (paise % 10) ∷ [])
