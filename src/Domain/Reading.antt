-- ===== src/Domain/Reading.antt =====
-- Python's `str.strip` and `Decimal(text)`, as src/reconcile/models/domain.py uses them. A text is the
-- list of its code points. The digits of other scripts, which `Decimal` reads too, are left out.
use Prim.Native.Char.{code}
use Prim.Native.String.{String}
use retail_reconciliation_ag.Prelude.{
  ℕ, zero, suc, ◌+◌, ◌-◌, ◌*◌, List, [], ◌∷◌, ◌++◌, map, filter, length, Option, none, some, Bool,
  true, false, not, ◌&&◌, ◌||◌, leb, ◌==◌, nat_eq, contains, if◌then◌else◌, ℤ, pos, sub_ℕ, leb_ℤ,
}
use retail_reconciliation_ag.Domain.Decimal.{
  Decimal, finite, infinite, nan, snan, digit_count, ◌+ℤ◌,
}

abbrev pub codes : String → List ℕ
codes String.[] = []
codes (String.◌∷◌ c s) = code c ∷ codes s

abbrev pub between : ℕ → ℕ → ℕ → Bool
between low high c = leb low c && leb c high

-- `c.isspace()`
unfoldable pub is_space : ℕ → Bool
is_space c =
    between 9 13 c
    || between 28 32 c
    || between 8192 8202 c
    || contains (133 ∷ 160 ∷ 5760 ∷ 8232 ∷ 8233 ∷ 8239 ∷ 8287 ∷ 12288 ∷ []) c

unfoldable pub drop_start : List ℕ → List ℕ
unfolding is_space
drop_start [] = []
drop_start (c ∷ cs) = let rest = drop_start cs in if is_space c then rest else c ∷ cs

unfoldable pub cons_unless_space : ℕ → List ℕ → List ℕ
unfolding is_space
cons_unless_space c [] = if is_space c then [] else c ∷ []
cons_unless_space c (d ∷ ds) = c ∷ d ∷ ds

unfoldable pub drop_end : List ℕ → List ℕ
unfolding cons_unless_space
drop_end [] = []
drop_end (c ∷ cs) = cons_unless_space c (drop_end cs)

-- `s.strip()`
unfoldable pub strip : List ℕ → List ℕ
unfolding drop_start drop_end
strip cs = drop_end (drop_start cs)

abbrev pub is_digit : ℕ → Bool
is_digit c = between 48 57 c

-- The digits at the front, and the rest.
unfoldable pub span_digits : List ℕ → List ℕ × List ℕ
span_digits [] = ([], [])
span_digits (c ∷ cs) =
    let (ds, rest) = span_digits cs in if is_digit c then (c ∷ ds, rest) else ([], c ∷ cs)

unfoldable pub value_from : ℕ → List ℕ → ℕ
value_from acc [] = acc
value_from acc (c ∷ cs) = value_from (acc * 10 + (c - 48)) cs

-- A sign and what follows it, true for "-".
unfoldable pub take_sign : List ℕ → Bool × List ℕ
take_sign [] = (false, [])
take_sign (c ∷ cs) =
    if c == 45 then (true, cs) else if c == 43 then (false, cs) else (false, c ∷ cs)

-- "." and the digits after it, where they are there.
unfoldable pub take_fraction : List ℕ → List ℕ × List ℕ
unfolding span_digits
take_fraction [] = ([], [])
take_fraction (c ∷ cs) = let taken = span_digits cs in if c == 46 then taken else ([], c ∷ cs)

-- The digits of an exponent, up to the end.
unfoldable pub exponent_of : Bool → List ℕ × List ℕ → Option ℤ
unfolding value_from
exponent_of negative (d ∷ ds, []) =
    some (if negative then sub_ℕ 0 (value_from 0 (d ∷ ds)) else pos (value_from 0 (d ∷ ds)))
exponent_of negative _ = none

unfoldable pub take_exponent : List ℕ → Option ℤ
unfolding take_sign span_digits exponent_of
take_exponent [] = some (pos 0)
take_exponent (c ∷ cs) =
    let (negative, ds) = take_sign cs in
    if c == 69 || c == 101 then exponent_of negative (span_digits ds) else none

-- A number, unless its exponent is out of the limits of the library.
unfoldable pub within_limits : Bool → ℕ → ℤ → Option Decimal
unfolding digit_count
within_limits negative coefficient exponent =
    if leb_ℤ (exponent +ℤ pos (digit_count coefficient - 1)) (pos 999999999999999999)
      && leb_ℤ (sub_ℕ 0 1999999999999999997) exponent
    then some (finite negative coefficient exponent)
    else none

unfoldable pub build_number : Bool → List ℕ → List ℕ → Option ℤ → Option Decimal
unfolding value_from within_limits
build_number negative whole fraction (some exponent) =
    if leb (length (whole ++ fraction)) 0
    then none
    else within_limits negative (value_from 0 (whole ++ fraction))
        (exponent +ℤ sub_ℕ 0 (length fraction))
build_number negative whole fraction none = none

unfoldable pub read_number : Bool → List ℕ → Option Decimal
unfolding span_digits take_fraction take_exponent build_number
read_number negative cs =
    let (whole, r) = span_digits cs in
    let (fraction, r') = take_fraction r in build_number negative whole fraction (take_exponent r')

abbrev pub to_lower : ℕ → ℕ
to_lower c = if between 65 90 c then c + 32 else c

abbrev pub starts_with : List ℕ → List ℕ → Bool
starts_with cs [] = true
starts_with [] (d ∷ ds) = false
starts_with (c ∷ cs) (d ∷ ds) = c == d && starts_with cs ds

abbrev pub all_digits : List ℕ → Bool
all_digits [] = true
all_digits (c ∷ cs) = is_digit c && all_digits cs

abbrev pub drop : ℕ → List ℕ → List ℕ
drop zero cs = cs
drop (suc n) [] = []
drop (suc n) (c ∷ cs) = drop n cs

abbrev pub same_codes : List ℕ → List ℕ → Bool
same_codes [] [] = true
same_codes (c ∷ cs) (d ∷ ds) = c == d && same_codes cs ds
same_codes _ _ = false

-- `Inf`, `Infinity`, and the two kinds of `NaN` with their digits, in small letters.
unfoldable pub read_special : Bool → List ℕ → Option Decimal
read_special negative cs =
    if same_codes cs (codes "inf") || same_codes cs (codes "infinity")
    then some (infinite negative)
    else if starts_with cs (codes "nan") && all_digits (drop 3 cs)
    then some nan
    else if starts_with cs (codes "snan") && all_digits (drop 4 cs)
    then some snan
    else none

abbrev pub or_special : Option Decimal → Option Decimal → Option Decimal
or_special (some d) other = some d
or_special none other = other

-- `Decimal(text)`; `none` where it raises `InvalidOperation`.
unfoldable pub read_decimal : List ℕ → Option Decimal
unfolding strip take_sign read_number read_special
read_decimal cs =
    let (negative, body) = take_sign (filter (λ c. not (c == 95)) (strip cs)) in
    or_special (read_number negative body) (read_special negative (map to_lower body))
