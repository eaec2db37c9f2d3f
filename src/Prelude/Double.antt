-- ===== src/Prelude/Double.antt =====
-- Python's `float` at or above 0: a double is its value, a mantissa times a power of two over a power
-- of two, and each operation rounds its exact result to 53 bits, a tie to the even neighbour. Overflow
-- and the range below the normal numbers are not part of this.
use hacs_xbloom.Prelude.{
  ℕ, ◌*◌, ◌+◌, ◌-◌, ◌/◌, ◌%◌, ◌^◌, ◌==◌, ◌&&◌, ◌||◌, ltb, suc, zero, true, false, if◌then◌else◌,
}

-- The value is `numerator / denominator`.
pub record Double : Type 0 where
  pub numerator : ℕ
  pub denominator : ℕ

-- The nearest integer to a quotient; a half goes to the even neighbour.
unfoldable pub round_ratio : ℕ → ℕ → ℕ
round_ratio n d =
    let q = n / d in
    let twice = 2 * (n % d) in if ltb twice d || (twice == d && q % 2 == 0) then q else q + 1

-- The place of the highest bit, of a number below 2 ^ fuel.
unfoldable pub log2_from : ℕ → ℕ → ℕ
log2_from zero n = 0
log2_from (suc fuel) n = elim (ltb 1 n) [ true ↦ suc (log2_from fuel (n / 2)) | false ↦ 0 ]

abbrev log2_fuel : ℕ
log2_fuel = 2200

-- The mantissa for a scaling by 2 ^ up / 2 ^ down.
abbrev scaled_to : ℕ → ℕ → ℕ → ℕ → Double
scaled_to up down n d = record {
  numerator = round_ratio (n * 2 ^ up) (d * 2 ^ down) * 2 ^ down;
  denominator = 2 ^ up;
}

-- The double nearest to `n / d`: scaled so that the integer part has 53 bits.
unfoldable pub nearest : ℕ → ℕ → Double
unfolding round_ratio log2_from
nearest n d =
    let top = log2_from log2_fuel n in
    let bottom = log2_from log2_fuel d in
    let up = 52 + bottom - top in
    let down = top - (52 + bottom) in
    if n == 0
    then record { numerator = 0; denominator = 1 }
    else if ltb (n * 2 ^ up) (d * 2 ^ down * 2 ^ 52)
    then scaled_to (up + (if down == 0 then 1 else 0)) (down - 1) n d
    else scaled_to up down n d

-- `float(n)`
abbrev pub float_of : ℕ → Double
float_of n = nearest n 1

abbrev pub times : Double → Double → Double
times x y = nearest (x.numerator * y.numerator) (x.denominator * y.denominator)

abbrev pub divided_by : Double → Double → Double
divided_by x y = nearest (x.numerator * y.denominator) (x.denominator * y.numerator)

-- `round(x)`, `int(x)` and `math.ceil(x)`
unfoldable pub round_double : Double → ℕ
unfolding round_ratio
round_double x = round_ratio x.numerator x.denominator

abbrev pub ceil_double : Double → ℕ
ceil_double x = (x.numerator + (x.denominator - 1)) / x.denominator

abbrev pub floor_double : Double → ℕ
floor_double x = x.numerator / x.denominator
