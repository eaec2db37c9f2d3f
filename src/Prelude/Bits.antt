-- ===== src/Prelude/Bits.antt =====
-- Laws of `bit_xor` at variables: an equation for the lowest digit, and what follows from it by
-- induction on the width.
use hacs_xbloom.Prelude.{◌-◌, ◌∙◌}
use Prim.Native.Nat.{
  ℕ, zero, suc, ◌+◌, ◌*◌, ◌/◌, ◌%◌, ◌^◌, ◌≤◌, ◌<◌, bit_xor, digits, differ, bit_xor-bitwise,
}
use mathlib.Core.Path.{◌≡◌, refl, ap}
use mathlib.Core.WellFounded as WF
use mathlib.Core.WellFounded.{Acc, WellFounded}
use native.Mathlib.Nat.{pow-suc, zero-add, suc-add}
use native.Mathlib.Omega.{arith}

Acc-below : (k n : ℕ) → n < k → Acc ◌<◌ n
Acc-below zero n h = elim h [ ]
Acc-below (suc k) n h = Acc.intro n (λ m hm. Acc-below k m (omega arith))

pub lt_wf : WellFounded ◌<◌
lt_wf = record { apply = λ n. Acc-below (suc n) n (omega arith) }

pub differ_self : (n : ℕ) → differ n n ≡ 0
differ_self zero = refl
differ_self (suc n) = differ_self n

differ-zero : (n : ℕ) → differ n 0 ≡ n
differ-zero zero = refl
differ-zero (suc n) = refl

differ-le : (m a b : ℕ) → a ≤ m → b ≤ m → differ a b ≤ m
differ-le m zero b p q = q
differ-le m (suc a) zero p q = p
differ-le m (suc a) (suc b) p q = differ-le m a b (omega arith) (omega arith)

-- One round of fuel above the number itself changes nothing, so no surplus does.
module _ (join : ℕ → ℕ → ℕ) where
  abbrev with_fuel : ℕ → ℕ → ℕ → ℕ
  with_fuel = digits (λ c. c) join

  spare_round : (fuel x y : ℕ) → x ≤ fuel → with_fuel (suc fuel) x y ≡ with_fuel fuel x y
  spare_round zero zero y enough = refl
  spare_round (suc k) zero y enough = refl
  spare_round zero (suc x) y enough = absurd (omega arith)
  spare_round (suc k) (suc x) y enough = rw (spare_round k (suc x / 2) (y / 2) (omega arith))

  surplus : (gap fuel x y : ℕ) → x ≤ fuel → with_fuel (gap + fuel) x y ≡ with_fuel fuel x y
  surplus zero fuel x y enough = rw zero-add
  surplus (suc gap) fuel x y enough =
      rw suc-add (spare_round (gap + fuel) x y (omega arith) ∙ surplus gap fuel x y enough)

  less_fuel : (most fuel x y : ℕ) → x ≤ fuel → fuel ≤ most → with_fuel most x y ≡ with_fuel fuel x y
  less_fuel most fuel x y enough room =
      let split : most ≡ most - fuel + fuel = omega arith in
      ap (λ n. with_fuel n x y) split ∙ surplus (most - fuel) fuel x y enough

pub zero-bit_xor : (b : ℕ) → bit_xor 0 b ≡ b
zero-bit_xor b = bit_xor-bitwise 0 b

pub bit_xor_step : (a b : ℕ) → bit_xor a b ≡ bit_xor (a / 2) (b / 2) * 2 + differ (a % 2) (b % 2)
bit_xor_step zero b = omega (arith, zero-bit_xor b, zero-bit_xor (b / 2))
bit_xor_step (suc a) b = omega (
  arith,
  bit_xor-bitwise (suc a) b,
  bit_xor-bitwise (suc a / 2) (b / 2),
  less_fuel differ a (suc a / 2) (suc a / 2) (b / 2) (omega arith) (omega arith),
)

pub bit_xor-zero : (a : ℕ) → bit_xor a 0 ≡ a
bit_xor-zero a = WF.induction lt_wf a step
  where
    step : (n : ℕ) → ((m : ℕ) → m < n → bit_xor m 0 ≡ m) → bit_xor n 0 ≡ n
    step zero ih = refl
    step (suc n) ih =
        omega (arith, bit_xor_step (suc n) 0, differ-zero (suc n % 2), ih (suc n / 2) (omega arith))

pub bit_xor_self : (a : ℕ) → bit_xor a a ≡ 0
bit_xor_self a = WF.induction lt_wf a step
  where
    step : (n : ℕ) → ((m : ℕ) → m < n → bit_xor m m ≡ 0) → bit_xor n n ≡ 0
    step zero ih = refl
    step (suc n) ih =
        omega (
          arith,
          bit_xor_step (suc n) (suc n),
          differ_self (suc n % 2),
          ih (suc n / 2) (omega arith),
        )

two-pow-suc : (k : ℕ) → 2 ^ suc k ≡ 2 * 2 ^ k
two-pow-suc k = omega (arith, pow-suc 2 k)

pub mul-two-pow-suc : (q k : ℕ) → q * 2 ^ suc k ≡ 2 * (q * 2 ^ k)
mul-two-pow-suc q k = omega (arith, ap (λ (t : ℕ). q * t) (two-pow-suc k))

-- The exclusive or of two numbers of `k` bits has `k` bits.
pub bit_xor-lt : (k a b : ℕ) → a < 2 ^ k → b < 2 ^ k → bit_xor a b < 2 ^ k
bit_xor-lt zero zero b p q = omega (arith, zero-bit_xor b)
bit_xor-lt zero (suc a) b p q = absurd (omega arith)
bit_xor-lt (suc k) a b p q = omega (
  arith,
  two-pow-suc k,
  bit_xor_step a b,
  differ-le 1 (a % 2) (b % 2) (omega arith) (omega arith),
  bit_xor-lt k (a / 2) (b / 2) (omega (arith, two-pow-suc k)) (omega (arith, two-pow-suc k)),
)

-- Taking the low field away by `^` leaves the high field.
pub bit_xor_low_field : (k q r : ℕ) → r < 2 ^ k → bit_xor (q * 2 ^ k + r) r ≡ q * 2 ^ k
bit_xor_low_field zero q zero h = rw bit_xor-zero (omega arith)
bit_xor_low_field zero q (suc r) h = absurd (omega arith)
bit_xor_low_field (suc k) q r h = ground (
  arith,
  bit_xor_step (q * 2 ^ suc k + r) r,
  mul-two-pow-suc q k,
  two-pow-suc k,
  differ_self (r % 2),
  bit_xor_low_field k q (r / 2) (omega (arith, two-pow-suc k)),
)
