-- ===== src/Prelude/Bits.antt =====
-- The native bit operations at variables, from their recursion on binary digits.
use Prim.Native.Nat.{
  ℕ, zero, suc, ◌+◌, ◌-◌, ◌*◌, ◌/◌, ◌%◌, ◌^◌, ◌≤◌, ◌<◌, min, bit_and, bit_xor, digits, bitwise,
  differ, bit_and-bitwise, bit_xor-bitwise,
}
use mathlib.Core.Path.{◌≡◌, refl}
use mathlib.Core.WellFounded
use mathlib.Core.WellFounded.{Acc, WellFounded as IsWellFounded}
use native.Mathlib.Nat.{le_refl, pow-succ', one-le-pow, mod-lt}
use native.Mathlib.Omega.{arith}

module _ (alone : ℕ → ℕ) (combine : ℕ → ℕ → ℕ) where
  -- Fuel beyond the first number changes nothing.
  enough :
      (x y fuel more : ℕ)
      → x ≤ fuel
      → fuel ≤ more
      → digits alone combine more x y ≡ digits alone combine fuel x y
  enough x y (suc fuel) zero h g = absurd (omega arith)
  enough (suc x) y zero more h g = absurd (omega arith)
  enough zero y zero zero h g = refl
  enough zero y zero (suc more) h g = refl
  enough zero y (suc fuel) (suc more) h g = refl
  enough (suc x) y (suc fuel) (suc more) h g =
      rw (enough (suc x / 2) (y / 2) fuel more (omega arith) (omega arith))

  lowest_digit :
      (x y : ℕ)
      → 0 < x
      → bitwise alone combine x y
        ≡ combine (x % 2) (y % 2) + 2 * bitwise alone combine (x / 2) (y / 2)
  lowest_digit zero y h = absurd (omega arith)
  lowest_digit (suc x) y h =
      omega (arith, enough (suc x / 2) (y / 2) (suc x / 2) x (le_refl _) (omega arith))

bit_xor_step : (x y : ℕ) → bit_xor x y ≡ differ (x % 2) (y % 2) + 2 * bit_xor (x / 2) (y / 2)
bit_xor_step zero y = simp bit_xor-bitwise (omega arith)
bit_xor_step (suc x) y = simp bit_xor-bitwise (lowest_digit (λ d. d) differ (suc x) y (omega arith))

bit_and_step : (x y : ℕ) → bit_and x y ≡ min (x % 2) (y % 2) + 2 * bit_and (x / 2) (y / 2)
bit_and_step zero y = simp bit_and-bitwise (omega arith)
bit_and_step (suc x) y = simp bit_and-bitwise (lowest_digit (λ d. 0) min (suc x) y (omega arith))

Acc-below : (k n : ℕ) → n < k → Acc ◌<◌ n
Acc-below zero n h = absurd (omega arith)
Acc-below (suc k) n h = Acc.intro n (λ m m<n. Acc-below k m (omega arith))

lt_wf : IsWellFounded ◌<◌
lt_wf = record { apply = λ n. Acc-below (suc n) n (le_refl _) }

differ_bits : (d e : ℕ) → d < 2 → e < 2 → differ d e + 2 * min d e ≡ d + e
differ_bits zero zero p q = refl
differ_bits zero (suc zero) p q = refl
differ_bits (suc zero) zero p q = refl
differ_bits (suc zero) (suc zero) p q = refl
differ_bits (suc (suc d)) e p q = absurd (omega arith)
differ_bits d (suc (suc e)) p q = absurd (omega arith)

-- Without the carries and twice the carries make the sum.
pub bit_xor-add-bit_and : (a b : ℕ) → bit_xor a b + 2 * bit_and a b ≡ a + b
bit_xor-add-bit_and a =
    WellFounded.induction lt_wf {C = λ n. (b : ℕ) → bit_xor n b + 2 * bit_and n b ≡ n + b} a step
  where
    step :
        (n : ℕ)
        → ((m : ℕ) → m < n → (b : ℕ) → bit_xor m b + 2 * bit_and m b ≡ m + b)
        → (b : ℕ) → bit_xor n b + 2 * bit_and n b ≡ n + b
    step zero ih b = simp (bit_xor-bitwise, bit_and-bitwise) (omega arith)
    step (suc n) ih b = omega (
      arith,
      bit_xor_step (suc n) b,
      bit_and_step (suc n) b,
      differ_bits (suc n % 2) (b % 2) (omega arith) (omega arith),
      ih (suc n / 2) (omega arith) (b / 2),
    )

double_mod : (a b p : ℕ) → b < 2 → 0 < p → (b + 2 * a) % (2 * p) ≡ b + 2 * (a % p)
double_mod a b p h pos = grind arith

halved_ones : (p : ℕ) → 0 < p → ((2 * p - 1) / 2 ≡ p - 1) × ((2 * p - 1) % 2 ≡ 1)
halved_ones p pos = omega arith

bit_xor_ones_step :
    (x p : ℕ)
    → 0 < p
    → bit_xor (x / 2) (p - 1) % p ≡ p - 1 - x / 2 % p
    → bit_xor x (2 * p - 1) % (2 * p) ≡ 2 * p - 1 - x % (2 * p)
bit_xor_ones_step x p pos ih =
    let (half, odd) = halved_ones p pos in
    rw (bit_xor_step x (2 * p - 1), half, odd)
      (ground (
        arith,
        double_mod (bit_xor (x / 2) (p - 1)) (differ (x % 2) 1) p,
        double_mod (x / 2) (x % 2) p,
        differ_bits (x % 2) 1,
        mod-lt (x / 2) pos,
      ))

-- Exclusive or with w ones is the complement of w bits.
pub bit_xor_ones : (w x : ℕ) → bit_xor x (2 ^ w - 1) % 2 ^ w ≡ 2 ^ w - 1 - x % 2 ^ w
bit_xor_ones zero x = omega arith
bit_xor_ones (suc w) x =
    rw (pow-succ' 2 w)
      (bit_xor_ones_step x (2 ^ w) (one-le-pow w 2 (omega arith)) (bit_xor_ones w (x / 2)))
