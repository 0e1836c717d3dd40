-- ===== src/Common/Bits.antt =====
-- What `|=` with a mask of low ones does to a number.
use Prim.Native.Nat.{
  ℕ, zero, suc, ◌+◌, ◌-◌, ◌*◌, ◌/◌, ◌%◌, ◌^◌, ◌≤◌, ◌<◌, max, bit_or, bit_and, digits,
  bit_or-bitwise, bit_and-bitwise, min,
}
use mathlib.Core.Path.{◌≡◌, refl, sym, ap, ◌∙◌}
use native.Mathlib.Omega.{arith}
use native.Mathlib.Nat.{
  pow-suc, div-div-eq-div-mul, div-eq_of_lt, mul_left_comm, mul_assoc, mul_comm, div-lt_iff_lt-mul,
  add-mul, mul-le-mul_right, mul-add-div,
}

-- What holds of any operation on the binary digits of two numbers: `low` for the digits, `high` for what is
-- left of the second number behind the first.
module _ (high : ℕ → ℕ) (low : ℕ → ℕ → ℕ) where
  digits_enough : (k l x y : ℕ) → x ≤ k → x ≤ l → digits high low k x y ≡ digits high low l x y
  digits_enough zero zero zero y u v = refl
  digits_enough zero (suc l) zero y u v = refl
  digits_enough (suc k) zero zero y u v = refl
  digits_enough (suc k) (suc l) zero y u v = refl
  digits_enough zero l (suc x) y u v = absurd (omega arith)
  digits_enough (suc k) zero (suc x) y u v = absurd (omega arith)
  digits_enough (suc k) (suc l) (suc x) y u v =
      let half = suc x / 2 in
      ap (λ (w : ℕ). w * 2 + low (suc x % 2) (y % 2))
        (digits_enough k l half (y / 2) (omega (arith, u)) (omega (arith, v)))

  -- The lowest digit, and the operation on the other digits
  digits_step :
      (x y : ℕ)
      → digits high low (suc x) (suc x) y
        ≡ digits high low (suc x / 2) (suc x / 2) (y / 2) * 2 + low (suc x % 2) (y % 2)
  digits_step x y =
      let half = suc x / 2 in
      ap (λ (w : ℕ). w * 2 + low (suc x % 2) (y % 2))
        (digits_enough x half half (y / 2) (omega arith) (omega arith))

bit_or_step : (a b : ℕ) → bit_or a b ≡ bit_or (a / 2) (b / 2) * 2 + max (a % 2) (b % 2)
bit_or_step zero b = omega (arith, bit_or-bitwise 0 b, bit_or-bitwise 0 (b / 2))
bit_or_step (suc x) y =
    rw (bit_or-bitwise (suc x) y, bit_or-bitwise (suc x / 2) (y / 2)) (digits_step (λ w. w) max x y)

bit_and_step : (a b : ℕ) → bit_and a b ≡ bit_and (a / 2) (b / 2) * 2 + min (a % 2) (b % 2)
bit_and_step zero b = omega (arith, bit_and-bitwise 0 b, bit_and-bitwise 0 (b / 2))
bit_and_step (suc x) y =
    rw (bit_and-bitwise (suc x) y, bit_and-bitwise (suc x / 2) (y / 2))
      (digits_step (λ w. zero) min x y)

bit_or-zero_fuel : (n a : ℕ) → a ≤ n → bit_or a 0 ≡ a
bit_or-zero_fuel zero zero h = refl
bit_or-zero_fuel zero (suc a) h = absurd (omega arith)
bit_or-zero_fuel (suc n) a h =
    omega (arith, bit_or_step a 0, bit_or-zero_fuel n (a / 2) (omega arith))

pub pow_pos : (k : ℕ) → 0 < 2 ^ k
pow_pos zero = omega arith
pow_pos (suc k) = omega (arith, pow-suc 2 k, pow_pos k)

-- The largest number that agrees with `a` but for its last k bits.
abbrev pub last_of : ℕ → ℕ → ℕ
last_of a k = a / 2 ^ k * 2 ^ k + (2 ^ k - 1)

pub bit_or-ones : (k a : ℕ) → bit_or a (2 ^ k - 1) ≡ last_of a k
bit_or-ones zero a = omega (arith, bit_or-zero_fuel a a (omega arith))
bit_or-ones (suc k) a =
    let m = 2 ^ k in
    let twice : 2 ^ suc k ≡ 2 * m = omega (arith, pow-suc 2 k) in
    let half : (2 * m - 1) / 2 ≡ m - 1 = omega (arith, pow_pos k) in
    let odd : (2 * m - 1) % 2 ≡ 1 = omega (arith, pow_pos k) in
    let q : a / (2 * m) ≡ a / 2 / m = sym (div-div-eq-div-mul a 2 m) in
    let two : a / 2 / m * (2 * m) ≡ 2 * (a / 2 / m * m) = mul_left_comm (a / 2 / m) 2 m in
    rw (twice, q, two, bit_or_step a (2 * m - 1), half, odd, bit_or-ones k (a / 2))
      (omega (arith, pow_pos k))

pub pow-add : (a b : ℕ) → 2 ^ (a + b) ≡ 2 ^ a * 2 ^ b
pow-add a zero = let e : a + 0 ≡ a = omega arith in rw e (omega arith)
pow-add a (suc b) =
    let next : a + suc b ≡ suc (a + b) = omega arith in
    rw (next, pow-suc 2 b, pow-suc 2 (a + b), pow-add a b) (mul_assoc (2 ^ a) (2 ^ b) 2)

-- A mask of ones that is shifted
pub ones_shifted : (k s : ℕ) → (2 ^ (k + s) - 1) / 2 ^ s ≡ 2 ^ k - 1
ones_shifted k zero = let e : k + 0 ≡ k = omega arith in rw e (omega arith)
ones_shifted k (suc s) =
    let half : (2 * 2 ^ (k + s) - 1) / 2 ≡ 2 ^ (k + s) - 1 = omega (arith, pow_pos (k + s)) in
    let twice : 2 ^ suc s ≡ 2 * 2 ^ s = omega (arith, pow-suc 2 s) in
    let more : 2 ^ suc (k + s) ≡ 2 * 2 ^ (k + s) = omega (arith, pow-suc 2 (k + s)) in
    let next : k + suc s ≡ suc (k + s) = omega arith in
    rw (next, more, twice, ← div-div-eq-div-mul (2 * 2 ^ (k + s) - 1) 2 (2 ^ s), half)
      (ones_shifted k s)

-- The last number of a range that lies below a bound is below it.
pub last_of-lt : (v k s : ℕ) → v < 2 ^ (k + s) → last_of v k < 2 ^ (k + s)
last_of-lt v k s h =
    let total = pow-add k s ∙ mul_comm (2 ^ k) (2 ^ s) in
    let q : v / 2 ^ k < 2 ^ s = (div-lt_iff_lt-mul (pow_pos k)).1 (omega (arith, h, total)) in
    omega (
      arith,
      total,
      pow_pos k,
      add-mul (v / 2 ^ k) 1 (2 ^ k),
      mul-le-mul_right {m = v / 2 ^ k + 1} {n = 2 ^ s} (2 ^ k) (omega (arith, q)),
    )

-- The last number of a range of 2 ^ k numbers, by the halves of its bounds.
pub last_of-high :
    (hi lo k j : ℕ)
    → lo < 2 ^ j
    → last_of (hi * 2 ^ j + lo) (k + j) ≡ last_of hi k * 2 ^ j + (2 ^ j - 1)
last_of-high hi lo k j h =
    let split : 2 ^ (k + j) ≡ 2 ^ j * 2 ^ k = pow-add k j ∙ mul_comm (2 ^ k) (2 ^ j) in
    let up : (hi * 2 ^ j + lo) / 2 ^ j ≡ hi =
      rw (mul_comm hi (2 ^ j), mul-add-div (pow_pos j) hi lo, div-eq_of_lt h) (omega arith) in
    let q : (hi * 2 ^ j + lo) / 2 ^ (k + j) ≡ hi / 2 ^ k =
      rw (split, ← div-div-eq-div-mul (hi * 2 ^ j + lo) (2 ^ j) (2 ^ k), up) in
    let back : 2 ^ k - 1 + 1 ≡ 2 ^ k = omega (arith, pow_pos k) in
    rw (q, pow-add k j)
      (omega (
        arith,
        pow_pos j,
        pow_pos k,
        mul_assoc (hi / 2 ^ k) (2 ^ k) (2 ^ j),
        add-mul (hi / 2 ^ k * 2 ^ k) (2 ^ k - 1) (2 ^ j),
        add-mul (2 ^ k - 1) 1 (2 ^ j),
        ap (λ (m : ℕ). m * 2 ^ j) back,
      ))

pub last_of-low :
    (hi lo k i : ℕ) → last_of (hi * 2 ^ (i + k) + lo) k ≡ hi * 2 ^ (i + k) + last_of lo k
last_of-low hi lo k i =
    let split : hi * 2 ^ (i + k) ≡ 2 ^ k * (hi * 2 ^ i) =
      rw (pow-add i k, ← mul_assoc hi (2 ^ i) (2 ^ k)) (mul_comm (hi * 2 ^ i) (2 ^ k)) in
    rw (split, mul-add-div (pow_pos k) (hi * 2 ^ i) lo)
      (omega (arith, add-mul (hi * 2 ^ i) (lo / 2 ^ k) (2 ^ k), mul_comm (hi * 2 ^ i) (2 ^ k)))

bit_and-zero_fuel : (n a : ℕ) → a ≤ n → bit_and a 0 ≡ 0
bit_and-zero_fuel zero zero h = refl
bit_and-zero_fuel zero (suc a) h = absurd (omega arith)
bit_and-zero_fuel (suc n) a h =
    omega (arith, bit_and_step a 0, bit_and-zero_fuel n (a / 2) (omega arith))

half_power : (k : ℕ) → 2 ^ suc k / 2 ≡ 2 ^ k
half_power k = omega (arith, pow-suc 2 k)

-- A mask of one bit takes that bit out of a number.
pub bit_and-power : (k n : ℕ) → bit_and n (2 ^ k) ≡ n / 2 ^ k % 2 * 2 ^ k
bit_and-power zero n =
    omega (arith, bit_and_step n 1, bit_and-zero_fuel (n / 2) (n / 2) (omega arith))
bit_and-power (suc k) n =
    let e1 : bit_and (n / 2) (2 ^ suc k / 2) ≡ bit_and (n / 2) (2 ^ k) =
      ap (bit_and (n / 2)) (half_power k) in
    let e2 : n / 2 / 2 ^ k ≡ n / 2 ^ suc k =
      div-div-eq-div-mul n 2 (2 ^ k)
      ∙ ap (λ (m : ℕ). n / m) (mul_comm 2 (2 ^ k) ∙ sym (pow-suc 2 k)) in
    let e3 : n / 2 / 2 ^ k % 2 * 2 ^ k * 2 ≡ n / 2 ^ suc k % 2 * 2 ^ suc k =
      ap (λ (m : ℕ). m % 2 * 2 ^ k * 2) e2
      ∙ mul_assoc (n / 2 ^ suc k % 2) (2 ^ k) 2
      ∙ ap (λ (m : ℕ). n / 2 ^ suc k % 2 * m) (sym (pow-suc 2 k)) in
    omega (arith, bit_and_step n (2 ^ suc k), pow-suc 2 k, e1, e3, bit_and-power k (n / 2))
