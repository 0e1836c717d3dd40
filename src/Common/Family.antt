-- ===== src/Common/Family.antt =====
-- What the threads of a program are at, one by one: a family over the thread's number, its update in one
-- place, and the sum of a weight over the first threads.
use Prim.Native.Nat.{ℕ, zero, suc, ◌+◌, ◌≤◌, ◌<◌}
use mathlib.Core.Path.{◌≡◌, refl}
use native.Mathlib.Decide.{dec_lt}
use native.Mathlib.Omega.{arith}
use sonic_bmp.Common.Tests.{◌==◌, if◌then◌else◌}

-- The thread `i` goes to `a`, and the others stay.
abbrev pub set_thread {ℓ} : {A : Type ℓ} → ℕ → A → (ℕ → A) → ℕ → A
set_thread i a pc j = if i == j then a else pc j

module _ {ℓ} {A : Type ℓ} (weight : A → ℕ) where
  pub total : (ℕ → A) → ℕ → ℕ
  total pc zero = 0
  total pc (suc k) = weight (pc k) + total pc k

  outside : (pc : ℕ → A) (i : ℕ) (a : A) (k : ℕ) → k ≤ i → total (set_thread i a pc) k ≡ total pc k
  unfolding total
  outside pc i a zero h = refl
  outside pc i a (suc k) h = ground (arith, outside pc i a k)

  -- The sum changes by what the thread's own weight changes.
  pub total-set_thread :
      (pc : ℕ → A) (i : ℕ) (a : A) (k : ℕ)
      → i < k
      → total (set_thread i a pc) k + weight (pc i) ≡ total pc k + weight a
  unfolding total
  total-set_thread pc i a zero h = absurd (omega arith)
  total-set_thread pc i a (suc k) h = elim (dec_lt i k) [
    | yes before ↦ ground (arith, total-set_thread pc i a k before)
    | no here ↦ ground (arith, outside pc i a k)
  ]

  pub weight-le-total : (pc : ℕ → A) (i k : ℕ) → i < k → weight (pc i) ≤ total pc k
  unfolding total
  weight-le-total pc i zero h = absurd (omega arith)
  weight-le-total pc i (suc k) h = elim (dec_lt i k) [
    | yes before ↦ omega (arith, weight-le-total pc i k before)
    | no here ↦ ground arith
  ]

  -- Two different threads' weights both count.
  pub two-le-total :
      (pc : ℕ → A) (i j k : ℕ) → i < j → j < k → weight (pc i) + weight (pc j) ≤ total pc k
  unfolding total
  two-le-total pc i j zero h l = absurd (omega arith)
  two-le-total pc i j (suc k) h l = elim (dec_lt j k) [
    | yes before ↦ omega (arith, two-le-total pc i j k h before)
    | no here ↦ ground (arith, weight-le-total pc i k)
  ]

  pub total-zero : (pc : ℕ → A) (k : ℕ) → ((i : ℕ) → weight (pc i) ≡ 0) → total pc k ≡ 0
  unfolding total
  total-zero pc zero h = refl
  total-zero pc (suc k) h = omega (arith, h k, total-zero pc k h)

  total-le : (pc : ℕ → A) (k : ℕ) → ((a : A) → weight a ≤ 1) → total pc k ≤ k
  unfolding total
  total-le pc zero small = omega arith
  total-le pc (suc k) small = omega (arith, small (pc k), total-le pc k small)

  -- Where the weight is at most 1, and 0 from the thread `m` on, the sum is at most `m`.
  pub total-le-min :
      (pc : ℕ → A) (m k : ℕ)
      → ((a : A) → weight a ≤ 1)
      → ((i : ℕ) → m ≤ i → weight (pc i) ≡ 0)
      → total pc k ≤ m
  unfolding total
  total-le-min pc m zero small none = omega arith
  total-le-min pc m (suc k) small none = elim (dec_lt k m) [
    | yes below ↦ omega (arith, small (pc k), total-le pc k small)
    | no above ↦ omega (arith, none k (omega arith), total-le-min pc m k small none)
  ]

  -- A sum above 0 has a thread of weight above 0.
  pub find_thread : (pc : ℕ → A) (k : ℕ) → 0 < total pc k → (i : ℕ) × (i < k) × (0 < weight (pc i))
  unfolding total
  find_thread pc zero h = absurd (omega arith)
  find_thread pc (suc k) h = elim (dec_lt 0 (weight (pc k))) [
    | yes here ↦ (k, omega arith, here)
    | no other ↦ let (i, l, w) = find_thread pc k (omega arith) in (i, omega (arith, l), w)
  ]
