-- ===== src/Common/Bits.antt =====
-- Words, shifts and masks as arithmetic, and the laws of `|` and `^` at variables, which come from
-- the recursion on binary digits that the native operations stand for.
use Prim.Native.Nat.{
  ℕ, zero, suc, ◌+◌, ◌*◌, ◌/◌, ◌%◌, ◌^◌, ◌≤◌, ◌<◌, max, bit_or, bit_xor, digits, bit_or-bitwise,
  bit_xor-bitwise, differ,
}
use mathlib.Core.Path.{◌≡◌, refl, ap}
use native.Mathlib.Nat.{pow-suc}
use native.Mathlib.Omega.{arith}

abbrev pub u8 : ℕ → ℕ
u8 n = n % 2 ^ 8

abbrev pub u16 : ℕ → ℕ
u16 n = n % 2 ^ 16

abbrev pub u32 : ℕ → ℕ
u32 n = n % 2 ^ 32

abbrev pub u64 : ℕ → ℕ
u64 n = n % 2 ^ 64

infixl 60 ◌<<◌ ◌>>◌
abbrev pub ◌<<◌ : ℕ → ℕ → ℕ
x << k = x * 2 ^ k

abbrev pub ◌>>◌ : ℕ → ℕ → ℕ
x >> k = x / 2 ^ k

-- More fuel than digits does not change a digitwise operation.
module _ (rest : ℕ → ℕ) (op : ℕ → ℕ → ℕ) where
  digits_enough :
      (fuel more n m : ℕ) → n ≤ fuel → n ≤ more → digits rest op fuel n m ≡ digits rest op more n m
  digits_enough zero zero n m h k = refl
  digits_enough zero (suc more) zero m h k = refl
  digits_enough (suc fuel) zero zero m h k = refl
  digits_enough (suc fuel) (suc more) zero m h k = refl
  digits_enough zero (suc more) (suc n) m h k = absurd (omega arith)
  digits_enough (suc fuel) zero (suc n) m h k = absurd (omega arith)
  digits_enough (suc fuel) (suc more) (suc n) m h k =
      let halves = digits_enough fuel more (suc n / 2) (m / 2) (omega arith) (omega arith) in
      ap (λ (t : ℕ). t * 2 + op (suc n % 2) (m % 2)) halves

pub or_low_digit : (n m : ℕ) → bit_or n m ≡ bit_or (n / 2) (m / 2) * 2 + max (n % 2) (m % 2)
or_low_digit zero m = omega (arith, bit_or-bitwise 0 m, bit_or-bitwise 0 (m / 2))
or_low_digit (suc n) m = omega (
  arith,
  bit_or-bitwise (suc n) m,
  bit_or-bitwise (suc n / 2) (m / 2),
  digits_enough (λ b. b) max n (suc n / 2) (suc n / 2) (m / 2) (omega arith) (omega arith),
)

pub xor_low_digit : (n m : ℕ) → bit_xor n m ≡ bit_xor (n / 2) (m / 2) * 2 + differ (n % 2) (m % 2)
xor_low_digit zero m = omega (arith, bit_xor-bitwise 0 m, bit_xor-bitwise 0 (m / 2))
xor_low_digit (suc n) m = omega (
  arith,
  bit_xor-bitwise (suc n) m,
  bit_xor-bitwise (suc n / 2) (m / 2),
  digits_enough (λ b. b) differ n (suc n / 2) (suc n / 2) (m / 2) (omega arith) (omega arith),
)

or_zero_fuel : (fuel n : ℕ) → n ≤ fuel → bit_or n 0 ≡ n
or_zero_fuel zero zero h = refl
or_zero_fuel zero (suc n) h = absurd (omega arith)
or_zero_fuel (suc fuel) zero h = refl
or_zero_fuel (suc fuel) (suc n) h =
    omega (arith, or_low_digit (suc n) 0, or_zero_fuel fuel (suc n / 2) (omega arith))

double_power : (q k : ℕ) → q * 2 ^ suc k ≡ q * 2 ^ k * 2
double_power q k = omega (arith, ap (λ (t : ℕ). q * t) (pow-suc 2 k))

-- The bits of `q << k` and of an `r` that fits in `k` bits do not meet, so `|` adds them.
pub bit_or_add : (k q r : ℕ) → r < 2 ^ k → bit_or (q << k) r ≡ q * 2 ^ k + r
bit_or_add zero q zero h = omega (arith, or_zero_fuel (q * 2 ^ 0) (q * 2 ^ 0) (omega arith))
bit_or_add zero q (suc r) h = absurd (omega arith)
bit_or_add (suc k) q r h =
    let below : r / 2 < 2 ^ k = omega (arith, pow-suc 2 k) in
    let even : q * 2 ^ suc k / 2 ≡ q * 2 ^ k = omega (arith, double_power q k) in
    omega (
      arith,
      or_low_digit (q * 2 ^ suc k) r,
      ap (λ (t : ℕ). bit_or t (r / 2)) even,
      bit_or_add k q (r / 2) below,
      double_power q k,
      max_zero (q * 2 ^ suc k % 2) (r % 2) (omega (arith, double_power q k)),
    )
  where
    max_zero : (x y : ℕ) → x ≡ 0 → max x y ≡ y
    max_zero x y e = omega arith

differ_back : (x y : ℕ) → x < 2 → y < 2 → (differ (differ x y) y ≡ x) × (differ x y < 2)
differ_back zero zero h k = (refl, omega arith)
differ_back zero (suc zero) h k = (refl, omega arith)
differ_back (suc zero) zero h k = (refl, omega arith)
differ_back (suc zero) (suc zero) h k = (refl, omega arith)
differ_back (suc (suc x)) y h k = absurd (omega arith)
differ_back zero (suc (suc y)) h k = absurd (omega arith)
differ_back (suc zero) (suc (suc y)) h k = absurd (omega arith)

-- The low digit and the rest of a number split in two.
split_digits : (n q d : ℕ) → n ≡ q * 2 + d → d < 2 → (n / 2 ≡ q) × (n % 2 ≡ d)
split_digits n q d e h = (omega arith, omega arith)

xor_undo_fuel : (fuel n m : ℕ) → n ≤ fuel → m ≤ fuel → bit_xor (bit_xor n m) m ≡ n
xor_undo_fuel zero zero zero h k = refl
xor_undo_fuel zero zero (suc m) h k = absurd (omega arith)
xor_undo_fuel zero (suc n) m h k = absurd (omega arith)
xor_undo_fuel (suc fuel) n m h k =
    let digit = differ_back (n % 2) (m % 2) (omega arith) (omega arith) in
    let parts =
      split_digits (bit_xor n m) (bit_xor (n / 2) (m / 2)) (differ (n % 2) (m % 2))
        (xor_low_digit n m) digit.1 in
    omega (
      arith,
      xor_low_digit (bit_xor n m) m,
      ap (λ (t : ℕ). bit_xor t (m / 2)) parts.0,
      ap (λ (t : ℕ). differ t (m % 2)) parts.1,
      digit.0,
      xor_undo_fuel fuel (n / 2) (m / 2) (omega arith) (omega arith),
    )

-- `^` by the same number twice gives the number back.
pub xor_undo : (n m : ℕ) → bit_xor (bit_xor n m) m ≡ n
xor_undo n m = xor_undo_fuel (n + m) n m (omega arith) (omega arith)

-- `^` of two numbers of `k` bits has `k` bits.
pub xor_lt : (k n m : ℕ) → n < 2 ^ k → m < 2 ^ k → bit_xor n m < 2 ^ k
xor_lt zero zero zero h h' = omega arith
xor_lt zero zero (suc m) h h' = absurd (omega arith)
xor_lt zero (suc n) m h h' = absurd (omega arith)
xor_lt (suc k) n m h h' =
    let digit = differ_back (n % 2) (m % 2) (omega arith) (omega arith) in
    let half : n / 2 < 2 ^ k = omega (arith, pow-suc 2 k) in
    let half' : m / 2 < 2 ^ k = omega (arith, pow-suc 2 k) in
    omega (arith, xor_low_digit n m, digit.1, xor_lt k (n / 2) (m / 2) half half', pow-suc 2 k)
