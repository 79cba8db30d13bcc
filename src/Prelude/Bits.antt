-- ===== src/Prelude/Bits.antt =====
-- `x & (2 ^ k - 1)` is `x % 2 ^ k`: the mask by which a power of two wraps an index.
use Prim.Native.Nat.{
  ℕ, zero, suc, ◌+◌, ◌-◌, ◌*◌, ◌/◌, ◌%◌, ◌^◌, ◌≤◌, ◌<◌, min, bit_and, digits, bit_and-bitwise,
}
use mathlib.Core.Path.{◌≡◌, refl, ap}
use native.Mathlib.Omega.{arith}
use native.Mathlib.Nat.{pow-suc, div-div-eq-div-mul, mod-eq-sub-div-mul, div-mul-le_self}

-- The digit recursion behind the native operation does not depend on its fuel.
abbrev conj : ℕ → ℕ → ℕ → ℕ
conj n a b = digits (λ b. zero) min n a b

conj_fuel : (n m a b : ℕ) → a ≤ n → a ≤ m → conj n a b ≡ conj m a b
conj_fuel zero zero a b p q = refl
conj_fuel zero (suc m) zero b p q = refl
conj_fuel zero (suc m) (suc a) b p q = absurd (omega arith)
conj_fuel (suc n) zero zero b p q = refl
conj_fuel (suc n) zero (suc a) b p q = absurd (omega arith)
conj_fuel (suc n) (suc m) zero b p q = refl
conj_fuel (suc n) (suc m) (suc a) b p q =
    omega (arith, conj_fuel n m (suc a / 2) (b / 2) (omega arith) (omega arith))

bit_and_left : (y : ℕ) → bit_and 0 y ≡ 0
bit_and_left y = bit_and-bitwise 0 y

-- The lowest digit of the conjunction, and the rest of it.
bit_and-halves : (x y : ℕ) → bit_and x y ≡ bit_and (x / 2) (y / 2) * 2 + min (x % 2) (y % 2)
bit_and-halves zero y = let all = bit_and_left y in omega (arith, bit_and_left (y / 2))
bit_and-halves (suc x) y =
    let all = bit_and-bitwise (suc x) y in
    let rest = bit_and-bitwise (suc x / 2) (y / 2) in
    let same = conj_fuel x (suc x / 2) (suc x / 2) (y / 2) (omega arith) (omega arith) in
    omega arith

-- A number has no digit in common with 0.
no_common : (bound x : ℕ) → x < bound → bit_and x 0 ≡ 0
no_common zero x small = absurd (omega arith)
no_common (suc bound) zero small = bit_and_left 0
no_common (suc bound) (suc x) small =
    let half = no_common bound (suc x / 2) (omega arith) in
    omega (arith, half, bit_and-halves (suc x) 0)

bit_and-zero : (x : ℕ) → bit_and x 0 ≡ 0
bit_and-zero x = no_common (x + 1) x (omega arith)

pub pow_pos : (k : ℕ) → 0 < 2 ^ k
pow_pos zero = omega arith
pow_pos (suc k) = rw pow-suc (omega (arith, pow_pos k))

-- The last binary digit of a remainder by an even number, and the rest of it.
mod_double : (a m : ℕ) → a % (2 * m) ≡ a / 2 % m * 2 + a % 2
mod_double a m = omega (
  arith,
  div-div-eq-div-mul a 2 m,
  mod-eq-sub-div-mul a (2 * m),
  div-mul-le_self a (2 * m),
  mod-eq-sub-div-mul (a / 2) m,
  div-mul-le_self (a / 2) m,
  ap (λ t. t * m) (div-div-eq-div-mul a 2 m),
)

pub bit_and-mask : (k a : ℕ) → bit_and a (2 ^ k - 1) ≡ a % 2 ^ k
bit_and-mask zero a = omega (arith, bit_and-zero a)
bit_and-mask (suc k) a =
    let twice : 2 ^ suc k ≡ 2 * 2 ^ k = rw pow-suc (omega arith) in
    let half : (2 ^ suc k - 1) / 2 ≡ 2 ^ k - 1 = omega (arith, pow_pos k) in
    let odd : (2 ^ suc k - 1) % 2 ≡ 1 = omega (arith, pow_pos k) in
    rw (bit_and-halves, half, odd, bit_and-mask k (a / 2), twice, mod_double) (omega arith)
