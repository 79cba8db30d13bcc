-- ===== src/Utils.antt =====
-- tx-runtime/include/tx/utils.hxx, and the hash function of hash_murmur.hxx on 32 bit words. A word
-- is a number below 2 ^ 32; memory is little endian.
pub mod Digits
use Prim.Native.Nat.{bit_or, bit_xor}
use tx_lang_cxx.Prelude.{
  ℕ, zero, suc, ◌+◌, ◌-◌, ◌*◌, ◌/◌, ◌%◌, ◌^◌, bit_and, Bool, true, false, not, ◌&&◌, Option, none,
  some, List, [], ◌∷◌, length, take, drop, ltb, leb, ◌==◌, if◌then◌else◌,
}

-- `(val & (val - 1)) == 0` on words of `w` bits
unfoldable pub is_power_of_2 : ℕ → ℕ → Bool
is_power_of_2 w val = bit_and val ((val + 2 ^ w - 1) % 2 ^ w) == 0

-- `val |= val >> shift`
abbrev pub smear : ℕ → ℕ → ℕ
smear shift val = bit_or val (val / 2 ^ shift)

unfoldable pub power_of_2_ceil_u32 : ℕ → ℕ
power_of_2_ceil_u32 val =
    let below = (val + 2 ^ 32 - 1) % 2 ^ 32 in
    (smear 16 (smear 8 (smear 4 (smear 2 (smear 1 below)))) + 1) % 2 ^ 32

unfoldable pub power_of_2_ceil_u64 : ℕ → ℕ
power_of_2_ceil_u64 val =
    let below = (val + 2 ^ 64 - 1) % 2 ^ 64 in
    (smear 32 (smear 16 (smear 8 (smear 4 (smear 2 (smear 1 below))))) + 1) % 2 ^ 64

-- The loop of `count_digit` on a number that is not negative; a number has fewer digits than its own value and one.
count_digit_loop : ℕ → ℕ → ℕ → Option ℕ
count_digit_loop zero number count = none
count_digit_loop (suc fuel) number count =
    let rest = count_digit_loop fuel (number / 10) (count + 1) in
    if not (number == 0) then rest else some count

unfoldable pub count_digit : ℕ → Option ℕ
unfolding count_digit_loop
count_digit number = count_digit_loop (number + 1) number 0

-- `std::rotl` on 32 bits
abbrev pub rotl : ℕ → ℕ → ℕ
rotl val n = (val * 2 ^ n) % 2 ^ 32 + val / 2 ^ (32 - n)

abbrev pub murmur_32_scramble : ℕ → ℕ
murmur_32_scramble val = rotl (val * 0xcc9e2d51 % 2 ^ 32) 15 * 0x1b873593 % 2 ^ 32

abbrev pub murmur_32_fmix : ℕ → ℕ
murmur_32_fmix val =
    let val₁ = bit_xor val (val / 2 ^ 16) * 0x85ebca6b % 2 ^ 32 in
    let val₂ = bit_xor val₁ (val₁ / 2 ^ 13) * 0xc2b2ae35 % 2 ^ 32 in bit_xor val₂ (val₂ / 2 ^ 16)

-- The blocks of four bytes, and the tail, of a key of fewer than 2 ^ 32 bytes.
unfoldable pub murmur_body : List ℕ → ℕ → ℕ
murmur_body (b₀ ∷ b₁ ∷ b₂ ∷ b₃ ∷ key) hash =
    let blk = b₀ + b₁ * 2 ^ 8 + b₂ * 2 ^ 16 + b₃ * 2 ^ 24 in
    let mixed = rotl (bit_xor hash (murmur_32_scramble blk)) 13 in
    murmur_body key ((mixed * 5 + 0xe6546b64) % 2 ^ 32)
murmur_body (b₀ ∷ b₁ ∷ b₂ ∷ []) hash =
    bit_xor hash (murmur_32_scramble (bit_xor (bit_xor (b₂ * 2 ^ 16) (b₁ * 2 ^ 8)) b₀))
murmur_body (b₀ ∷ b₁ ∷ []) hash = bit_xor hash (murmur_32_scramble (bit_xor (b₁ * 2 ^ 8) b₀))
murmur_body (b₀ ∷ []) hash = bit_xor hash (murmur_32_scramble b₀)
murmur_body [] hash = hash

unfoldable pub murmur3_32 : List ℕ → ℕ → ℕ
unfolding murmur_body
murmur3_32 key seed = murmur_32_fmix (bit_xor (murmur_body key seed) (length key % 2 ^ 32))

abbrev pub or_index : Option ℕ → ℕ → Option ℕ
or_index none index = some index
or_index (some begin) index = some begin

-- The loop of `get_text_of_line`: where the line begins, and where it ends.
unfoldable pub line_bounds : ℕ → List ℕ → ℕ → ℕ → Option ℕ → Option ℕ × Option ℕ
line_bounds line [] index current_line begin = (begin, none)
line_bounds line (chr ∷ chars) index current_line begin =
    let begin' = if current_line == line then or_index begin index else begin in
    let next = line_bounds line chars (index + 1) (current_line + 1) begin' in
    let on = line_bounds line chars (index + 1) current_line begin' in
    if chr == b'\n' then (if current_line == line then (begin', some index) else next) else on

abbrev pub value_or : Option ℕ → ℕ → ℕ
value_or none other = other
value_or (some n) other = n

unfoldable pub get_text_of_line : List ℕ → ℕ → List ℕ
unfolding line_bounds
get_text_of_line source line =
    let (begin, end) = line_bounds line source 0 1 none in
    take (value_or end (length source) - value_or begin 0) (drop (value_or begin 0) source)
