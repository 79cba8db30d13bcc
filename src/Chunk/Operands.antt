-- ===== src/Chunk/Operands.antt =====
-- The operands of instructions: what `write_multibyte_operand` writes, `read_multibyte_operand`
-- reads back.
use native.Mathlib.Decide.{ℕ_discrete}
use tx_lang_cxx.Prelude.Bits.{bit_and-mask}
use tx_lang_cxx.Prelude.{
  ℕ, zero, suc, ◌+◌, ◌*◌, ◌/◌, ◌%◌, ◌^◌, ◌≤◌, ◌<◌, ◌≡◌, refl, ap, ◌∙◌, ◌⊎◌, some, List, length,
  get_or, set, length-set, get_or-set_self, get_or-set_ne, get_elem?-get_or, arith,
}
use tx_lang_cxx.Chunk.{byte_at, write_operand_from, write_multibyte_operand, read_multibyte_operand}

byte_at_lem : (val i : ℕ) → byte_at val i ≡ val / 2 ^ (i * 8) % 256
byte_at_lem val i = bit_and-mask 8 (val / 2 ^ (i * 8))

length-write_operand_from :
    (n i val ptr : ℕ) (code : List ℕ) → length (write_operand_from n i val code ptr) ≡ length code
unfolding write_operand_from
length-write_operand_from zero i val ptr code = refl
length-write_operand_from (suc n) i val ptr code =
    length-write_operand_from n (i + 1) val ptr (set code (ptr + i) (byte_at val i))
    ∙ length-set _ _ _

-- Bytes outside the operand stay.
write_operand_from_outside :
    (n i val ptr j : ℕ) (code : List ℕ)
    → (j < ptr + i) ⊎ (ptr + i + n ≤ j)
    → get_or (write_operand_from n i val code ptr) j 0 ≡ get_or code j 0
unfolding write_operand_from
write_operand_from_outside zero i val ptr j code h = refl
write_operand_from_outside (suc n) i val ptr j code h =
    write_operand_from_outside n (i + 1) val ptr j (set code (ptr + i) (byte_at val i))
      (omega arith)
    ∙ get_or-set_ne code (ptr + i) j (byte_at val i) 0 (omega arith)

-- A byte of the operand is the digit to the base 256.
write_operand_from_inside :
    (n i val ptr j : ℕ) (code : List ℕ)
    → i ≤ j
    → j < i + n
    → ptr + i + n ≤ length code
    → get_or (write_operand_from n i val code ptr) (ptr + j) 0 ≡ val / 2 ^ (j * 8) % 256
unfolding write_operand_from
write_operand_from_inside zero i val ptr j code lo hi fits = absurd (omega arith)
write_operand_from_inside (suc n) i val ptr j code lo hi fits =
    let code' = set code (ptr + i) (byte_at val i) in
    let size : length code' ≡ length code = length-set code (ptr + i) (byte_at val i) in
    elim (ℕ_discrete i j) [
      | yes e ↦
          write_operand_from_outside n (i + 1) val ptr (ptr + j) code' (omega arith)
          ∙ rw (← e) (get_or-set_self code (ptr + i) _ 0 (omega arith) ∙ byte_at_lem val i)
      | no d ↦
          write_operand_from_inside n (i + 1) val ptr j code' (omega arith) (omega arith)
            (omega arith)
    ]

-- The reader finds the bytes that stand at its pointer.
read_lem :
    (n ptr val : ℕ) (code : List ℕ)
    → n ≤ 3
    → ptr + n ≤ length code
    → val < 2 ^ (n * 8)
    → ((j : ℕ) → j < n → get_or code (ptr + j) 0 ≡ val / 2 ^ (j * 8) % 256)
    → read_multibyte_operand n code ptr ≡ some val
unfolding read_multibyte_operand
read_lem zero ptr val code small fits h bytes = ap some (omega arith)
read_lem (suc zero) ptr val code small fits h bytes =
    rw (get_elem?-get_or code (ptr + 0) 0 (omega arith), bytes 0 (omega arith))
      (ap some (omega arith))
read_lem (suc (suc zero)) ptr val code small fits h bytes =
    rw (get_elem?-get_or code (ptr + 0) 0 (omega arith), bytes 0 (omega arith))
      (rw (get_elem?-get_or code (ptr + 1) 0 (omega arith), bytes 1 (omega arith))
        (ap some (omega arith)))
read_lem (suc (suc (suc zero))) ptr val code small fits h bytes =
    rw (get_elem?-get_or code (ptr + 0) 0 (omega arith), bytes 0 (omega arith))
      (rw (get_elem?-get_or code (ptr + 1) 0 (omega arith), bytes 1 (omega arith))
        (rw (get_elem?-get_or code (ptr + 2) 0 (omega arith), bytes 2 (omega arith))
          (ap some (omega arith))))
read_lem (suc (suc (suc (suc n)))) ptr val code small fits h bytes = absurd (omega arith)

fits_u32 : (n value : ℕ) → n ≤ 3 → value < 2 ^ (n * 8) → value < 2 ^ 32
fits_u32 zero value small h = omega arith
fits_u32 (suc zero) value small h = omega arith
fits_u32 (suc (suc zero)) value small h = omega arith
fits_u32 (suc (suc (suc zero))) value small h = omega arith
fits_u32 (suc (suc (suc (suc n)))) value small h = absurd (omega arith)

-- An operand of at most three bytes that is written inside the code, and that fits into its bytes,
-- reads back as it was. The code keeps its length, and every byte outside the operand its value.
pub read-write_multibyte_operand :
    (n ptr value : ℕ) (code : List ℕ)
    → n ≤ 3
    → ptr + n ≤ length code
    → value < 2 ^ (n * 8)
    → (read_multibyte_operand n (write_multibyte_operand n code ptr value) ptr ≡ some value)
      × (length (write_multibyte_operand n code ptr value) ≡ length code)
      × ((j : ℕ)
          → (j < ptr) ⊎ (ptr + n ≤ j)
          → get_or (write_multibyte_operand n code ptr value) j 0 ≡ get_or code j 0)
unfolding write_multibyte_operand
read-write_multibyte_operand n ptr value code small fits h =
    let val = value % 2 ^ 32 in
    let same : val ≡ value = omega (arith, fits_u32 n value small h) in
    let out = write_operand_from n 0 val code ptr in
    (
      read_lem n ptr value out small (rw length-write_operand_from fits) h (λ j lt.
          write_operand_from_inside n 0 val ptr j code (omega arith) (omega arith) (omega arith)
          ∙ ap (λ v. v / 2 ^ (j * 8) % 256) same),
      length-write_operand_from n 0 val ptr code,
      λ j side. write_operand_from_outside n 0 val ptr j code (omega arith),
    )

pub length-write_multibyte_operand :
    (n ptr value : ℕ) (code : List ℕ)
    → length (write_multibyte_operand n code ptr value) ≡ length code
unfolding write_multibyte_operand
length-write_multibyte_operand n ptr value code =
    length-write_operand_from n 0 (value % 2 ^ 32) ptr code
