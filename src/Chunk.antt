-- ===== src/Chunk.antt =====
-- tx-runtime/include/tx/chunk.hxx: a chunk of byte code with its table of lines, and the operands
-- of instructions as little endian bytes. Reading past the end of the code is undefined in the
-- source; here the result is `none`.

pub mod Operands
pub mod Lines
pub mod Writes
pub mod Instructions
use tx_lang_cxx.Prelude.{
  ℕ, zero, suc, ◌+◌, ◌-◌, ◌*◌, ◌/◌, ◌%◌, ◌^◌, bit_and, Bool, true, false, not, ◌&&◌, ◌||◌, Option,
  none, some, List, [], ◌∷◌, ◌++◌, length, get_elem?, set, replicate, leb, ltb, ◌==◌, if◌then◌else◌,
}
use tx_lang_cxx.OpCode
use tx_lang_cxx.OpCode.{OpCode, to_underlying}
use tx_lang_cxx.Value.{Value}

abbrev pub bind {ℓ κ} : {A : Type ℓ} {B : Type κ} → Option A → (A → Option B) → Option B
bind none f = none
bind (some a) f = f a

-- One byte of the loop: `(val >> (i * 8)) & 0xff`.
abbrev pub byte_at : ℕ → ℕ → ℕ
byte_at val i = bit_and (val / 2 ^ (i * 8)) 0xff

-- The loop of the free function `write_multibyte_operand`, with `n` rounds left.
write_operand_from : ℕ → ℕ → ℕ → List ℕ → ℕ → List ℕ
write_operand_from zero i val code ptr = code
write_operand_from (suc n) i val code ptr =
    write_operand_from n (i + 1) val (set code (ptr + i) (byte_at val i)) ptr

-- `write_multibyte_operand<N>(ptr, value)`, the operand truncated to 32 bits.
unfoldable pub write_multibyte_operand : ℕ → List ℕ → ℕ → ℕ → List ℕ
unfolding write_operand_from
write_multibyte_operand n code ptr value = write_operand_from n 0 (value % 2 ^ 32) code ptr

read_operand_from : ℕ → ℕ → ℕ → List ℕ → ℕ → Option ℕ
read_operand_from zero i result code ptr = some result
read_operand_from (suc n) i result code ptr =
    bind (get_elem? code (ptr + i))
      λ b. read_operand_from n (i + 1) ((result + b * 2 ^ (i * 8) % 2 ^ 32) % 2 ^ 32) code ptr

-- `read_multibyte_operand<N>(ptr)`
unfoldable pub read_multibyte_operand : ℕ → List ℕ → ℕ → Option ℕ
unfolding read_operand_from
read_multibyte_operand n code ptr = read_operand_from n 0 0 code ptr

-- `read_closure_operand(ptr)`: whether the upvalue is a local, its index, and the bytes read. A
-- length outside 1 to 3 fails the assertions.
unfoldable pub read_closure_operand : List ℕ → ℕ → Option (Bool × ℕ × ℕ)
read_closure_operand code ptr = bind (get_elem? code ptr) λ flags.
    let len = bit_and flags 0x7f in
    let is_local = not (bit_and flags 0x80 == 0) in
    if leb 1 len && leb len 3
    then bind (read_multibyte_operand len code (ptr + 1)) (λ index. some (is_local, index, 1 + len))
    else none

pub record LineStart : Type 0 where
  pub offset : ℕ
  pub line : ℕ

pub record Chunk (F : Type 0) : Type 0 where
  pub code : List ℕ
  pub lines : List LineStart
  pub constants : List (Value F)

-- `lines[lines.size() - 1]`, if there is one
abbrev pub last_line : List LineStart → Option LineStart
last_line [] = none
last_line (l ∷ []) = some l
last_line (l ∷ m ∷ ls) = last_line (m ∷ ls)

-- the guard of `write_line`: the last entry is for the same line
abbrev pub same_line : Option LineStart → ℕ → Bool
same_line none line = false
same_line (some l) line = l.line == line

module _ {F : Type 0} where
  unfoldable pub write_line : Chunk F → ℕ → Chunk F
  write_line c line =
      if same_line (last_line c.lines) line
      then c
      else (record c { lines = c.lines ++ record { offset = length c.code; line = line } ∷ [] })

  unfoldable pub add_constant : Chunk F → Value F → ℕ × Chunk F
  add_constant c v =
      let constants = c.constants ++ v ∷ [] in
      (length constants - 1, record c { constants = constants })

  unfoldable pub write_bytes : Chunk F → ℕ → List ℕ → Chunk F
  unfolding write_line
  write_bytes c line bytes = let c' = write_line c line in record c' { code = c'.code ++ bytes }

  -- the member `write_multibyte_operand<N>`: the code grows by `n` bytes `OpCode::END`, which the
  -- operand then overwrites
  unfoldable pub append_multibyte_operand : Chunk F → ℕ → ℕ → ℕ → Chunk F
  unfolding write_line to_underlying
  append_multibyte_operand c n line operand =
      let c' = write_line c line in
      let grown = c'.code ++ replicate n (to_underlying OpCode.end) in
      record c' { code = write_multibyte_operand n grown (length c'.code) operand }

  unfoldable pub write_instruction : Chunk F → ℕ → ℕ → OpCode → ℕ → Chunk F
  unfolding write_line append_multibyte_operand
  write_instruction c n line opc operand =
      let c' = write_line c line in
      append_multibyte_operand (record c' { code = c'.code ++ to_underlying opc ∷ [] }) n line
        operand

-- `std::midpoint`, which rounds towards its first argument
abbrev pub midpoint : ℕ → ℕ → ℕ
midpoint a b = if leb a b then a + (b - a) / 2 else a - (a - b) / 2

-- The loop of `get_line` on fuel. At `mid = 0` the source sets `end` to -1, takes 0 for the next
-- midpoint and repeats itself for ever: that is `none` too, as is a read outside `lines`.
get_line_loop : ℕ → List LineStart → ℕ → ℕ → ℕ → Option ℕ
get_line_loop zero lines instruction start end = none
get_line_loop (suc fuel) lines instruction start end =
    let mid = midpoint start end in
    let left = get_line_loop fuel lines instruction start (mid - 1) in
    let right = get_line_loop fuel lines instruction (mid + 1) end in
    bind (get_elem? lines mid) λ line.
      if ltb instruction line.offset
      then (if mid == 0 then none else left)
      else if mid == length lines - 1
      then some line.line
      else bind (get_elem? lines (mid + 1))
          λ next. if ltb instruction next.offset then some line.line else right

unfoldable pub get_line : {F : Type 0} → Chunk F → ℕ → Option ℕ
unfolding get_line_loop
get_line c instruction =
    get_line_loop (length c.lines + 1) c.lines instruction 0 (length c.lines - 1)
