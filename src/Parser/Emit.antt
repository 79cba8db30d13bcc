-- ===== src/Parser/Emit.antt =====
-- How the compiler writes byte code: the methods `Parser::emit_…`, `add_constant` and `patch_jump` of
-- tx-runtime/include/tx/compiler.hxx and compiler_inl.hxx.
use tx_lang_cxx.Prelude.{
  ℕ, zero, suc, ◌+◌, ◌-◌, ◌/◌, bit_and, Bool, ◌||◌, Option, none, some, List, [], ◌∷◌, length,
  get_elem?, leb, ltb, ◌==◌, if◌then◌else◌,
}
use tx_lang_cxx.Prelude.Int.{ℤ, pos, negsuc, sub_ℕ, ◌+ℤ◌}
use tx_lang_cxx.OpCode.{OpCode, to_underlying, get_byte_count_following_opcode, opcode_stack_effect}
use tx_lang_cxx.Value.{Value, equal}
use tx_lang_cxx.Chunk
use tx_lang_cxx.Chunk.{
  Chunk, write_bytes, write_instruction, append_multibyte_operand, write_multibyte_operand,
}
use tx_lang_cxx.Parser.State.{
  Machine, Compiler, Upvalue, Action, pure, invalid, gets, lift, with_compiler, update_compiler,
  set_chunk, ◌>>=◌, ◌>>◌, on_option, when,
}
use tx_lang_cxx.Parser.Tokens.{error}

abbrev pub opcodes : List OpCode
opcodes =
    OpCode.constant ∷ OpCode.constant_long ∷ OpCode.nil ∷ OpCode.true ∷ OpCode.false ∷ OpCode.pop
    ∷ OpCode.get_local ∷ OpCode.get_local_long ∷ OpCode.set_local ∷ OpCode.set_local_long
    ∷ OpCode.get_global ∷ OpCode.get_global_long ∷ OpCode.set_global ∷ OpCode.set_global_long
    ∷ OpCode.define_global ∷ OpCode.define_global_long ∷ OpCode.get_upvalue
    ∷ OpCode.get_upvalue_long ∷ OpCode.set_upvalue ∷ OpCode.set_upvalue_long ∷ OpCode.equal
    ∷ OpCode.not_equal ∷ OpCode.greater ∷ OpCode.greater_equal ∷ OpCode.less ∷ OpCode.less_equal
    ∷ OpCode.add ∷ OpCode.substract ∷ OpCode.multiply ∷ OpCode.divide ∷ OpCode.not ∷ OpCode.negate
    ∷ OpCode.jump ∷ OpCode.jump_if_false ∷ OpCode.loop ∷ OpCode.call ∷ OpCode.closure
    ∷ OpCode.closure_long ∷ OpCode.end_scope ∷ OpCode.end_scope_long ∷ OpCode.return ∷ OpCode.end
    ∷ []

-- `as_opcode` of a byte; `none` is a byte that is no opcode
unfoldable pub as_opcode : ℕ → Option OpCode
as_opcode byte = get_elem? opcodes byte

unfoldable pub get_opcode_stack_effect : OpCode → ℕ → ℤ
get_opcode_stack_effect opc operand =
    let minus : ℤ = sub_ℕ 0 operand in
    elim opc [
      | OpCode.call ↦ minus
      | OpCode.end_scope ↦ minus
      | OpCode.end_scope_long ↦ minus
      | other ↦ opcode_stack_effect other
    ]

-- `max_slots` after a change of `num_slots`
abbrev pub raise_slots : ℕ → ℤ → ℕ
raise_slots max_slots (pos n) = if ltb max_slots n then n else max_slots
raise_slots max_slots (negsuc n) = max_slots

abbrev pub same_opcode : OpCode → OpCode → Bool
same_opcode a b = to_underlying a == to_underlying b

module _ {F : Type 0} where
  -- the effect of an instruction on the compiler
  unfoldable pub add_instruction : ℕ → ℕ → OpCode → ℕ → Compiler F → Compiler F
  add_instruction n line opc operand c =
      let num_slots = c.num_slots +ℤ get_opcode_stack_effect opc operand in
      record c {
        obj_function = record c.obj_function {
          chunk = write_instruction c.obj_function.chunk n line opc operand;
          max_slots = raise_slots c.obj_function.max_slots num_slots;
        };
        num_slots = num_slots;
      }

  unfoldable pub emit_bytes : List ℕ → Action F (Unit {0})
  emit_bytes bytes = do
    line ← gets (λ p. p.previous.line)
    update_compiler λ c. set_chunk (write_bytes c.obj_function.chunk line bytes) c

  -- `emit_instruction<N>(opc, operand)`
  unfoldable pub emit_instruction : ℕ → OpCode → ℕ → Action F (Unit {0})
  emit_instruction n opc operand = do
    line ← gets (λ p. p.previous.line)
    if same_opcode opc OpCode.end || n == get_byte_count_following_opcode opc
        then update_compiler (add_instruction n line opc operand)
        else invalid

  -- `emit_instruction(opc)`
  unfoldable pub emit_opcode : OpCode → Action F (Unit {0})
  emit_opcode opc =
      if get_byte_count_following_opcode opc == 0 then emit_instruction 0 opc 0 else invalid

  unfoldable pub emit_var_length_instruction : OpCode → ℕ → Action F (Unit {0})
  emit_var_length_instruction opc idx =
      if ltb idx 256
      then emit_instruction 1 opc idx
      else if ltb idx 16777216
      then (do long ← lift (as_opcode (to_underlying opc + 1)); emit_instruction 3 long idx)
      else invalid

  -- the search in `constant_indices`
  abbrev pub find_index : (F → F → Bool) → List (Value F × ℕ) → Value F → Option ℕ
  find_index float_equal [] value = none
  find_index float_equal ((key, idx) ∷ indices) value =
      let rest = find_index float_equal indices value in
      if equal float_equal key value then some idx else rest

  -- the rest of `add_constant`, for a value that has no index yet
  unfoldable pub insert_constant : Value F → Compiler F → Compiler F
  insert_constant value c =
      let (idx, chunk) = Chunk.add_constant c.obj_function.chunk value in
      record (set_chunk chunk c) { constant_indices = (value, idx) ∷ c.constant_indices }

  unfoldable pub add_constant : Machine F → Value F → Action F ℕ
  add_constant machine value = do
    existing ← with_compiler (λ c. find_index machine.float_equal c.constant_indices value)
    let added : Action F ℕ = do
      idx ← with_compiler (λ c. (Chunk.add_constant c.obj_function.chunk value).0)
      update_compiler (insert_constant value)
      pure idx
    on_option existing added pure

  unfoldable pub emit_constant : Machine F → Value F → Action F (Unit {0})
  emit_constant machine value = do
    idx ← add_constant machine value
    emit_var_length_instruction OpCode.constant idx

-- The loop that counts the bytes of an index; eight rounds shift out an index of 64 bits.
unfoldable pub byte_length_loop : ℕ → ℕ → ℕ → ℕ
byte_length_loop zero idx result = result
byte_length_loop (suc fuel) idx result =
    let more = byte_length_loop fuel (idx / 256) (result + 1) in if idx == 0 then result else more

unfoldable pub byte_length : ℕ → ℕ
byte_length idx = let result = byte_length_loop 8 idx 0 in if result == 0 then 1 else result

-- `is_local << 7 | length & 0x7f`, whose halves have no bit in common
abbrev pub upvalue_flags : Bool → ℕ → ℕ
upvalue_flags is_local length = (if is_local then 128 else 0) + bit_and length 0x7f

module _ {F : Type 0} where
  -- the body of the loop in `emit_closure`
  unfoldable pub emit_upvalue : Upvalue → Action F (Unit {0})
  emit_upvalue upvalue =
      let length = byte_length upvalue.index in
      if ltb upvalue.index 16777216
      then (do
        emit_bytes (upvalue_flags upvalue.is_local length ∷ [])
        line ← gets (λ p. p.previous.line)
        if leb length 3
            then update_compiler (λ c.
              set_chunk (append_multibyte_operand c.obj_function.chunk length line upvalue.index) c)
            else invalid)
      else invalid

  unfoldable pub emit_upvalues : List Upvalue → Action F (Unit {0})
  emit_upvalues [] = pure tt
  emit_upvalues (upvalue ∷ upvalues) = do emit_upvalue upvalue; emit_upvalues upvalues

  -- `address` is that of the function of the compiler that has ended.
  unfoldable pub emit_closure : Machine F → Compiler F → ℕ → Action F (Unit {0})
  emit_closure machine compiler address =
      if compiler.obj_function.upvalue_count == length compiler.upvalues
      then (do
        idx ← add_constant machine (Value.obj address)
        emit_var_length_instruction OpCode.closure idx
        emit_upvalues compiler.upvalues)
      else invalid

  abbrev pub code_size : Compiler F → ℕ
  code_size c = length c.obj_function.chunk.code

  unfoldable pub emit_jump : OpCode → Action F ℕ
  emit_jump instruction = do
    emit_instruction 2 instruction 0xffff
    size ← with_compiler code_size
    pure (size - 2)

  -- A loop starts inside the code that there is.
  unfoldable pub emit_loop : ℕ → Action F (Unit {0})
  emit_loop loop_start = do
    size ← with_compiler code_size
    let offset = size + 3 - loop_start
    when (ltb 65535 offset) (error "Loop body too large.")
    emit_instruction 2 OpCode.loop offset

  unfoldable pub write_jump : ℕ → ℕ → Compiler F → Compiler F
  write_jump offset distance c =
      let chunk = c.obj_function.chunk in
      set_chunk (record chunk { code = write_multibyte_operand 2 chunk.code offset distance }) c

  -- An operand that is not inside the code is undefined.
  unfoldable pub patch_jump : ℕ → Action F (Unit {0})
  patch_jump offset = do
    size ← with_compiler code_size
    let jump_distance = size - offset - 2
    if leb (offset + 2) size
        then (do
          when (ltb 65535 jump_distance) (error "Too much code to jump over.")
          update_compiler (write_jump offset jump_distance))
        else invalid
