-- ===== src/Vm.antt =====
-- The instructions of the class `VM` that move the instruction pointer: the cases `JUMP`,
-- `JUMP_IF_FALSE` and `LOOP` of `run` in tx-runtime/include/tx/vm_inl.hxx. The pointer is an index into
-- the code; it stands behind the opcode. A pointer before the code is undefined.
use tx_lang_cxx.Prelude.{ℕ, ◌+◌, ◌-◌, ◌*◌, Bool, Option, none, some, List, ltb, if◌then◌else◌}
use tx_lang_cxx.Chunk.{bind, read_multibyte_operand}

unfoldable pub jump : List ℕ → ℕ → Option ℕ
jump code instruction_ptr =
    bind (read_multibyte_operand 2 code instruction_ptr)
      λ offset. some (instruction_ptr + 2 + offset)

-- `falsey` is `peek(0).is_falsey()`
unfoldable pub jump_if_false : Bool → List ℕ → ℕ → Option ℕ
jump_if_false falsey code instruction_ptr =
    bind (read_multibyte_operand 2 code instruction_ptr)
      λ offset. some (instruction_ptr + 2 + (if falsey then 1 else 0) * offset)

unfoldable pub loop : List ℕ → ℕ → Option ℕ
loop code instruction_ptr =
    bind (read_multibyte_operand 2 code instruction_ptr) λ offset.
      if ltb (instruction_ptr + 2) offset then none else some (instruction_ptr + 2 - offset)
