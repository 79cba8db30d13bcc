-- ===== src/Parser/Loops.antt =====
-- The end of a loop: `patch_jumps_in_innermost_loop` and `end_loop` of
-- tx-runtime/include/tx/compiler_inl.hxx. The walk over the code is undefined where a byte is no opcode
-- or a constant no function.
use tx_lang_cxx.Prelude.{
  ℕ, zero, suc, ◌+◌, Option, none, some, List, [], ◌∷◌, get_elem?, set, ltb, if◌then◌else◌,
}
use tx_lang_cxx.OpCode.{OpCode, to_underlying, get_byte_count_following_opcode}
use tx_lang_cxx.Value.{Value}
use tx_lang_cxx.Chunk.{Chunk, read_multibyte_operand, read_closure_operand}
use tx_lang_cxx.Parser.State.{
  Loop, ObjFunction, Compiler, Object, Action, pure, endless, gets, lift, with_compiler,
  update_compiler, set_chunk, ◌>>=◌, ◌>>◌,
}
use tx_lang_cxx.Parser.Emit.{as_opcode, code_size, patch_jump, same_opcode}

-- The length of the operands behind a closure's index.
unfoldable pub skip_closure_operands : ℕ → List ℕ → ℕ → Option ℕ
skip_closure_operands zero code i = some i
skip_closure_operands (suc count) code i = elim (read_closure_operand code i) [
  | none ↦ none
  | some (is_local, index, len) ↦ skip_closure_operands count code (i + len)
]

module _ {F : Type 0} where
  -- `constants[constant_idx].as_object().as<ObjFunction>().upvalue_count`
  abbrev pub function_at : List (Object F) → Option (Value F) → Option (ObjFunction F)
  function_at objects (some (Value.obj address)) = elim (get_elem? objects address) [
    | some (Object.obj_function f) ↦ some f
    | _ ↦ none
  ]
  function_at objects _ = none

  -- The position behind a closure's instruction as the source computes it: `i += 1 + 1` also for
  -- the long one.
  unfoldable pub skip_closure : ℕ → List (Object F) → Chunk F → ℕ → Option ℕ
  skip_closure n objects chunk i = elim (read_multibyte_operand n chunk.code (i + 1)) [
    | none ↦ none
    | some constant_idx ↦ elim (function_at objects (get_elem? chunk.constants constant_idx)) [
      | none ↦ none
      | some f ↦ skip_closure_operands f.upvalue_count chunk.code (i + 1 + 1)
    ]
  ]

  -- `code[i]` as an opcode
  abbrev pub opcode_at : ℕ → Compiler F → Option OpCode
  opcode_at i c = elim (get_elem? c.obj_function.chunk.code i) [
    | none ↦ none
    | some byte ↦ as_opcode byte
  ]

  unfoldable pub write_opcode : ℕ → OpCode → Compiler F → Compiler F
  write_opcode i opc c =
      let chunk = c.obj_function.chunk in
      set_chunk (record chunk { code = set chunk.code i (to_underlying opc) }) c

  -- what a round of the walk does with an opcode, and the position that it goes on from
  unfoldable pub patch_at : ℕ → OpCode → Action F ℕ
  patch_at i opc = do
    objects ← gets (λ p. p.objects)
    chunk ← with_compiler (λ c. c.obj_function.chunk)
    let patched : Action F ℕ = do
      update_compiler (write_opcode i OpCode.jump)
      patch_jump (i + 1)
      pure (i + 1 + get_byte_count_following_opcode OpCode.jump)
    if same_opcode opc OpCode.closure
        then lift (skip_closure 1 objects chunk i)
        else if same_opcode opc OpCode.closure_long
        then lift (skip_closure 3 objects chunk i)
        else if same_opcode opc OpCode.end
        then patched
        else pure (i + 1 + get_byte_count_following_opcode opc)

  unfoldable pub patch_loop : ℕ → ℕ → Action F (Unit {0})
  patch_loop zero i = endless
  patch_loop (suc fuel) i = do
    size ← with_compiler code_size
    let round : Action F (Unit {0}) = do
      opc ← with_compiler (opcode_at i)
      found ← lift opc
      next ← patch_at i found
      patch_loop fuel next
    if ltb i size then round else pure tt

  abbrev pub innermost_loop : Compiler F → Option Loop
  innermost_loop c = get_elem? c.loops 0

  -- Each round takes a byte at least.
  unfoldable pub patch_jumps_in_innermost_loop : Action F (Unit {0})
  patch_jumps_in_innermost_loop = do
    innermost ← with_compiler innermost_loop
    loop ← lift innermost
    size ← with_compiler code_size
    patch_loop (suc size) loop.start

  unfoldable pub pop_loop : Compiler F → Compiler F
  pop_loop c = elim c.loops [ [] ↦ c | loop ∷ loops ↦ record c { loops = loops } ]

  unfoldable pub end_loop : Action F (Unit {0})
  end_loop = do patch_jumps_in_innermost_loop; update_compiler pop_loop
