-- ===== src/Parser/Jumps.antt =====
-- The jumps that `patch_jump` and `emit_loop` of tx-runtime/include/tx/compiler_inl.hxx write, in the
-- run loop of vm_inl.hxx.
use tx_lang_cxx.Prelude.{
  ℕ, ◌+◌, ◌-◌, ◌≤◌, ◌<◌, ◌≡◌, refl, ◌⊎◌, Bool, false, some, List, ◌∷◌, length, get_or, le→leb, ltb,
  if◌then◌else◌, arith,
}
use tx_lang_cxx.OpCode.{OpCode, to_underlying, get_byte_count_following_opcode}
use tx_lang_cxx.Chunk.Operands.{read-write_multibyte_operand}
use tx_lang_cxx.Chunk.Instructions.{read-write_instruction}
use tx_lang_cxx.Vm
use tx_lang_cxx.Vm.{jump, jump_if_false}
use tx_lang_cxx.Scanner.State.{ok}
use tx_lang_cxx.Parser.State.{Compiler, Parser, pure, gets, with_compiler, update_compiler, ◌>>=◌}
use tx_lang_cxx.Parser.Emit.{
  code_size, write_jump, add_instruction, emit_instruction, emit_loop, patch_jump,
}

not_far : (n m : ℕ) → n ≤ m → ltb m n ≡ false
not_far n m h = ground arith

module _ {F : Type 0} (p : Parser F) (c : Compiler F) (cs : List (Compiler F))
    (e : p.compilers ≡ c ∷ cs) where
  -- A placeholder inside the code, from which the end is at most 65535 bytes away, is patched so that
  -- the jump goes to the end, and the conditional one if the condition is false. Nothing else
  -- changes: no other byte, no other part of the parser, and no error is reported.
  pub jump-patch_jump :
      (offset : ℕ)
      → offset + 2 ≤ code_size c
      → code_size c ≤ offset + 2 + 65535
      → let c' = write_jump offset (code_size c - offset - 2) c in
        let code = c'.obj_function.chunk.code in
        (patch_jump offset p ≡ ok (tt, record p { compilers = c' ∷ cs }))
        × (jump code offset ≡ some (code_size c))
        × ((falsey : Bool)
            → jump_if_false falsey code offset ≡ some (if falsey then code_size c else offset + 2))
        × (length code ≡ code_size c)
        × ((j : ℕ)
            → (j < offset) ⊎ (offset + 2 ≤ j)
            → get_or code j 0 ≡ get_or c.obj_function.chunk.code j 0)
  unfolding patch_jump ◌>>=◌ with_compiler update_compiler pure write_jump jump jump_if_false
  jump-patch_jump offset fits near =
      let d = code_size c - offset - 2 in
      let (reads, same, outside) =
        read-write_multibyte_operand 2 offset d c.obj_function.chunk.code (omega arith) fits
          (omega arith) in
      (
        rw (e, not_far d 65535 (omega arith), le→leb _ _ fits) refl,
        rw reads (ground arith),
        λ falsey. rw reads (ground arith),
        same,
        outside,
      )

  -- A loop that starts inside the code, at most 65532 bytes before its end, is closed by an
  -- instruction `LOOP` where the code ended, which takes the machine back to the start. The code
  -- before it stays, nothing else of the parser changes but the current compiler, and no error is
  -- reported.
  pub loop-emit_loop :
      (loop_start : ℕ)
      → loop_start ≤ code_size c
      → code_size c + 3 ≤ loop_start + 65535
      → let c' = add_instruction 2 p.previous.line OpCode.loop (code_size c + 3 - loop_start) c in
        let code = c'.obj_function.chunk.code in
        (emit_loop loop_start p ≡ ok (tt, record p { compilers = c' ∷ cs }))
        × (get_or code (code_size c) 0 ≡ to_underlying OpCode.loop)
        × (Vm.loop code (code_size c + 1) ≡ some loop_start)
        × (length code ≡ code_size c + 3)
        × ((j : ℕ) → j < code_size c → get_or code j 0 ≡ get_or c.obj_function.chunk.code j 0)
  unfolding emit_loop emit_instruction ◌>>=◌ with_compiler update_compiler gets pure add_instruction
      Vm.loop get_byte_count_following_opcode to_underlying
  loop-emit_loop loop_start inside near =
      let operand = code_size c + 3 - loop_start in
      let (size, opcode, reads, kept) =
        read-write_instruction c.obj_function.chunk 2 p.previous.line operand OpCode.loop
          (omega arith) (omega arith) in
      (
        rw (e, not_far operand 65535 (omega arith)) refl,
        opcode,
        rw reads (ground arith),
        omega (arith, size),
        kept,
      )
