-- ===== src/Parser/Invariant/OfCode.antt =====
-- The operations that write code keep an invariant.
use tx_lang_cxx.Prelude.{ℕ, zero, suc, Bool, List, [], ◌∷◌}
use tx_lang_cxx.OpCode.{OpCode}
use tx_lang_cxx.Value.{Value}
use tx_lang_cxx.Parser.State.{Machine, Upvalue, Compiler, Parser, update_compiler}
use tx_lang_cxx.Parser.Emit.{
  emit_instruction, insert_constant, emit_upvalue, write_jump, emit_opcode,
  emit_var_length_instruction, add_constant, emit_constant, emit_upvalues, emit_closure, emit_jump,
  emit_loop, patch_jump,
}
use tx_lang_cxx.Parser.Scopes.{push_loop, begin_loop}
use tx_lang_cxx.Parser.Loops.{
  write_opcode, pop_loop, patch_at, patch_loop, patch_jumps_in_innermost_loop, end_loop,
}
use tx_lang_cxx.Parser.Keeps.{Keeps, keeps_rules}
use tx_lang_cxx.Parser.Invariant.{Invariant}
use tx_lang_cxx.Parser.Invariant.OfTokens.{error-Keeps}

module _ {F : Type 0} {machine : Machine F} {P : Parser F → Type 0}
    (inv : Invariant machine P) where
  pub emit_instruction-Keeps :
      (n : ℕ) (opc : OpCode) (operand : ℕ) → Keeps P (emit_instruction n opc operand)
  emit_instruction-Keeps = inv.on_instruction

  pub insert_constant-Keeps : (value : Value F) → Keeps P (update_compiler (insert_constant value))
  insert_constant-Keeps = inv.on_constant

  pub emit_upvalue-Keeps : (upvalue : Upvalue) → Keeps P (emit_upvalue upvalue)
  emit_upvalue-Keeps = inv.on_upvalue

  pub write_jump-Keeps :
      (offset distance : ℕ) → Keeps P (update_compiler (write_jump offset distance))
  write_jump-Keeps = inv.on_patch

  pub write_opcode-Keeps : (i : ℕ) (opc : OpCode) → Keeps P (update_compiler (write_opcode i opc))
  write_opcode-Keeps = inv.on_opcode

  pub pop_loop-Keeps : Keeps P (update_compiler pop_loop)
  pop_loop-Keeps = inv.on_loop_end

  pub push_loop-Keeps : (is_loop_expr : Bool) → Keeps P (update_compiler (push_loop is_loop_expr))
  push_loop-Keeps = inv.on_loop

  pub ruleset code_steps = (
    keeps_rules, error-Keeps, emit_instruction-Keeps, insert_constant-Keeps, emit_upvalue-Keeps,
    write_jump-Keeps, write_opcode-Keeps, pop_loop-Keeps, push_loop-Keeps,
  )

  pub emit_opcode-Keeps : (opc : OpCode) → Keeps P (emit_opcode opc)
  unfolding emit_opcode
  emit_opcode-Keeps opc = search code_steps depth 30

  pub emit_var_length_instruction-Keeps :
      (opc : OpCode) (idx : ℕ) → Keeps P (emit_var_length_instruction opc idx)
  unfolding emit_var_length_instruction
  emit_var_length_instruction-Keeps opc idx = search code_steps depth 30

  pub add_constant-Keeps : (value : Value F) → Keeps P (add_constant machine value)
  unfolding add_constant
  add_constant-Keeps value = search code_steps depth 30

  pub emit_constant-Keeps : (value : Value F) → Keeps P (emit_constant machine value)
  unfolding emit_constant
  emit_constant-Keeps value =
      search (code_steps, add_constant-Keeps, emit_var_length_instruction-Keeps) depth 30

  pub emit_upvalues-Keeps : (upvalues : List Upvalue) → Keeps P (emit_upvalues upvalues)
  unfolding emit_upvalues
  emit_upvalues-Keeps [] = search code_steps depth 30
  emit_upvalues-Keeps (upvalue ∷ upvalues) =
      let rest = emit_upvalues-Keeps upvalues in search code_steps depth 30

  pub emit_closure-Keeps :
      (compiler : Compiler F) (address : ℕ) → Keeps P (emit_closure machine compiler address)
  unfolding emit_closure
  emit_closure-Keeps compiler address =
      search
        (code_steps, add_constant-Keeps, emit_var_length_instruction-Keeps, emit_upvalues-Keeps)
        depth 30

  pub emit_jump-Keeps : (instruction : OpCode) → Keeps P (emit_jump instruction)
  unfolding emit_jump
  emit_jump-Keeps instruction = search code_steps depth 30

  pub emit_loop-Keeps : (loop_start : ℕ) → Keeps P (emit_loop loop_start)
  unfolding emit_loop
  emit_loop-Keeps loop_start = search code_steps depth 30

  pub patch_jump-Keeps : (offset : ℕ) → Keeps P (patch_jump offset)
  unfolding patch_jump
  patch_jump-Keeps offset = search code_steps depth 30

  pub patch_at-Keeps : (i : ℕ) (opc : OpCode) → Keeps P (patch_at i opc)
  unfolding patch_at
  patch_at-Keeps i opc = search (code_steps, patch_jump-Keeps) depth 30

  pub patch_loop-Keeps : (fuel i : ℕ) → Keeps P (patch_loop fuel i)
  unfolding patch_loop
  patch_loop-Keeps zero i = search keeps_rules
  patch_loop-Keeps (suc fuel) i =
      let rest : (j : ℕ) → Keeps P (patch_loop fuel j) = patch_loop-Keeps fuel in
      search (keeps_rules, patch_at-Keeps) depth 30

  pub patch_jumps_in_innermost_loop-Keeps : Keeps P patch_jumps_in_innermost_loop
  unfolding patch_jumps_in_innermost_loop
  patch_jumps_in_innermost_loop-Keeps = search (keeps_rules, patch_loop-Keeps) depth 30

  pub begin_loop-Keeps : (is_loop_expr : Bool) → Keeps P (begin_loop is_loop_expr)
  unfolding begin_loop
  begin_loop-Keeps is_loop_expr = search code_steps depth 30

  pub end_loop-Keeps : Keeps P end_loop
  unfolding end_loop
  end_loop-Keeps = search (code_steps, patch_jumps_in_innermost_loop-Keeps) depth 30

  pub ruleset code_rules = (
    emit_instruction-Keeps, emit_opcode-Keeps, emit_var_length_instruction-Keeps,
    emit_constant-Keeps, emit_closure-Keeps, emit_jump-Keeps, emit_loop-Keeps, patch_jump-Keeps,
    begin_loop-Keeps, end_loop-Keeps,
  )
