-- ===== src/Parser/Invariant.antt =====
-- What an invariant has to provide so that the whole grammar keeps it: one fact for each step that
-- changes the parser's state.
pub mod OfTokens
pub mod OfCode
pub mod OfVariables
pub mod OfTypes
pub mod OfSteps
pub mod Statements
pub mod OfGrammar
pub mod OfCompile
use Prim.Native.String.{String}
use tx_lang_cxx.Prelude.{ℕ, ◌≡◌, Bool, true, false, Option, none, some, List, [], ◌∷◌}
use tx_lang_cxx.OpCode
use tx_lang_cxx.OpCode.{OpCode}
use tx_lang_cxx.Value.{Value}
use tx_lang_cxx.TypeInfo.{TypeSet}
use tx_lang_cxx.Scanner.State
use tx_lang_cxx.Scanner.State.{Token}
use tx_lang_cxx.Parser.State.{
  Machine, Global, Upvalue, FunctionType, Compiler, Object, Parser, Action, update, update_compiler,
  ◌>>=◌, when, on_option,
}
use tx_lang_cxx.Parser.Tokens.{error_at, set_cut_short, shift, leave_panic_mode, scan}
use tx_lang_cxx.Parser.Emit.{
  emit_bytes, emit_instruction, insert_constant, emit_upvalue, write_jump, patch_jump,
}
use tx_lang_cxx.Parser.Scopes.{begin_compiler, pop_compiler, begin_scope, close_scope, push_loop}
use tx_lang_cxx.Parser.Loops.{write_opcode, pop_loop}
use tx_lang_cxx.Parser.Variables.{resolve_current, push_local, add_local}
use tx_lang_cxx.Parser.Globals.{push_object, push_global, define_at, initialize_back}
use tx_lang_cxx.Parser.Types.{ParametersAndReturn}
use tx_lang_cxx.Parser.Grammar.{set_signature, add_loop_types}
use tx_lang_cxx.Parser.Compile.{set_source}
use tx_lang_cxx.Parser.Keeps.{Keeps}

pub record Invariant {F : Type 0} (machine : Machine F) (P : Parser F → Type 0) : Type 0 where
  pub on_error : (token : Token F) (message : String) → Keeps P (error_at token message)
  pub on_flag : (flag : Parser F → Bool) → Keeps P (set_cut_short flag)
  pub on_calm : Keeps P leave_panic_mode
  pub on_shift : Keeps P shift
  pub on_source : (source : List ℕ) → Keeps P (set_source source)
  pub on_scan : Keeps P (scan machine)
  pub on_instruction :
      (n : ℕ) (opc : OpCode) (operand : ℕ) → Keeps P (emit_instruction n opc operand)
  pub on_constant : (value : Value F) → Keeps P (update_compiler (insert_constant value))
  pub on_upvalue : (upvalue : Upvalue) → Keeps P (emit_upvalue upvalue)
  pub on_patch : (offset distance : ℕ) → Keeps P (update_compiler (write_jump offset distance))
  pub on_opcode : (i : ℕ) (opc : OpCode) → Keeps P (update_compiler (write_opcode i opc))
  pub on_compiler :
      (type : FunctionType) (name : Option (List ℕ)) → Keeps P (begin_compiler type name)
  pub on_end : Keeps P pop_compiler
  pub on_scope : Keeps P begin_scope
  pub on_close : Keeps P (update_compiler close_scope)
  pub on_loop : (is_loop_expr : Bool) → Keeps P (update_compiler (push_loop is_loop_expr))
  pub on_loop_end : Keeps P (update_compiler pop_loop)
  pub on_loop_types : (types : TypeSet) → Keeps P (update_compiler (add_loop_types types))
  pub on_resolve : (name : List ℕ) → Keeps P (resolve_current name)
  pub on_local :
      (name : List ℕ) (is_const : Bool) (types : TypeSet) → Keeps P (add_local name is_const types)
  pub on_initialize : Keeps P (update_compiler initialize_back)
  pub on_signature :
      (params : ParametersAndReturn F) → Keeps P (update_compiler (set_signature params))
  pub on_object : (bytes : List ℕ) → Keeps P (update (push_object (Object.obj_string bytes)))
  pub on_global : (name : Value F) (sig : Global) → Keeps P (update (push_global name sig))
  pub on_define : (idx : ℕ) → Keeps P (update (define_at idx))
