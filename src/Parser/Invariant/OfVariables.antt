-- ===== src/Parser/Invariant/OfVariables.antt =====
-- The operations on scopes and variables keep an invariant.
use tx_lang_cxx.Prelude.{ℕ, Bool, Option, List}
use tx_lang_cxx.Value.{Value}
use tx_lang_cxx.TypeInfo.{TypeSet}
use tx_lang_cxx.Scanner.State.{Token}
use tx_lang_cxx.Parser.State.{
  Machine, Global, FunctionType, Object, Parser, update, update_compiler,
}
use tx_lang_cxx.Parser.Scopes.{
  begin_compiler, pop_compiler, begin_scope, close_scope, end_compiler, end_scope,
}
use tx_lang_cxx.Parser.Variables.{resolve_current, add_local, declare_local_variable}
use tx_lang_cxx.Parser.Globals.{
  push_object, push_global, define_at, initialize_back, make_string, add_global, mark_initialized,
  define_variable, resolve_global, check_redeclaration, declare_global_variable, declare_variable,
}
use tx_lang_cxx.Parser.Types.{ParametersAndReturn}
use tx_lang_cxx.Parser.Grammar.{set_signature, add_loop_types}
use tx_lang_cxx.Parser.Keeps.{Keeps}
use tx_lang_cxx.Parser.Invariant.{Invariant}
use tx_lang_cxx.Parser.Invariant.OfTokens.{token_rules}
use tx_lang_cxx.Parser.Invariant.OfCode.{code_rules}

module _ {F : Type 0} {machine : Machine F} {P : Parser F → Type 0}
    (inv : Invariant machine P) where
  pub begin_compiler-Keeps :
      (type : FunctionType) (name : Option (List ℕ)) → Keeps P (begin_compiler type name)
  begin_compiler-Keeps = inv.on_compiler

  pub pop_compiler-Keeps : Keeps P (pop_compiler)
  pop_compiler-Keeps = inv.on_end

  pub begin_scope-Keeps : Keeps P (begin_scope)
  begin_scope-Keeps = inv.on_scope

  pub close_scope-Keeps : Keeps P (update_compiler close_scope)
  close_scope-Keeps = inv.on_close

  pub add_loop_types-Keeps : (types : TypeSet) → Keeps P (update_compiler (add_loop_types types))
  add_loop_types-Keeps = inv.on_loop_types

  pub resolve_current-Keeps : (name : List ℕ) → Keeps P (resolve_current name)
  resolve_current-Keeps = inv.on_resolve

  pub add_local-Keeps :
      (name : List ℕ) (is_const : Bool) (types : TypeSet) → Keeps P (add_local name is_const types)
  add_local-Keeps = inv.on_local

  pub initialize_back-Keeps : Keeps P (update_compiler initialize_back)
  initialize_back-Keeps = inv.on_initialize

  pub set_signature-Keeps :
      (params : ParametersAndReturn F) → Keeps P (update_compiler (set_signature params))
  set_signature-Keeps = inv.on_signature

  pub push_object-Keeps :
      (bytes : List ℕ) → Keeps P (update (push_object (Object.obj_string bytes)))
  push_object-Keeps = inv.on_object

  pub push_global-Keeps : (name : Value F) (sig : Global) → Keeps P (update (push_global name sig))
  push_global-Keeps = inv.on_global

  pub define_at-Keeps : (idx : ℕ) → Keeps P (update (define_at idx))
  define_at-Keeps = inv.on_define

  pub ruleset variable_steps = (
    token_rules, code_rules, begin_compiler-Keeps, pop_compiler-Keeps, begin_scope-Keeps,
    close_scope-Keeps, add_loop_types-Keeps, resolve_current-Keeps, add_local-Keeps,
    initialize_back-Keeps, set_signature-Keeps, push_object-Keeps, push_global-Keeps,
    define_at-Keeps,
  )

  pub end_compiler-Keeps : Keeps P end_compiler
  unfolding end_compiler
  end_compiler-Keeps = search variable_steps depth 30

  pub end_scope-Keeps : Keeps P end_scope
  unfolding end_scope
  end_scope-Keeps = search variable_steps depth 30

  pub make_string-Keeps : (bytes : List ℕ) → Keeps P (make_string bytes)
  unfolding make_string
  make_string-Keeps bytes = search variable_steps depth 30

  pub add_global-Keeps : (identifier : Value F) (sig : Global) → Keeps P (add_global identifier sig)
  unfolding add_global
  add_global-Keeps identifier sig = search variable_steps depth 30

  pub declare_local_variable-Keeps :
      (name : Token F) (is_const : Bool) (types : TypeSet)
      → Keeps P (declare_local_variable name is_const types)
  unfolding declare_local_variable
  declare_local_variable-Keeps name is_const types = search variable_steps depth 30

  pub mark_initialized-Keeps : (global_idx : Option ℕ) → Keeps P (mark_initialized global_idx)
  unfolding mark_initialized
  mark_initialized-Keeps global_idx = search variable_steps depth 30

  pub define_variable-Keeps : (global_idx : Option ℕ) → Keeps P (define_variable global_idx)
  unfolding define_variable
  define_variable-Keeps global_idx = search (variable_steps, mark_initialized-Keeps) depth 30

  pub resolve_global-Keeps : (name : List ℕ) → Keeps P (resolve_global machine name)
  unfolding resolve_global
  resolve_global-Keeps name = search (variable_steps, make_string-Keeps) depth 30

  pub check_redeclaration-Keeps :
      (name : Token F) (is_const : Bool) (signature : Option Global)
      → Keeps P (check_redeclaration machine name is_const signature)
  unfolding check_redeclaration
  check_redeclaration-Keeps name is_const signature = search variable_steps depth 30

  pub declare_global_variable-Keeps :
      (name : Token F) (is_const : Bool) (types : TypeSet)
      → Keeps P (declare_global_variable machine name is_const types)
  unfolding declare_global_variable
  declare_global_variable-Keeps name is_const types =
      search (variable_steps, make_string-Keeps, add_global-Keeps, check_redeclaration-Keeps) depth
        30

  pub declare_variable-Keeps :
      (name : Token F) (is_const : Bool) (types : TypeSet)
      → Keeps P (declare_variable machine name is_const types)
  unfolding declare_variable
  declare_variable-Keeps name is_const types =
      search (variable_steps, declare_global_variable-Keeps, declare_local_variable-Keeps) depth 30

  pub ruleset variable_rules = (
    begin_compiler-Keeps, end_compiler-Keeps, begin_scope-Keeps, end_scope-Keeps,
    add_loop_types-Keeps, set_signature-Keeps, resolve_current-Keeps, resolve_global-Keeps,
    make_string-Keeps, declare_local_variable-Keeps, declare_variable-Keeps, mark_initialized-Keeps,
    define_variable-Keeps,
  )
