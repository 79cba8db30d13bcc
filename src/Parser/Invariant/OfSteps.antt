-- ===== src/Parser/Invariant/OfSteps.antt =====
-- The parts of the grammar without expressions keep an invariant.
use tx_lang_cxx.Prelude.{ℕ, zero, suc, Bool, Option, none, some, List, [], ◌∷◌}
use tx_lang_cxx.Value.{Value}
use tx_lang_cxx.TypeInfo.{TypeSet, TypeSetArray, no_sets, with_set}
use tx_lang_cxx.Scanner.State.{Literal}
use tx_lang_cxx.Parser.State.{Machine, Parser}
use tx_lang_cxx.Parser.Types.{Parameter}
use tx_lang_cxx.Parser.Steps.{
  ParseResult, literal_value, literal, global_variable, resolve_variable, emit_pops,
  emit_pop_innermost_loop, declare_parameters, check_globals, after_statement, continue_statement,
}
use tx_lang_cxx.Parser.Keeps.{Keeps, keeps_rules}
use tx_lang_cxx.Parser.Invariant.{Invariant}
use tx_lang_cxx.Parser.Invariant.OfTypes.{step_rules}

module _ {F : Type 0} {machine : Machine F} {P : Parser F → Type 0}
    (inv : Invariant machine P) where
  literal_value-Keeps : (literal : Literal F) → Keeps P (literal_value literal)
  unfolding literal_value
  literal_value-Keeps (Literal.string bytes) = search step_rules
  literal_value-Keeps _ = search step_rules

  pub literal-Keeps : Keeps P (literal machine)
  unfolding literal
  literal-Keeps = search (step_rules, literal_value-Keeps) depth 30

  global_variable-Keeps : (idx : Option ℕ) → Keeps P (global_variable idx)
  unfolding global_variable
  global_variable-Keeps none = search step_rules
  global_variable-Keeps (some idx) = search step_rules depth 30

  pub resolve_variable-Keeps : (name : List ℕ) → Keeps P (resolve_variable machine name)
  unfolding resolve_variable
  resolve_variable-Keeps name = search (step_rules, global_variable-Keeps) depth 30

  pub emit_pops-Keeps : (count : ℕ) → Keeps P (emit_pops count)
  unfolding emit_pops
  emit_pops-Keeps zero = search step_rules depth 30
  emit_pops-Keeps (suc count) = let rest = emit_pops-Keeps count in search step_rules depth 30

  pub emit_pop_innermost_loop-Keeps :
      (skip_top_expression : Bool) → Keeps P (emit_pop_innermost_loop skip_top_expression)
  unfolding emit_pop_innermost_loop
  emit_pop_innermost_loop-Keeps skip_top_expression = search (step_rules, emit_pops-Keeps) depth 30

  pub after_statement-Keeps :
      (parsed : ParseResult) (final : Option TypeSet)
      → Keeps P (after_statement machine parsed final)
  unfolding after_statement
  after_statement-Keeps parsed final = search step_rules depth 30

  pub continue_statement-Keeps : Keeps P (continue_statement machine)
  unfolding continue_statement
  continue_statement-Keeps = search (step_rules, emit_pop_innermost_loop-Keeps) depth 30

  pub declare_parameters-Keeps :
      (parameters : List (Parameter F)) (types : TypeSetArray)
      → Keeps P (declare_parameters parameters types)
  unfolding declare_parameters
  declare_parameters-Keeps [] no_sets = search keeps_rules
  declare_parameters-Keeps (parameter ∷ parameters) (with_set s types) =
      let rest = declare_parameters-Keeps parameters types in search step_rules depth 30
  declare_parameters-Keeps _ _ = search keeps_rules

  pub check_globals-Keeps : (indices : List (Value F × ℕ)) → Keeps P (check_globals indices)
  unfolding check_globals
  check_globals-Keeps [] = search keeps_rules
  check_globals-Keeps ((name, idx) ∷ indices) =
      let rest = check_globals-Keeps indices in search step_rules depth 30

  pub ruleset part_rules = (
    literal-Keeps, resolve_variable-Keeps, emit_pop_innermost_loop-Keeps, after_statement-Keeps,
    continue_statement-Keeps, declare_parameters-Keeps,
  )
