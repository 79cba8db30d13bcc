-- ===== src/Parser/Invariant/OfTypes.antt =====
-- The parsing of types keeps an invariant.
use Prim.Native.String.{String}
use tx_lang_cxx.Prelude.{ℕ, zero, suc}
use tx_lang_cxx.TypeInfo.{TypeSet, TypeSetArray}
use tx_lang_cxx.Parser.State.{Machine, Parser}
use tx_lang_cxx.Parser.Types.{
  ParametersAndReturn, parse_type, parse_type_set, type_set_loop, parse_type_set_list,
  type_list_loop, parameter_loop, parameter_list_and_return_type,
}
use tx_lang_cxx.Parser.Keeps.{Keeps, keeps_rules}
use tx_lang_cxx.Parser.Invariant.{Invariant}
use tx_lang_cxx.Parser.Invariant.OfTokens.{token_rules}
use tx_lang_cxx.Parser.Invariant.OfCode.{code_rules}
use tx_lang_cxx.Parser.Invariant.OfVariables.{variable_rules}

module _ {F : Type 0} {machine : Machine F} {P : Parser F → Type 0}
    (inv : Invariant machine P) where
  pub ruleset step_rules = (keeps_rules, token_rules, code_rules, variable_rules)

  record TypesKeep (fuel : ℕ) : Type 0 where
    of_type : Keeps P (parse_type machine fuel)
    of_set : Keeps P (parse_type_set machine fuel)
    of_set_loop : (result : TypeSet) → Keeps P (type_set_loop machine fuel result)
    of_list : (message : String) → Keeps P (parse_type_set_list machine fuel message)
    of_list_loop : (result : TypeSetArray) → Keeps P (type_list_loop machine fuel result)

  module _ (fuel : ℕ) (ih : TypesKeep fuel) where
    type_ih : Keeps P (parse_type machine fuel)
    type_ih = ih.of_type

    set_ih : Keeps P (parse_type_set machine fuel)
    set_ih = ih.of_set

    set_loop_ih : (result : TypeSet) → Keeps P (type_set_loop machine fuel result)
    set_loop_ih = ih.of_set_loop

    list_ih : (message : String) → Keeps P (parse_type_set_list machine fuel message)
    list_ih = ih.of_list

    list_loop_ih : (result : TypeSetArray) → Keeps P (type_list_loop machine fuel result)
    list_loop_ih = ih.of_list_loop

    ruleset type_steps = (step_rules, type_ih, set_ih, set_loop_ih, list_ih, list_loop_ih)

    types_step : TypesKeep (suc fuel)
    unfolding parse_type
    types_step = record {
      of_type = search type_steps depth 30;
      of_set = search type_steps depth 30;
      of_set_loop = λ result. search type_steps depth 30;
      of_list = λ message. search type_steps depth 30;
      of_list_loop = λ result. search type_steps depth 30;
    }

  types-Keep : (fuel : ℕ) → TypesKeep fuel
  unfolding parse_type
  types-Keep zero = record {
    of_type = search keeps_rules;
    of_set = search keeps_rules;
    of_set_loop = λ result. search keeps_rules;
    of_list = λ message. search keeps_rules;
    of_list_loop = λ result. search keeps_rules;
  }
  types-Keep (suc fuel) = types_step fuel (types-Keep fuel)

  pub parse_type_set-Keeps : (fuel : ℕ) → Keeps P (parse_type_set machine fuel)
  parse_type_set-Keeps fuel = (types-Keep fuel).of_set

  pub parameter_loop-Keeps :
      (fuel : ℕ) (result : ParametersAndReturn F) → Keeps P (parameter_loop machine fuel result)
  unfolding parameter_loop
  parameter_loop-Keeps zero result = search keeps_rules
  parameter_loop-Keeps (suc fuel) result =
      let rest : (r : ParametersAndReturn F) → Keeps P (parameter_loop machine fuel r) =
        parameter_loop-Keeps fuel in
      search (step_rules, parse_type_set-Keeps) depth 30

  pub parameter_list_and_return_type-Keeps :
      (fuel : ℕ) → Keeps P (parameter_list_and_return_type machine fuel)
  unfolding parameter_list_and_return_type
  parameter_list_and_return_type-Keeps fuel =
      search (step_rules, parse_type_set-Keeps, parameter_loop-Keeps) depth 30
