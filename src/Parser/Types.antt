-- ===== src/Parser/Types.antt =====
-- Types in the source text: `parse_type`, `parse_type_set`, `parse_type_set_list` and the list of
-- parameters of tx-runtime/include/tx/compiler_inl.hxx. Each call and each round takes fuel.
use Prim.Native.String.{String}
use tx_lang_cxx.Prelude.{
  ℕ, zero, suc, Bool, not, Option, none, some, List, [], ◌∷◌, ◌++◌, length, ◌==◌, if◌then◌else◌,
}
use tx_lang_cxx.TokenType.{TokenType}
use tx_lang_cxx.TypeInfo.{
  TypeInfo, function, TypeSet, no_types, with_type, TypeSetArray, no_sets, with_set, add,
}
use tx_lang_cxx.Scanner.State.{Token}
use tx_lang_cxx.Parser.State.{
  Machine, TypeInfoFunction, Action, max_fn_parameters, pure, endless, gets, ◌>>=◌, ◌>>◌, on_option,
  when,
}
use tx_lang_cxx.Parser.Tokens.{same_type, error_at_current, check, advance, match, consume}

abbrev pub push_set : TypeSetArray → TypeSet → TypeSetArray
push_set no_sets val = with_set val no_sets
push_set (with_set s ss) val = with_set s (push_set ss val)

abbrev pub one_type : TypeInfo → TypeSet
one_type type = with_type type no_types

-- the cases of the switch of `parse_type` that are one token
abbrev pub simple_type : TokenType → Option TypeInfo
simple_type TokenType.any_type = some TypeInfo.any
simple_type TokenType.nil_type = some TypeInfo.nil
simple_type TokenType.bool_type = some TypeInfo.boolean
simple_type TokenType.int_type = some TypeInfo.integer
simple_type TokenType.float_type = some TypeInfo.float
simple_type TokenType.char_type = some TypeInfo.character
simple_type TokenType.str_type = some TypeInfo.string
simple_type _ = none

pub record Parameter (F : Type 0) : Type 0 where
  pub name : Token F
  pub is_const : Bool

pub record ParametersAndReturn (F : Type 0) : Type 0 where
  pub parameters : List (Parameter F)
  pub type_info : TypeInfoFunction

module _ {F : Type 0} (machine : Machine F) where
  unfoldable mutual
    pub parse_type : ℕ → Action F TypeInfo
    parse_type zero = endless
    parse_type (suc fuel) = do
      type ← gets (λ p. p.current.type)
      let function_type : Action F TypeInfo = do
        advance machine
        consume machine TokenType.left_chevron "Expect '<' after Fn."
        params ← parse_type_set_list fuel "Expect second '<' before parameter type list"
        consume machine TokenType.comma "Expect ',' after parameters types."
        return_type ← parse_type_set fuel
        consume machine TokenType.right_chevron "Expect '>' after function return type."
        pure (function params return_type)
      let unknown : Action F TypeInfo = do
        error_at_current "Expect type name."
        pure TypeInfo.none_type
      if same_type type TokenType.fn_type
          then function_type
          else on_option (simple_type type) unknown (λ info. do advance machine; pure info)

    pub parse_type_set : ℕ → Action F TypeSet
    parse_type_set zero = endless
    parse_type_set (suc fuel) = type_set_loop fuel no_types

    -- the loop of `parse_type_set`
    pub type_set_loop : ℕ → TypeSet → Action F TypeSet
    type_set_loop zero result = endless
    type_set_loop (suc fuel) result = do
      type ← parse_type fuel
      more ← match machine TokenType.or_kw
      let result' = add result type
      if more then type_set_loop fuel result' else pure result'

    pub parse_type_set_list : ℕ → String → Action F TypeSetArray
    parse_type_set_list zero message = endless
    parse_type_set_list (suc fuel) message = do
      consume machine TokenType.left_chevron message
      result ← type_list_loop fuel no_sets
      consume machine TokenType.right_chevron "Expect '>' after type list."
      pure result

    -- the loop of `parse_type_set_list`
    pub type_list_loop : ℕ → TypeSetArray → Action F TypeSetArray
    type_list_loop zero result = endless
    type_list_loop (suc fuel) result = do
      stop ← check TokenType.right_chevron
      let round : Action F TypeSetArray = do
        types ← parse_type_set fuel
        more ← match machine TokenType.comma
        let result' = push_set result types
        if more then type_list_loop fuel result' else pure result'
      if stop then pure result else round

  abbrev pub push_parameter :
      ParametersAndReturn F → Token F → Bool → TypeSet → ParametersAndReturn F
  push_parameter result name is_const types = record result {
    parameters = result.parameters ++ record { name = name; is_const = is_const } ∷ [];
    type_info = record result.type_info {
      parameter_types = push_set result.type_info.parameter_types types;
    };
  }

  -- the loop of `parameter_list_and_return_type`
  unfoldable pub parameter_loop : ℕ → ParametersAndReturn F → Action F (ParametersAndReturn F)
  parameter_loop zero result = endless
  parameter_loop (suc fuel) result = do
    stop ← check TokenType.right_paren
    let round : Action F (ParametersAndReturn F) = do
      when (length result.parameters == max_fn_parameters)
          (error_at_current "Can't have more than {} parameters.")
      before ← gets (λ p. p.previous.type)
      consume machine TokenType.identifier "Expect parameter name."
      name ← gets (λ p. p.previous)
      consume machine TokenType.colon "Expect ':' after parameter name."
      types ← parse_type_set fuel
      more ← match machine TokenType.comma
      let result' = push_parameter result name (not (same_type before TokenType.out_kw)) types
      if more then parameter_loop fuel result' else pure result'
    if stop then pure result else round

  abbrev pub no_parameters : ParametersAndReturn F
  no_parameters = record {
    parameters = [];
    type_info = record { parameter_types = no_sets; return_type = no_types };
  }

  abbrev pub set_return : TypeSet → ParametersAndReturn F → ParametersAndReturn F
  set_return return_type result = record result {
    type_info = record result.type_info { return_type = return_type };
  }

  unfoldable pub parameter_list_and_return_type : ℕ → Action F (ParametersAndReturn F)
  unfolding parameter_loop
  parameter_list_and_return_type fuel = do
    result ← parameter_loop fuel no_parameters
    consume machine TokenType.right_paren "Expect ')' after parameters."
    no_type ← check TokenType.left_brace
    return_type ← (if no_type then pure (one_type TypeInfo.nil) else parse_type_set fuel)
    pure (set_return return_type result)
