-- ===== src/Parser/Invariant/OfGrammar.antt =====
-- The grammar keeps an invariant, by induction on the fuel: each method does if those that it calls do.
use tx_lang_cxx.Prelude.{ℕ, zero, suc, Bool, Option, List}
use tx_lang_cxx.TypeInfo.{TypeSet, TypeSetArray}
use tx_lang_cxx.Scanner.State.{Token}
use tx_lang_cxx.Parser.State.{Machine, Parser}
use tx_lang_cxx.Parser.Types.{ParametersAndReturn}
use tx_lang_cxx.Parser.Grammar.{
  expression, parse_precedence, parse_precedence_no_advance, infix_loop, parse_prefix_only,
  invoke_prefix, invoke_infix, named_variable, unary, binary, call, argument_loop, block_no_scope,
  block_loop, block, if_expr, else_branch, loop_expr, fn_expr, function_body, fn_declaration,
  var_declaration, declare_var, optional_type, optional_expression, while_statement,
  break_statement, break_value, return_statement, expression_maybe_statement,
  statement_or_expression, fn_statement,
}
use tx_lang_cxx.Parser.Keeps.{Keeps, Keeps-endless}
use tx_lang_cxx.Parser.Invariant.{Invariant}
use tx_lang_cxx.Parser.Rules.{Precedence, Prefix, Infix}
use tx_lang_cxx.Parser.Invariant.OfTypes.{
  step_rules, parse_type_set-Keeps, parameter_list_and_return_type-Keeps,
}
use tx_lang_cxx.Parser.Invariant.OfSteps.{part_rules}
use tx_lang_cxx.Parser.Invariant.Statements.{GrammarKeeps, end_expression-Keeps}

module _ {F : Type 0} {machine : Machine F} {P : Parser F → Type 0}
    (inv : Invariant machine P) where
  module _ (fuel : ℕ) (ih : GrammarKeeps inv fuel) where
    expression_ih : Keeps P (expression machine fuel)
    expression_ih = ih.of_expression

    parse_precedence_ih : (prec : Precedence) → Keeps P (parse_precedence machine fuel prec)
    parse_precedence_ih = ih.of_parse_precedence

    parse_precedence_no_advance_ih :
        (prec : Precedence) → Keeps P (parse_precedence_no_advance machine fuel prec)
    parse_precedence_no_advance_ih = ih.of_parse_precedence_no_advance

    infix_loop_ih :
        (prec : Precedence) (can_assign : Bool) (result : TypeSet)
        → Keeps P (infix_loop machine fuel prec can_assign result)
    infix_loop_ih = ih.of_infix_loop

    parse_prefix_only_ih : Keeps P (parse_prefix_only machine fuel)
    parse_prefix_only_ih = ih.of_parse_prefix_only

    invoke_prefix_ih :
        (rule : Prefix) (can_assign : Bool) → Keeps P (invoke_prefix machine fuel rule can_assign)
    invoke_prefix_ih = ih.of_invoke_prefix

    invoke_infix_ih : (rule : Infix) (lhs : TypeSet) → Keeps P (invoke_infix machine fuel rule lhs)
    invoke_infix_ih = ih.of_invoke_infix

    named_variable_ih :
        (name : Token F) (can_assign : Bool) → Keeps P (named_variable machine fuel name can_assign)
    named_variable_ih = ih.of_named_variable

    unary_ih : Keeps P (unary machine fuel)
    unary_ih = ih.of_unary

    binary_ih : (lhs : TypeSet) → Keeps P (binary machine fuel lhs)
    binary_ih = ih.of_binary

    call_ih : (lhs : TypeSet) → Keeps P (call machine fuel lhs)
    call_ih = ih.of_call

    argument_loop_ih : (result : TypeSetArray) → Keeps P (argument_loop machine fuel result)
    argument_loop_ih = ih.of_argument_loop

    block_no_scope_ih : Keeps P (block_no_scope machine fuel)
    block_no_scope_ih = ih.of_block_no_scope

    block_loop_ih : (final : Option TypeSet) → Keeps P (block_loop machine fuel final)
    block_loop_ih = ih.of_block_loop

    block_ih : Keeps P (block machine fuel)
    block_ih = ih.of_block

    if_expr_ih : Keeps P (if_expr machine fuel)
    if_expr_ih = ih.of_if_expr

    else_branch_ih : Keeps P (else_branch machine fuel)
    else_branch_ih = ih.of_else_branch

    loop_expr_ih : Keeps P (loop_expr machine fuel)
    loop_expr_ih = ih.of_loop_expr

    fn_expr_ih : Keeps P (fn_expr machine fuel)
    fn_expr_ih = ih.of_fn_expr

    function_body_ih :
        (name : List ℕ) (params : ParametersAndReturn F)
        → Keeps P (function_body machine fuel name params)
    function_body_ih = ih.of_function_body

    fn_declaration_ih : Keeps P (fn_declaration machine fuel)
    fn_declaration_ih = ih.of_fn_declaration

    var_declaration_ih : Keeps P (var_declaration machine fuel)
    var_declaration_ih = ih.of_var_declaration

    declare_var_ih :
        (name : Token F) (is_const : Bool) → Keeps P (declare_var machine fuel name is_const)
    declare_var_ih = ih.of_declare_var

    optional_type_ih : (present : Bool) → Keeps P (optional_type machine fuel present)
    optional_type_ih = ih.of_optional_type

    optional_expression_ih : (present : Bool) → Keeps P (optional_expression machine fuel present)
    optional_expression_ih = ih.of_optional_expression

    while_statement_ih : Keeps P (while_statement machine fuel)
    while_statement_ih = ih.of_while_statement

    break_statement_ih : Keeps P (break_statement machine fuel)
    break_statement_ih = ih.of_break_statement

    break_value_ih : Keeps P (break_value machine fuel)
    break_value_ih = ih.of_break_value

    return_statement_ih : Keeps P (return_statement machine fuel)
    return_statement_ih = ih.of_return_statement

    expression_maybe_statement_ih : Keeps P (expression_maybe_statement machine fuel)
    expression_maybe_statement_ih = ih.of_expression_maybe_statement

    statement_or_expression_ih : Keeps P (statement_or_expression machine fuel)
    statement_or_expression_ih = ih.of_statement_or_expression

    fn_statement_ih : Keeps P (fn_statement machine fuel)
    fn_statement_ih = ih.of_fn_statement

    ruleset grammar_steps = (
      step_rules, part_rules, parse_type_set-Keeps, parameter_list_and_return_type-Keeps,
      end_expression-Keeps, expression_ih, parse_precedence_ih, parse_precedence_no_advance_ih,
      infix_loop_ih, parse_prefix_only_ih, invoke_prefix_ih, invoke_infix_ih, named_variable_ih,
      unary_ih, binary_ih, call_ih, argument_loop_ih, block_no_scope_ih, block_loop_ih, block_ih,
      if_expr_ih, else_branch_ih, loop_expr_ih, fn_expr_ih, function_body_ih, fn_declaration_ih,
      var_declaration_ih, declare_var_ih, optional_type_ih, optional_expression_ih,
      while_statement_ih, break_statement_ih, break_value_ih, return_statement_ih,
      expression_maybe_statement_ih, statement_or_expression_ih, fn_statement_ih,
    )

    expression_step : Keeps P (expression machine (suc fuel))
    unfolding expression
    expression_step = search grammar_steps depth 40

    parse_precedence_step : (prec : Precedence) → Keeps P (parse_precedence machine (suc fuel) prec)
    unfolding expression
    parse_precedence_step prec = search grammar_steps depth 40

    parse_precedence_no_advance_step :
        (prec : Precedence) → Keeps P (parse_precedence_no_advance machine (suc fuel) prec)
    unfolding expression
    parse_precedence_no_advance_step prec = search grammar_steps depth 40

    infix_loop_step :
        (prec : Precedence) (can_assign : Bool) (result : TypeSet)
        → Keeps P (infix_loop machine (suc fuel) prec can_assign result)
    unfolding expression
    infix_loop_step prec can_assign result = search grammar_steps depth 40

    parse_prefix_only_step : Keeps P (parse_prefix_only machine (suc fuel))
    unfolding expression
    parse_prefix_only_step = search grammar_steps depth 40

    invoke_prefix_step :
        (rule : Prefix) (can_assign : Bool)
        → Keeps P (invoke_prefix machine (suc fuel) rule can_assign)
    unfolding expression
    invoke_prefix_step Prefix.grouping can_assign = search grammar_steps depth 40
    invoke_prefix_step Prefix.block can_assign = search grammar_steps depth 40
    invoke_prefix_step Prefix.unary can_assign = search grammar_steps depth 40
    invoke_prefix_step Prefix.variable can_assign = search grammar_steps depth 40
    invoke_prefix_step Prefix.literal can_assign = search grammar_steps depth 40
    invoke_prefix_step Prefix.fn_expr can_assign = search grammar_steps depth 40
    invoke_prefix_step Prefix.if_expr can_assign = search grammar_steps depth 40
    invoke_prefix_step Prefix.loop_expr can_assign = search grammar_steps depth 40

    invoke_infix_step :
        (rule : Infix) (lhs : TypeSet) → Keeps P (invoke_infix machine (suc fuel) rule lhs)
    unfolding expression
    invoke_infix_step Infix.call lhs = search grammar_steps depth 40
    invoke_infix_step Infix.binary lhs = search grammar_steps depth 40
    invoke_infix_step Infix.and_rule lhs = search grammar_steps depth 40
    invoke_infix_step Infix.or_rule lhs = search grammar_steps depth 40
    invoke_infix_step Infix.as_rule lhs = search grammar_steps depth 40

    named_variable_step :
        (name : Token F) (can_assign : Bool)
        → Keeps P (named_variable machine (suc fuel) name can_assign)
    unfolding expression
    named_variable_step name can_assign = search grammar_steps depth 40

    unary_step : Keeps P (unary machine (suc fuel))
    unfolding expression
    unary_step = search grammar_steps depth 40

    binary_step : (lhs : TypeSet) → Keeps P (binary machine (suc fuel) lhs)
    unfolding expression
    binary_step lhs = search grammar_steps depth 40

    call_step : (lhs : TypeSet) → Keeps P (call machine (suc fuel) lhs)
    unfolding expression
    call_step lhs = search grammar_steps depth 40

    argument_loop_step : (result : TypeSetArray) → Keeps P (argument_loop machine (suc fuel) result)
    unfolding expression
    argument_loop_step result = search grammar_steps depth 40

    block_no_scope_step : Keeps P (block_no_scope machine (suc fuel))
    unfolding expression
    block_no_scope_step = search grammar_steps depth 40

    block_loop_step : (final : Option TypeSet) → Keeps P (block_loop machine (suc fuel) final)
    unfolding expression
    block_loop_step final = search grammar_steps depth 40

    block_step : Keeps P (block machine (suc fuel))
    unfolding expression
    block_step = search grammar_steps depth 40

    if_expr_step : Keeps P (if_expr machine (suc fuel))
    unfolding expression
    if_expr_step = search grammar_steps depth 40

    else_branch_step : Keeps P (else_branch machine (suc fuel))
    unfolding expression
    else_branch_step = search grammar_steps depth 40

    loop_expr_step : Keeps P (loop_expr machine (suc fuel))
    unfolding expression
    loop_expr_step = search grammar_steps depth 40

    fn_expr_step : Keeps P (fn_expr machine (suc fuel))
    unfolding expression
    fn_expr_step = search grammar_steps depth 40

    function_body_step :
        (name : List ℕ) (params : ParametersAndReturn F)
        → Keeps P (function_body machine (suc fuel) name params)
    unfolding expression
    function_body_step name params = search grammar_steps depth 40

    fn_declaration_step : Keeps P (fn_declaration machine (suc fuel))
    unfolding expression
    fn_declaration_step = search grammar_steps depth 40

    var_declaration_step : Keeps P (var_declaration machine (suc fuel))
    unfolding expression
    var_declaration_step = search grammar_steps depth 40

    declare_var_step :
        (name : Token F) (is_const : Bool) → Keeps P (declare_var machine (suc fuel) name is_const)
    unfolding expression
    declare_var_step name is_const = search grammar_steps depth 40

    optional_type_step : (present : Bool) → Keeps P (optional_type machine (suc fuel) present)
    unfolding expression
    optional_type_step present = search grammar_steps depth 40

    optional_expression_step :
        (present : Bool) → Keeps P (optional_expression machine (suc fuel) present)
    unfolding expression
    optional_expression_step present = search grammar_steps depth 40

    while_statement_step : Keeps P (while_statement machine (suc fuel))
    unfolding expression
    while_statement_step = search grammar_steps depth 40

    break_statement_step : Keeps P (break_statement machine (suc fuel))
    unfolding expression
    break_statement_step = search grammar_steps depth 40

    break_value_step : Keeps P (break_value machine (suc fuel))
    unfolding expression
    break_value_step = search grammar_steps depth 40

    return_statement_step : Keeps P (return_statement machine (suc fuel))
    unfolding expression
    return_statement_step = search grammar_steps depth 40

    expression_maybe_statement_step : Keeps P (expression_maybe_statement machine (suc fuel))
    unfolding expression
    expression_maybe_statement_step = search grammar_steps depth 40

    statement_or_expression_step : Keeps P (statement_or_expression machine (suc fuel))
    unfolding expression
    statement_or_expression_step = search grammar_steps depth 40

    fn_statement_step : Keeps P (fn_statement machine (suc fuel))
    unfolding expression
    fn_statement_step = search grammar_steps depth 40

    grammar_step : GrammarKeeps inv (suc fuel)
    grammar_step = record {
      of_expression = expression_step;
      of_parse_precedence = parse_precedence_step;
      of_parse_precedence_no_advance = parse_precedence_no_advance_step;
      of_infix_loop = infix_loop_step;
      of_parse_prefix_only = parse_prefix_only_step;
      of_invoke_prefix = invoke_prefix_step;
      of_invoke_infix = invoke_infix_step;
      of_named_variable = named_variable_step;
      of_unary = unary_step;
      of_binary = binary_step;
      of_call = call_step;
      of_argument_loop = argument_loop_step;
      of_block_no_scope = block_no_scope_step;
      of_block_loop = block_loop_step;
      of_block = block_step;
      of_if_expr = if_expr_step;
      of_else_branch = else_branch_step;
      of_loop_expr = loop_expr_step;
      of_fn_expr = fn_expr_step;
      of_function_body = function_body_step;
      of_fn_declaration = fn_declaration_step;
      of_var_declaration = var_declaration_step;
      of_declare_var = declare_var_step;
      of_optional_type = optional_type_step;
      of_optional_expression = optional_expression_step;
      of_while_statement = while_statement_step;
      of_break_statement = break_statement_step;
      of_break_value = break_value_step;
      of_return_statement = return_statement_step;
      of_expression_maybe_statement = expression_maybe_statement_step;
      of_statement_or_expression = statement_or_expression_step;
      of_fn_statement = fn_statement_step;
    }

  grammar_zero : GrammarKeeps inv zero
  unfolding expression
  grammar_zero = record {
    of_expression = Keeps-endless;
    of_parse_precedence = λ prec. Keeps-endless;
    of_parse_precedence_no_advance = λ prec. Keeps-endless;
    of_infix_loop = λ prec can_assign result. Keeps-endless;
    of_parse_prefix_only = Keeps-endless;
    of_invoke_prefix = λ rule can_assign. Keeps-endless;
    of_invoke_infix = λ rule lhs. Keeps-endless;
    of_named_variable = λ name can_assign. Keeps-endless;
    of_unary = Keeps-endless;
    of_binary = λ lhs. Keeps-endless;
    of_call = λ lhs. Keeps-endless;
    of_argument_loop = λ result. Keeps-endless;
    of_block_no_scope = Keeps-endless;
    of_block_loop = λ final. Keeps-endless;
    of_block = Keeps-endless;
    of_if_expr = Keeps-endless;
    of_else_branch = Keeps-endless;
    of_loop_expr = Keeps-endless;
    of_fn_expr = Keeps-endless;
    of_function_body = λ name params. Keeps-endless;
    of_fn_declaration = Keeps-endless;
    of_var_declaration = Keeps-endless;
    of_declare_var = λ name is_const. Keeps-endless;
    of_optional_type = λ present. Keeps-endless;
    of_optional_expression = λ present. Keeps-endless;
    of_while_statement = Keeps-endless;
    of_break_statement = Keeps-endless;
    of_break_value = Keeps-endless;
    of_return_statement = Keeps-endless;
    of_expression_maybe_statement = Keeps-endless;
    of_statement_or_expression = Keeps-endless;
    of_fn_statement = Keeps-endless;
  }

  pub grammar-Keep : (fuel : ℕ) → GrammarKeeps inv fuel
  grammar-Keep zero = grammar_zero
  grammar-Keep (suc fuel) = grammar_step fuel (grammar-Keep fuel)
