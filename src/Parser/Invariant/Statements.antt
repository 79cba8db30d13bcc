-- ===== src/Parser/Invariant/Statements.antt =====
-- What it means that the grammar keeps an invariant: one fact for each method.
use tx_lang_cxx.Prelude.{ℕ, Bool, Option, List}
use tx_lang_cxx.TypeInfo.{TypeSet, TypeSetArray}
use tx_lang_cxx.Scanner.State.{Token}
use tx_lang_cxx.Parser.State.{Machine, Parser}
use tx_lang_cxx.Parser.Types.{ParametersAndReturn}
use tx_lang_cxx.Parser.Steps.{ParseResult}
use tx_lang_cxx.Parser.Grammar.{
  end_expression, expression, parse_precedence, parse_precedence_no_advance, infix_loop,
  parse_prefix_only, invoke_prefix, invoke_infix, named_variable, unary, binary, call,
  argument_loop, block_no_scope, block_loop, block, if_expr, else_branch, loop_expr, fn_expr,
  function_body, fn_declaration, var_declaration, declare_var, optional_type, optional_expression,
  while_statement, break_statement, break_value, return_statement, expression_maybe_statement,
  statement_or_expression, fn_statement,
}
use tx_lang_cxx.Parser.Keeps.{Keeps}
use tx_lang_cxx.Parser.Invariant.{Invariant}
use tx_lang_cxx.Parser.Rules.{Precedence, Prefix, Infix}
use tx_lang_cxx.Parser.Invariant.OfTypes.{step_rules}

module _ {F : Type 0} {machine : Machine F} {P : Parser F → Type 0}
    (inv : Invariant machine P) where
  pub end_expression-Keeps : (parsed : ParseResult) → Keeps P (end_expression parsed machine)
  unfolding end_expression
  end_expression-Keeps parsed = search step_rules depth 30

  pub record GrammarKeeps (fuel : ℕ) : Type 0 where
    pub of_expression : Keeps P (expression machine fuel)
    pub of_parse_precedence : (prec : Precedence) → Keeps P (parse_precedence machine fuel prec)
    pub of_parse_precedence_no_advance :
        (prec : Precedence) → Keeps P (parse_precedence_no_advance machine fuel prec)
    pub of_infix_loop :
        (prec : Precedence) (can_assign : Bool) (result : TypeSet)
        → Keeps P (infix_loop machine fuel prec can_assign result)
    pub of_parse_prefix_only : Keeps P (parse_prefix_only machine fuel)
    pub of_invoke_prefix :
        (rule : Prefix) (can_assign : Bool) → Keeps P (invoke_prefix machine fuel rule can_assign)
    pub of_invoke_infix :
        (rule : Infix) (lhs : TypeSet) → Keeps P (invoke_infix machine fuel rule lhs)
    pub of_named_variable :
        (name : Token F) (can_assign : Bool) → Keeps P (named_variable machine fuel name can_assign)
    pub of_unary : Keeps P (unary machine fuel)
    pub of_binary : (lhs : TypeSet) → Keeps P (binary machine fuel lhs)
    pub of_call : (lhs : TypeSet) → Keeps P (call machine fuel lhs)
    pub of_argument_loop : (result : TypeSetArray) → Keeps P (argument_loop machine fuel result)
    pub of_block_no_scope : Keeps P (block_no_scope machine fuel)
    pub of_block_loop : (final : Option TypeSet) → Keeps P (block_loop machine fuel final)
    pub of_block : Keeps P (block machine fuel)
    pub of_if_expr : Keeps P (if_expr machine fuel)
    pub of_else_branch : Keeps P (else_branch machine fuel)
    pub of_loop_expr : Keeps P (loop_expr machine fuel)
    pub of_fn_expr : Keeps P (fn_expr machine fuel)
    pub of_function_body :
        (name : List ℕ) (params : ParametersAndReturn F)
        → Keeps P (function_body machine fuel name params)
    pub of_fn_declaration : Keeps P (fn_declaration machine fuel)
    pub of_var_declaration : Keeps P (var_declaration machine fuel)
    pub of_declare_var :
        (name : Token F) (is_const : Bool) → Keeps P (declare_var machine fuel name is_const)
    pub of_optional_type : (present : Bool) → Keeps P (optional_type machine fuel present)
    pub of_optional_expression :
        (present : Bool) → Keeps P (optional_expression machine fuel present)
    pub of_while_statement : Keeps P (while_statement machine fuel)
    pub of_break_statement : Keeps P (break_statement machine fuel)
    pub of_break_value : Keeps P (break_value machine fuel)
    pub of_return_statement : Keeps P (return_statement machine fuel)
    pub of_expression_maybe_statement : Keeps P (expression_maybe_statement machine fuel)
    pub of_statement_or_expression : Keeps P (statement_or_expression machine fuel)
    pub of_fn_statement : Keeps P (fn_statement machine fuel)
