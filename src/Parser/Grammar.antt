-- ===== src/Parser/Grammar.antt =====
-- The recursive descent of the class `Parser`: expressions and statements of
-- tx-runtime/include/tx/compiler_inl.hxx. Each call, and each round of a loop, takes a unit of fuel.
use tx_lang_cxx.Prelude.{
  ℕ, zero, suc, Bool, true, false, not, ◌&&◌, ◌||◌, Option, none, some, List, [], ◌∷◌, length, ◌==◌,
  if◌then◌else◌,
}
use tx_lang_cxx.OpCode.{OpCode}
use tx_lang_cxx.TokenType.{TokenType}
use tx_lang_cxx.TypeInfo.{
  TypeInfo, TypeSet, no_types, TypeSetArray, no_sets, move_all_from, is_nil, assign_sets, sets_size,
}
use tx_lang_cxx.TypeInfo.Check.{
  is_empty, type_check_binary, type_check_negate, type_check_call, type_check_cast,
}
use tx_lang_cxx.Scanner.State.{Token}
use tx_lang_cxx.Parser.State.{
  Machine, FunctionType, Compiler, Action, max_fn_parameters, pure, invalid, endless, gets, lift,
  with_compiler, update_compiler, ◌>>=◌, ◌>>◌, on_option, when,
}
use tx_lang_cxx.Parser.Tokens.{
  same_type, error, error_at, error_at_current, check, set_cut_short, help_cut_short, advance,
  match, consume, synchronize,
}
use tx_lang_cxx.Parser.Emit.{
  emit_instruction, emit_opcode, emit_var_length_instruction, emit_closure, emit_jump, emit_loop,
  patch_jump,
}
use tx_lang_cxx.Parser.Scopes.{begin_compiler, end_compiler, begin_scope, end_scope, begin_loop}
use tx_lang_cxx.Parser.Loops.{innermost_loop, end_loop}
use tx_lang_cxx.Parser.Globals.{declare_variable, mark_initialized, define_variable}
use tx_lang_cxx.Parser.Types.{
  one_type, push_set, ParametersAndReturn, parse_type_set, parameter_list_and_return_type,
}
use tx_lang_cxx.Parser.Rules.{
  Precedence, Prefix, Infix, next_precedence, binds, get_rule, is_block_expr,
}
use tx_lang_cxx.Parser.Steps.{
  Kind, ParseResult, is_statement, has_block, binary_opcode, literal, resolve_variable,
  after_statement, continue_statement, emit_pop_innermost_loop, declare_parameters,
}

abbrev pub result_of : Kind → TypeSet → ParseResult
result_of kind types = record { kind = kind; type_set = types }

abbrev pub has_value {ℓ} : {A : Type ℓ} → Option A → Bool
has_value none = false
has_value (some a) = true

-- whether the declared type does not take that of the expression
abbrev pub mismatch : Option TypeSet → Option TypeSet → Bool
mismatch (some decl) (some expr) = not (assign_sets decl expr)
mismatch _ _ = false

-- `decl_type` if there is one, else `expr_type`
abbrev pub declared_type : Option TypeSet → Option TypeSet → Option TypeSet
declared_type (some decl) expr = some decl
declared_type none expr = expr

-- `current` starts the rest of an expression
abbrev pub cuts_short : TokenType → Bool
cuts_short type =
    same_type type TokenType.equal || binds Precedence.assignment (get_rule type).precedence

module _ {F : Type 0} where
  -- `loop.type_set` of the innermost loop takes more types
  unfoldable pub add_loop_types : TypeSet → Compiler F → Compiler F
  add_loop_types types c = elim c.loops [
    | [] ↦ c
    | loop ∷ loops ↦ record c {
      loops = record loop { type_set = move_all_from loop.type_set types } ∷ loops;
    }
  ]

  -- `arity` and `type_info`, set at the start of a function's body
  unfoldable pub set_signature : ParametersAndReturn F → Compiler F → Compiler F
  set_signature params_ret c = record c {
    obj_function = record c.obj_function { arity = length params_ret.parameters };
    type_info = params_ret.type_info;
  }

  -- a token without a prefix rule
  abbrev pub no_prefix : Action F TypeSet
  no_prefix = do error "Expect expression."; help_cut_short; pure no_types

  abbrev pub is_script : Compiler F → Bool
  is_script c = elim c.function_type [ FunctionType.script ↦ true | FunctionType.function ↦ false ]

  unfoldable pub end_expression : ParseResult → Machine F → Action F (Unit {0})
  end_expression parsed machine = do
    emit_opcode OpCode.pop
    semicolon ← match machine TokenType.semicolon
    when (not semicolon && not (has_block parsed.kind && is_nil parsed.type_set))
        (do error_at_current "Expect ';' after expression."; help_cut_short)

module _ {F : Type 0} (machine : Machine F) where
  unfoldable mutual
    pub expression : ℕ → Action F TypeSet
    expression zero = endless
    expression (suc fuel) = parse_precedence fuel Precedence.assignment

    pub parse_precedence : ℕ → Precedence → Action F TypeSet
    parse_precedence zero prec = endless
    parse_precedence (suc fuel) prec = do advance machine; parse_precedence_no_advance fuel prec

    pub parse_precedence_no_advance : ℕ → Precedence → Action F TypeSet
    parse_precedence_no_advance zero prec = endless
    parse_precedence_no_advance (suc fuel) prec = do
      type ← gets (λ p. p.previous.type)
      let can_assign = binds prec Precedence.assignment
      on_option (get_rule type).prefix_rule no_prefix λ prefix_rule. do
        first ← invoke_prefix fuel prefix_rule can_assign
        set_cut_short (λ p. false)
        result ← infix_loop fuel prec can_assign first
        invalid_target ← (if can_assign then match machine TokenType.equal else pure false)
        when invalid_target (error "Invalid assignment target.")
        pure result

    -- the loop of `parse_precedence_no_advance`
    pub infix_loop : ℕ → Precedence → Bool → TypeSet → Action F TypeSet
    infix_loop zero prec can_assign result = endless
    infix_loop (suc fuel) prec can_assign result = do
      type ← gets (λ p. p.current.type)
      let round : Action F TypeSet = do
        advance machine
        operator ← gets (λ p. p.previous.type)
        infix_rule ← lift (get_rule operator).infix_rule
        next ← invoke_infix fuel infix_rule result
        infix_loop fuel prec can_assign next
      if binds prec (get_rule type).precedence then round else pure result

    pub parse_prefix_only : ℕ → Action F TypeSet
    parse_prefix_only zero = endless
    parse_prefix_only (suc fuel) = do
      type ← gets (λ p. p.previous.type)
      on_option (get_rule type).prefix_rule no_prefix λ prefix_rule. do
        types ← invoke_prefix fuel prefix_rule true
        set_cut_short (λ p. cuts_short p.current.type)
        pure types

    -- the call of a prefix rule
    pub invoke_prefix : ℕ → Prefix → Bool → Action F TypeSet
    invoke_prefix zero prefix_rule can_assign = endless
    invoke_prefix (suc fuel) Prefix.grouping can_assign = do
      result ← expression fuel
      consume machine TokenType.right_paren "Expect ')' after expression."
      pure result
    invoke_prefix (suc fuel) Prefix.block can_assign = block fuel
    invoke_prefix (suc fuel) Prefix.unary can_assign = unary fuel
    invoke_prefix (suc fuel) Prefix.variable can_assign = do
      token ← gets (λ p. p.previous)
      named_variable fuel token can_assign
    invoke_prefix (suc fuel) Prefix.literal can_assign = literal machine
    invoke_prefix (suc fuel) Prefix.fn_expr can_assign = fn_expr fuel
    invoke_prefix (suc fuel) Prefix.if_expr can_assign = if_expr fuel
    invoke_prefix (suc fuel) Prefix.loop_expr can_assign = loop_expr fuel

    -- the call of an infix rule
    pub invoke_infix : ℕ → Infix → TypeSet → Action F TypeSet
    invoke_infix zero infix_rule lhs = endless
    invoke_infix (suc fuel) Infix.call lhs = call fuel lhs
    invoke_infix (suc fuel) Infix.binary lhs = binary fuel lhs
    invoke_infix (suc fuel) Infix.and_rule lhs = do
      end_jump ← emit_jump OpCode.jump_if_false
      emit_opcode OpCode.pop
      rhs ← parse_precedence fuel Precedence.and_level
      patch_jump end_jump
      pure (one_type TypeInfo.boolean)
    invoke_infix (suc fuel) Infix.or_rule lhs = do
      else_jump ← emit_jump OpCode.jump_if_false
      end_jump ← emit_jump OpCode.jump
      patch_jump else_jump
      emit_opcode OpCode.pop
      rhs ← parse_precedence fuel Precedence.or_level
      patch_jump end_jump
      pure (one_type TypeInfo.boolean)
    invoke_infix (suc fuel) Infix.as_rule lhs = do
      types ← parse_type_set machine fuel
      when (not (type_check_cast lhs types)) (error "Incompatible types in 'as' expression.")
      pure types

    pub named_variable : ℕ → Token F → Bool → Action F TypeSet
    named_variable zero name can_assign = endless
    named_variable (suc fuel) name can_assign = do
      resolved ← resolve_variable machine name.lexeme
      on_option resolved (pure no_types) λ var. do
        assign ← (if can_assign then match machine TokenType.equal else pure false)
        let set : Action F (Unit {0}) = do
          when var.is_const (error "Immutable assignment target.")
          rhs ← expression fuel
          when (not (assign_sets var.type_set rhs)) (error "Incompatible types in assignment.")
          emit_var_length_instruction var.set_op var.idx
        if assign then set else emit_var_length_instruction var.get_op var.idx
        pure var.type_set

    pub unary : ℕ → Action F TypeSet
    unary zero = endless
    unary (suc fuel) = do
      type ← gets (λ p. p.previous.type)
      rhs ← parse_precedence fuel Precedence.unary
      let minus : Action F TypeSet = do
        when (not (type_check_negate rhs)) (error "Incompatible types in unary '-'.")
        emit_opcode OpCode.negate
        pure rhs
      if same_type type TokenType.bang
          then (do emit_opcode OpCode.not; pure (one_type TypeInfo.boolean))
          else if same_type type TokenType.minus
          then minus
          else invalid

    pub binary : ℕ → TypeSet → Action F TypeSet
    binary zero lhs = endless
    binary (suc fuel) lhs = do
      token ← gets (λ p. p.previous)
      precedence ← lift (next_precedence (get_rule token.type).precedence)
      rhs ← parse_precedence fuel precedence
      result ← lift (type_check_binary token.type lhs rhs)
      if is_empty result
          then error_at token "Incompatible types in binary operation."
          else (do opc ← lift (binary_opcode token.type); emit_opcode opc)
      pure result

    pub call : ℕ → TypeSet → Action F TypeSet
    call zero lhs = endless
    call (suc fuel) lhs = do
      arg_types ← argument_loop fuel no_sets
      consume machine TokenType.right_paren "Expect ')' after arguments."
      let result = type_check_call lhs arg_types
      when (is_empty result) (error "Incompatible types in function call.")
      emit_instruction 1 OpCode.call (sets_size arg_types)
      pure result

    -- the loop of `argument_list`
    pub argument_loop : ℕ → TypeSetArray → Action F TypeSetArray
    argument_loop zero result = endless
    argument_loop (suc fuel) result = do
      stop ← check TokenType.right_paren
      let round : Action F TypeSetArray = do
        types ← expression fuel
        let result' = push_set result types
        when (sets_size result' == suc max_fn_parameters)
            (error "Can't have more than {} arguments.")
        more ← match machine TokenType.comma
        if more then argument_loop fuel result' else pure result'
      if stop then pure result else round

    pub block_no_scope : ℕ → Action F TypeSet
    block_no_scope zero = endless
    block_no_scope (suc fuel) = do
      final_expr_opt ← block_loop fuel none
      consume machine TokenType.right_brace "Expect '}' after block."
      on_option final_expr_opt (do emit_opcode OpCode.nil; pure (one_type TypeInfo.nil)) pure

    -- the loop of `block_no_scope`
    pub block_loop : ℕ → Option TypeSet → Action F (Option TypeSet)
    block_loop zero final_expr_opt = endless
    block_loop (suc fuel) final_expr_opt = do
      closed ← check TokenType.right_brace
      at_end ← check TokenType.end_of_file
      let round : Action F (Option TypeSet) = do
        parsed ← statement_or_expression fuel
        next ← after_statement machine parsed final_expr_opt
        block_loop fuel next
      if closed || at_end then pure final_expr_opt else round

    pub block : ℕ → Action F TypeSet
    block zero = endless
    block (suc fuel) = do begin_scope; result ← block_no_scope fuel; end_scope; pure result

    pub if_expr : ℕ → Action F TypeSet
    if_expr zero = endless
    if_expr (suc fuel) = do
      cond_type ← expression fuel
      then_jump ← emit_jump OpCode.jump_if_false
      emit_opcode OpCode.pop
      consume machine TokenType.left_brace "Expect '{' before if body."
      then_result ← block fuel
      else_jump ← emit_jump OpCode.jump
      patch_jump then_jump
      emit_opcode OpCode.pop
      else_result ← else_branch fuel
      patch_jump else_jump
      pure (move_all_from then_result else_result)

    -- the part of `if_expr` behind the first branch
    pub else_branch : ℕ → Action F TypeSet
    else_branch zero = endless
    else_branch (suc fuel) = do
      has_else ← match machine TokenType.else_kw
      type ← gets (λ p. p.current.type)
      let unexpected : Action F TypeSet = do
        error_at_current "Expect '{{' before else body."
        pure no_types
      if not has_else
          then (do emit_opcode OpCode.nil; pure no_types)
          else if same_type type TokenType.if_kw
          then (do advance machine; if_expr fuel)
          else if same_type type TokenType.left_brace
          then (do advance machine; block fuel)
          else unexpected

    pub loop_expr : ℕ → Action F TypeSet
    loop_expr zero = endless
    loop_expr (suc fuel) = do
      start ← begin_loop true
      consume machine TokenType.left_brace "Expect '{' after 'loop'."
      block_result ← block fuel
      when (not (is_nil block_result)) (error "Incompatible type in block result.")
      innermost ← with_compiler innermost_loop
      loop ← lift innermost
      emit_opcode OpCode.pop
      emit_loop start
      end_loop
      pure loop.type_set

    pub fn_expr : ℕ → Action F TypeSet
    fn_expr zero = endless
    fn_expr (suc fuel) = do
      consume machine TokenType.left_paren "Expect '(' after 'fn'."
      params_ret ← parameter_list_and_return_type machine fuel
      consume machine TokenType.left_brace "Expect '{' before function body."
      function_body fuel [] params_ret
      let info = params_ret.type_info
      pure (one_type (TypeInfo.function info.parameter_types info.return_type))

    -- `function_body` for the type `FUNCTION`
    pub function_body : ℕ → List ℕ → ParametersAndReturn F → Action F (Unit {0})
    function_body zero name params_ret = endless
    function_body (suc fuel) name params_ret = do
      begin_compiler FunctionType.function (some name)
      update_compiler (set_signature params_ret)
      begin_scope
      declare_parameters params_ret.parameters params_ret.type_info.parameter_types
      block_result ← block_no_scope fuel
      return_type ← with_compiler (λ c. c.type_info.return_type)
      when (not (assign_sets return_type block_result)) (error "Incompatible return type.")
      (compiler, address) ← end_compiler
      emit_closure machine compiler address

    pub fn_declaration : ℕ → Action F (Unit {0})
    fn_declaration zero = endless
    fn_declaration (suc fuel) = do
      kind ← gets (λ p. p.previous.type)
      found ← match machine TokenType.identifier
      name ← gets (λ p. p.previous)
      let declare : Action F (Unit {0}) = do
        consume machine TokenType.left_paren "Expect '(' after function name."
        params_ret ← parameter_list_and_return_type machine fuel
        let info = params_ret.type_info
        global_idx ←
            declare_variable machine name (not (same_type kind TokenType.var_kw))
              (one_type (TypeInfo.function info.parameter_types info.return_type))
        body ← match machine TokenType.left_brace
        if body
            then (do
              mark_initialized global_idx
              function_body fuel name.lexeme params_ret
              define_variable global_idx)
            else consume machine TokenType.semicolon "Expect '{' or ';' after function declaration."
      if found then declare else error_at_current "Expect function name."

    pub var_declaration : ℕ → Action F (Unit {0})
    var_declaration zero = endless
    var_declaration (suc fuel) = do
      kind ← gets (λ p. p.previous.type)
      found ← match machine TokenType.identifier
      name ← gets (λ p. p.previous)
      if found
          then declare_var fuel name (not (same_type kind TokenType.var_kw))
          else error_at_current "Expect variable name."

    -- `var_declaration` behind the name
    pub declare_var : ℕ → Token F → Bool → Action F (Unit {0})
    declare_var zero name is_const = endless
    declare_var (suc fuel) name is_const = do
      colon ← match machine TokenType.colon
      decl_type ← optional_type fuel colon
      equal ← match machine TokenType.equal
      expr_type ← optional_expression fuel equal
      depth ← with_compiler (λ c. c.scope_depth)
      when (not equal && not (has_value decl_type)) (error "Expect ':' or '=' after variable name.")
      when (not equal && not (depth == 0))
          (error "Local variable should be initialized in declaration.")
      when (mismatch decl_type expr_type) (error "Incompatible type in variable declaration.")
      had_error ← gets (λ p. p.had_error)
      let declare : Action F (Unit {0}) = do
        types ← lift (declared_type decl_type expr_type)
        global_idx ← declare_variable machine name is_const types
        when (has_value expr_type) (define_variable global_idx)
      when (not had_error) declare
      consume machine TokenType.semicolon "Expect ';' after variable declaration."

    -- `decl_type` of `var_declaration`
    pub optional_type : ℕ → Bool → Action F (Option TypeSet)
    optional_type zero present = endless
    optional_type (suc fuel) present =
        if present then (do types ← parse_type_set machine fuel; pure (some types)) else pure none

    -- `expr_type` of `var_declaration`
    pub optional_expression : ℕ → Bool → Action F (Option TypeSet)
    optional_expression zero present = endless
    optional_expression (suc fuel) present =
        if present then (do types ← expression fuel; pure (some types)) else pure none

    pub while_statement : ℕ → Action F (Unit {0})
    while_statement zero = endless
    while_statement (suc fuel) = do
      start ← begin_loop false
      cond_type ← expression fuel
      exit_jump ← emit_jump OpCode.jump_if_false
      emit_opcode OpCode.pop
      consume machine TokenType.left_brace "Expect '{' before while body."
      block_result ← block fuel
      emit_opcode OpCode.pop
      emit_loop start
      patch_jump exit_jump
      emit_opcode OpCode.pop
      end_loop
      semicolon ← match machine TokenType.semicolon
      pure tt

    pub break_statement : ℕ → Action F (Unit {0})
    break_statement zero = endless
    break_statement (suc fuel) = do
      innermost ← with_compiler innermost_loop
      on_option innermost (error "Can't use 'break' outside of a loop.") λ loop. do
        if loop.is_loop_expr
            then break_value fuel
            else consume machine TokenType.semicolon "Expect ';' after 'break'."
        emit_pop_innermost_loop loop.is_loop_expr
        jump ← emit_jump OpCode.end
        pure tt

    -- the value that `break` gives to a loop expression
    pub break_value : ℕ → Action F (Unit {0})
    break_value zero = endless
    break_value (suc fuel) = do
      semicolon ← match machine TokenType.semicolon
      let value : Action F (Unit {0}) = do
        types ← expression fuel
        update_compiler (add_loop_types types)
        consume machine TokenType.semicolon "Expect ';' after expression in 'break' statement."
      if semicolon
          then (do emit_opcode OpCode.nil; update_compiler (add_loop_types (one_type TypeInfo.nil)))
          else value

    pub return_statement : ℕ → Action F (Unit {0})
    return_statement zero = endless
    return_statement (suc fuel) = do
      top_level ← with_compiler is_script
      let value : Action F (Unit {0}) = do
        types ← expression fuel
        return_type ← with_compiler (λ c. c.type_info.return_type)
        when (not (assign_sets return_type types))
            (error "Incompatible type in 'return' statement.")
        consume machine TokenType.semicolon "Expect ';' after return value."
      let leave : Action F (Unit {0}) = do
        semicolon ← match machine TokenType.semicolon
        if semicolon then emit_opcode OpCode.nil else value
        emit_opcode OpCode.return
      if top_level then error "Can't return from top-level code." else leave

    pub expression_maybe_statement : ℕ → Action F ParseResult
    expression_maybe_statement zero = endless
    expression_maybe_statement (suc fuel) = do
      type ← gets (λ p. p.previous.type)
      let with_block : Action F ParseResult = do
        types ← parse_prefix_only fuel
        pure (result_of Kind.expression_with_block types)
      let without_block : Action F ParseResult = do
        types ← parse_precedence_no_advance fuel Precedence.assignment
        pure (result_of Kind.expression_without_block types)
      if is_block_expr type then with_block else without_block

    pub statement_or_expression : ℕ → Action F ParseResult
    statement_or_expression zero = endless
    statement_or_expression (suc fuel) = do
      type ← gets (λ p. p.current.type)
      let done : Action F (Unit {0}) → Action F ParseResult =
          λ m. do advance machine; m; pure (result_of Kind.statement no_types)
      if same_type type TokenType.fn_kw
          then (do advance machine; fn_statement fuel)
          else if same_type type TokenType.var_kw || same_type type TokenType.let_kw
          then done (var_declaration fuel)
          else if same_type type TokenType.return_kw
          then done (return_statement fuel)
          else if same_type type TokenType.while_kw
          then done (while_statement fuel)
          else if same_type type TokenType.break_kw
          then done (break_statement fuel)
          else if same_type type TokenType.continue_kw
          then done (continue_statement machine)
          else (do advance machine; expression_maybe_statement fuel)

    -- `statement_or_expression` behind `fn`
    pub fn_statement : ℕ → Action F ParseResult
    fn_statement zero = endless
    fn_statement (suc fuel) = do
      named ← check TokenType.identifier
      anonymous ← check TokenType.left_paren
      let declaration : Action F ParseResult = do
        fn_declaration fuel
        pure (result_of Kind.statement no_types)
      let otherwise : Action F ParseResult = do
        when (not anonymous) (error "Expect function name or '(' after 'fn'.")
        expression_maybe_statement fuel
      if named then declaration else otherwise

  unfoldable pub statement : ℕ → Action F (Unit {0})
  statement fuel = do
    parsed ← statement_or_expression fuel
    when (not (is_statement parsed.kind)) (end_expression parsed machine)
    panic_mode ← gets (λ p. p.panic_mode)
    when panic_mode (synchronize machine)
