-- ===== src/Parser/Steps.antt =====
-- The parts of the grammar that parse no expression themselves: literals, the search for a variable,
-- the end of a statement in a block, parameters, and the ways out of a loop, from
-- tx-runtime/include/tx/compiler_inl.hxx.
use tx_lang_cxx.Prelude.{
  ℕ, zero, suc, Bool, true, false, not, ◌&&◌, Option, none, some, List, [], ◌∷◌, get_elem?, ltb,
  ◌==◌, if◌then◌else◌,
}
use tx_lang_cxx.Prelude.Int.{pos}
use tx_lang_cxx.OpCode.{OpCode}
use tx_lang_cxx.TokenType.{TokenType}
use tx_lang_cxx.Value.{Value}
use tx_lang_cxx.TypeInfo.{TypeInfo, TypeSet, TypeSetArray, no_sets, with_set, is_nil}
use tx_lang_cxx.Scanner.State.{Literal}
use tx_lang_cxx.Parser.State.{
  Machine, Local, Action, pure, invalid, gets, lift, with_compiler, ◌>>=◌, ◌>>◌, on_option, when,
}
use tx_lang_cxx.Parser.Tokens.{same_type, error, advance, consume}
use tx_lang_cxx.Parser.Emit.{emit_opcode, emit_var_length_instruction, emit_constant, emit_loop}
use tx_lang_cxx.Parser.Scopes.{deeper}
use tx_lang_cxx.Parser.Loops.{innermost_loop}
use tx_lang_cxx.Parser.Variables.{resolve_local, local_at, resolve_current, declare_local_variable}
use tx_lang_cxx.Parser.Globals.{make_string, resolve_global, define_variable}
use tx_lang_cxx.Parser.Types.{Parameter, one_type}

pub data Kind : Type 0 where
  statement expression_without_block expression_with_block : Kind

pub record ParseResult : Type 0 where
  pub kind : Kind
  pub type_set : TypeSet

abbrev pub is_statement : Kind → Bool
is_statement statement = true
is_statement _ = false

abbrev pub has_block : Kind → Bool
has_block expression_with_block = true
has_block _ = false

-- the switch of `binary`
unfoldable pub binary_opcode : TokenType → Option OpCode
binary_opcode type = elim type [
  | TokenType.bang_equal ↦ some OpCode.not_equal
  | TokenType.equal_equal ↦ some OpCode.equal
  | TokenType.left_chevron ↦ some OpCode.less
  | TokenType.less_equal ↦ some OpCode.less_equal
  | TokenType.right_chevron ↦ some OpCode.greater
  | TokenType.greater_equal ↦ some OpCode.greater_equal
  | TokenType.plus ↦ some OpCode.add
  | TokenType.minus ↦ some OpCode.substract
  | TokenType.star ↦ some OpCode.multiply
  | TokenType.slash ↦ some OpCode.divide
  | _ ↦ none
]

-- the cases of the switch of `literal` that emit a constant
abbrev pub literal_type : TokenType → Option TypeInfo
literal_type TokenType.float_literal = some TypeInfo.float
literal_type TokenType.integer_literal = some TypeInfo.integer
literal_type TokenType.string_literal = some TypeInfo.string
literal_type _ = none

-- How a variable that was found is read and written.
pub record Variable : Type 0 where
  pub get_op : OpCode
  pub set_op : OpCode
  pub idx : ℕ
  pub is_const : Bool
  pub type_set : TypeSet

abbrev pub local_variable : OpCode → OpCode → ℕ → Local → Option Variable
local_variable get_op set_op idx local = some record {
  get_op = get_op;
  set_op = set_op;
  idx = idx;
  is_const = local.is_const;
  type_set = local.type_set;
}

-- the loop of `emit_pop_innermost_loop`: how many locals are deeper than the loop
abbrev pub loop_local_count : ℕ → List Local → ℕ
loop_local_count scope_depth [] = 0
loop_local_count scope_depth (local ∷ locals) =
    let rest = loop_local_count scope_depth locals in
    if deeper local.depth scope_depth then suc rest else 0

module _ {F : Type 0} where
  -- The value of a token's literal; a string becomes an object here, not in the scanner.
  unfoldable pub literal_value : Literal F → Action F (Value F)
  unfolding pure
  literal_value (Literal.integer n) = pure (Value.integer (pos n))
  literal_value (Literal.scalar x) = pure (Value.scalar x)
  literal_value (Literal.string bytes) = make_string bytes
  literal_value _ = pure Value.val_none

  abbrev pub emit_typed : OpCode → TypeInfo → Action F TypeSet
  emit_typed opc type = do emit_opcode opc; pure (one_type type)

  -- the two errors of `named_variable` on a global variable that is not defined yet
  unfoldable pub global_variable : Option ℕ → Action F (Option Variable)
  global_variable none = do error "Cannot find value with this name in current scope."; pure none
  global_variable (some idx) = do
    signature ← gets (λ p. get_elem? p.global_signatures idx)
    global ← lift signature
    depth ← with_compiler (λ c. c.scope_depth)
    when (depth == 0 && not global.is_defined)
        (error "Use of forward declared global before definition.")
    pure (
        some record {
          get_op = OpCode.get_global;
          set_op = OpCode.set_global;
          idx = idx;
          is_const = global.is_const;
          type_set = global.type_set;
        })

  unfoldable pub emit_pops : ℕ → Action F (Unit {0})
  emit_pops zero = pure tt
  emit_pops (suc count) = do emit_opcode OpCode.pop; emit_pops count

  unfoldable pub emit_pop_innermost_loop : Bool → Action F (Unit {0})
  emit_pop_innermost_loop skip_top_expression = do
    innermost ← with_compiler innermost_loop
    loop ← lift innermost
    count ← with_compiler (λ c. loop_local_count loop.scope_depth c.locals)
    if skip_top_expression
        then when (ltb 0 count) (emit_var_length_instruction OpCode.end_scope count)
        else emit_pops count

  -- the loop of `function_body` over the parameters and their types, of which there are as many
  unfoldable pub declare_parameters : List (Parameter F) → TypeSetArray → Action F (Unit {0})
  declare_parameters [] no_sets = pure tt
  declare_parameters (parameter ∷ parameters) (with_set types rest) = do
    declare_local_variable parameter.name parameter.is_const types
    define_variable none
    declare_parameters parameters rest
  declare_parameters _ _ = invalid

  -- the loop at the end of `compile` over the global variables
  unfoldable pub check_globals : List (Value F × ℕ) → Action F (Unit {0})
  check_globals [] = pure tt
  check_globals ((name, idx) ∷ indices) = do
    signature ← gets (λ p. get_elem? p.global_signatures idx)
    global ← lift signature
    when (not global.is_defined) (error "Global variable '{}' declared but not defined.")
    check_globals indices

module _ {F : Type 0} (machine : Machine F) where
  -- `none` is the unreachable default
  unfoldable pub literal : Action F TypeSet
  literal = do
    token ← gets (λ p. p.previous)
    let constant : TypeInfo → Action F TypeSet = λ type. do
      value ← literal_value token.value
      emit_constant machine value
      pure (one_type type)
    if same_type token.type TokenType.nil_kw
        then emit_typed OpCode.nil TypeInfo.nil
        else if same_type token.type TokenType.false_kw
        then emit_typed OpCode.false TypeInfo.boolean
        else if same_type token.type TokenType.true_kw
        then emit_typed OpCode.true TypeInfo.boolean
        else on_option (literal_type token.type) invalid constant

  -- The first part of `named_variable`. The type is read here, where the source keeps a pointer to
  -- it and reads it after the assignment.
  unfoldable pub resolve_variable : List ℕ → Action F (Option Variable)
  resolve_variable name = do
    search ← with_compiler (λ c. resolve_local name c.locals)
    idx ← lift search
    let outer : Action F (Option Variable) = do
      upvalue ← resolve_current name
      on_option upvalue (do global ← resolve_global machine name; global_variable global)
          (λ (i, var). pure (local_variable OpCode.get_upvalue OpCode.set_upvalue i var))
    on_option idx outer λ i. do
      entry ← with_compiler (λ c. local_at i c.locals)
      local ← lift entry
      pure (local_variable OpCode.get_local OpCode.set_local i local)

  -- What `block_no_scope` does behind a statement or expression: the type of the block's last
  -- expression, if this was it.
  unfoldable pub after_statement : ParseResult → Option TypeSet → Action F (Option TypeSet)
  after_statement parsed final_expr_opt =
      if is_statement parsed.kind then pure final_expr_opt else do
        type ← gets (λ p. p.current.type)
        if same_type type TokenType.right_brace
            then pure (some parsed.type_set)
            else if same_type type TokenType.semicolon
            then (do advance machine; emit_opcode OpCode.pop; pure final_expr_opt)
            else (do
              if has_block parsed.kind && is_nil parsed.type_set
                  then emit_opcode OpCode.pop
                  else error "Expect ';' or '}}' after expression inside block."
              pure final_expr_opt)

  unfoldable pub continue_statement : Action F (Unit {0})
  continue_statement = do
    innermost ← with_compiler innermost_loop
    on_option innermost (error "Can't use 'continue' outside of a loop.") λ loop. do
      consume machine TokenType.semicolon "Expect ; after 'continue'."
      emit_pop_innermost_loop false
      emit_loop loop.start
