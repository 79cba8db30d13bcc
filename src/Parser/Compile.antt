-- ===== src/Parser/Compile.antt =====
-- `Parser::compile` of tx-runtime/include/tx/compiler_inl.hxx: from a source text to the function of
-- the script.
use tx_lang_cxx.Prelude.{ℕ, zero, suc, false, not, Option, none, some, List, [], if◌then◌else◌}
use tx_lang_cxx.OpCode.{OpCode}
use tx_lang_cxx.TokenType.{TokenType}
use tx_lang_cxx.Scanner.State
use tx_lang_cxx.Scanner.State.{Token, Literal}
use tx_lang_cxx.Parser.State.{
  Machine, FunctionType, VmOptions, Parser, Action, pure, endless, gets, update, ◌>>=◌, ◌>>◌, when,
}
use tx_lang_cxx.Parser.Tokens.{advance, match}
use tx_lang_cxx.Parser.Emit.{emit_opcode}
use tx_lang_cxx.Parser.Scopes.{begin_compiler, end_compiler}
use tx_lang_cxx.Parser.Steps.{check_globals}
use tx_lang_cxx.Parser.Grammar.{statement}

module _ {F : Type 0} where
  -- the members' initializers of `Token`
  abbrev pub no_token : Token F
  no_token = record { type = TokenType.left_paren; lexeme = []; line = 0; value = Literal.val_none }

  -- `scanner = &lex`
  unfoldable pub set_source : List ℕ → Action F (Unit {0})
  set_source source = update λ p. record p { scanner = State.new source }

  -- a new parser for a virtual machine without globals
  abbrev pub new_parser : VmOptions → Parser F
  new_parser options = record {
    scanner = State.new [];
    current = no_token;
    previous = no_token;
    had_error = false;
    panic_mode = false;
    previous_statement_was_cut_short = false;
    compilers = [];
    options = options;
    objects = [];
    global_indices = [];
    global_values = [];
    global_signatures = [];
    diagnostics = [];
  }

module _ {F : Type 0} (machine : Machine F) where
  -- `while (!match(Token::Type::END_OF_FILE)) { statement(); }`
  unfoldable pub statements : ℕ → Action F (Unit {0})
  statements zero = endless
  statements (suc fuel) = do
    at_end ← match machine TokenType.end_of_file
    let round : Action F (Unit {0}) = do statement machine fuel; statements fuel
    if at_end then pure tt else round

  -- the address of the script's function, and `none` for the null pointer
  unfoldable pub compile : ℕ → List ℕ → Action F (Option ℕ)
  unfolding statements
  compile fuel source = do
    set_source source
    begin_compiler FunctionType.script none
    advance machine
    statements fuel
    emit_opcode OpCode.nil
    (compiler, address) ← end_compiler
    indices ← gets (λ p. p.global_indices)
    allowed ← gets (λ p. p.options.allow_end_compile_with_undefined_global)
    when (not allowed) (check_globals indices)
    had_error ← gets (λ p. p.had_error)
    pure (if had_error then none else some address)
