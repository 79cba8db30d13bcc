-- ===== src/Parser/Tokens.antt =====
-- Errors and the stream of tokens: `Parser::error_at`, `advance`, `check`, `match`, `consume` and
-- `synchronize` of tx-runtime/include/tx/compiler_inl.hxx. The text of an error is a `Diagnostic`;
-- its layout on the terminal is not modelled.
use Prim.Native.String.{String}
use tx_lang_cxx.Prelude.{ℕ, zero, suc, Bool, true, false, not, ◌&&◌, ◌∷◌, ◌==◌, if◌then◌else◌}
use tx_lang_cxx.TokenType.{TokenType}
use tx_lang_cxx.Scanner.State.{Token, Literal, ok, undefined, stuck, fuel_of}
use tx_lang_cxx.Scanner.Scan.{scan_token}
use tx_lang_cxx.Parser.State.{
  Machine, Parser, Action, pure, endless, gets, update, ◌>>=◌, ◌>>◌, when,
}

-- The position of a type of token in the enumeration, by which types are compared.
unfoldable pub token_number : TokenType → ℕ
token_number type = elim type [
  | TokenType.left_paren ↦ 0
  | TokenType.right_paren ↦ 1
  | TokenType.left_brace ↦ 2
  | TokenType.right_brace ↦ 3
  | TokenType.left_bracket ↦ 4
  | TokenType.right_bracket ↦ 5
  | TokenType.colon ↦ 6
  | TokenType.comma ↦ 7
  | TokenType.dot ↦ 8
  | TokenType.minus ↦ 9
  | TokenType.pipe ↦ 10
  | TokenType.plus ↦ 11
  | TokenType.semicolon ↦ 12
  | TokenType.slash ↦ 13
  | TokenType.star ↦ 14
  | TokenType.bang ↦ 15
  | TokenType.bang_equal ↦ 16
  | TokenType.equal ↦ 17
  | TokenType.equal_equal ↦ 18
  | TokenType.left_chevron ↦ 19
  | TokenType.less_equal ↦ 20
  | TokenType.right_chevron ↦ 21
  | TokenType.greater_equal ↦ 22
  | TokenType.identifier ↦ 23
  | TokenType.integer_literal ↦ 24
  | TokenType.float_literal ↦ 25
  | TokenType.string_literal ↦ 26
  | TokenType.string_interp ↦ 27
  | TokenType.and_kw ↦ 28
  | TokenType.as_kw ↦ 29
  | TokenType.async_kw ↦ 30
  | TokenType.await_kw ↦ 31
  | TokenType.break_kw ↦ 32
  | TokenType.continue_kw ↦ 33
  | TokenType.else_kw ↦ 34
  | TokenType.false_kw ↦ 35
  | TokenType.for_kw ↦ 36
  | TokenType.fn_kw ↦ 37
  | TokenType.if_kw ↦ 38
  | TokenType.in_kw ↦ 39
  | TokenType.inout_kw ↦ 40
  | TokenType.import_kw ↦ 41
  | TokenType.is_kw ↦ 42
  | TokenType.let_kw ↦ 43
  | TokenType.loop_kw ↦ 44
  | TokenType.nil_kw ↦ 45
  | TokenType.match_kw ↦ 46
  | TokenType.or_kw ↦ 47
  | TokenType.out_kw ↦ 48
  | TokenType.return_kw ↦ 49
  | TokenType.self_kw ↦ 50
  | TokenType.struct_kw ↦ 51
  | TokenType.super_kw ↦ 52
  | TokenType.true_kw ↦ 53
  | TokenType.var_kw ↦ 54
  | TokenType.while_kw ↦ 55
  | TokenType.any_type ↦ 56
  | TokenType.bool_type ↦ 57
  | TokenType.char_type ↦ 58
  | TokenType.float_type ↦ 59
  | TokenType.fn_type ↦ 60
  | TokenType.int_type ↦ 61
  | TokenType.nil_type ↦ 62
  | TokenType.str_type ↦ 63
  | TokenType.error ↦ 64
  | TokenType.end_of_file ↦ 65
]

abbrev pub same_type : TokenType → TokenType → Bool
same_type a b = token_number a == token_number b

module _ {F : Type 0} where
  abbrev pub report : Token F → String → Parser F → Parser F
  report token message p = record p {
    panic_mode = true;
    had_error = true;
    diagnostics = record { token = token; message = message } ∷ p.diagnostics;
  }

  unfoldable pub error_at : Token F → String → Action F (Unit {0})
  error_at token message = update λ p. if p.panic_mode then p else report token message p

  unfoldable pub error : String → Action F (Unit {0})
  unfolding error_at
  error message = do token ← gets (λ p. p.previous); error_at token message

  unfoldable pub error_at_current : String → Action F (Unit {0})
  unfolding error_at
  error_at_current message = do token ← gets (λ p. p.current); error_at token message

  unfoldable pub check : TokenType → Action F Bool
  check type = gets λ p. same_type p.current.type type

  -- the text of an error token
  abbrev pub message_of : Literal F → String
  message_of (Literal.message text) = text
  message_of _ = ""

  unfoldable pub set_cut_short : (Parser F → Bool) → Action F (Unit {0})
  set_cut_short flag = update λ p. record p { previous_statement_was_cut_short = flag p }

  -- `previous = current`
  unfoldable pub shift : Action F (Unit {0})
  shift = update λ p. record p { previous = p.current }

  -- `panic_mode = false`
  unfoldable pub leave_panic_mode : Action F (Unit {0})
  leave_panic_mode = update λ p. record p { panic_mode = false }

  -- the flag is cleared; the text of the help is not modelled
  unfoldable pub help_cut_short : Action F (Unit {0})
  unfolding set_cut_short
  help_cut_short = set_cut_short (λ p. false)

module _ {F : Type 0} (machine : Machine F) where
  -- `current = scanner->scan_token()`
  unfoldable pub scan : Action F (Unit {0})
  scan p = elim (scan_token machine.parse_float p.scanner) [
    | ok (token, s) ↦ ok (tt, record p { scanner = s; current = token })
    | undefined ↦ undefined
    | stuck ↦ stuck
  ]

  -- The loop that reports the tokens of errors; each takes a byte of the source at least.
  unfoldable pub advance_loop : ℕ → Action F (Unit {0})
  advance_loop zero = endless
  advance_loop (suc fuel) = do
    scan
    is_error ← check TokenType.error
    text ← gets (λ p. message_of p.current.value)
    when is_error (do error_at_current text; advance_loop fuel)

  unfoldable pub advance : Action F (Unit {0})
  unfolding advance_loop
  advance = do shift; fuel ← gets (λ p. fuel_of p.scanner); advance_loop fuel

  unfoldable pub match : TokenType → Action F Bool
  match type = do found ← check type; when found advance; pure found

  unfoldable pub consume : TokenType → String → Action F (Unit {0})
  consume type message = do found ← match type; when (not found) (error_at_current message)

  -- the cases of the switch of `synchronize`
  abbrev pub starts_statement : TokenType → Bool
  starts_statement TokenType.struct_kw = true
  starts_statement TokenType.fn_kw = true
  starts_statement TokenType.let_kw = true
  starts_statement TokenType.var_kw = true
  starts_statement TokenType.if_kw = true
  starts_statement TokenType.match_kw = true
  starts_statement TokenType.loop_kw = true
  starts_statement TokenType.while_kw = true
  starts_statement TokenType.for_kw = true
  starts_statement TokenType.return_kw = true
  starts_statement TokenType.import_kw = true
  starts_statement _ = false

  unfoldable pub synchronize_loop : ℕ → Action F (Unit {0})
  synchronize_loop zero = endless
  synchronize_loop (suc fuel) = do
    at_end ← check TokenType.end_of_file
    semicolon ← gets (λ p. same_type p.previous.type TokenType.semicolon)
    starts ← gets (λ p. starts_statement p.current.type)
    let rest = synchronize_loop fuel
    when (not at_end && not semicolon && not starts) (advance >> rest)

  unfoldable pub synchronize : Action F (Unit {0})
  synchronize = do leave_panic_mode; fuel ← gets (λ p. fuel_of p.scanner); synchronize_loop fuel
