-- ===== src/Scanner/Scan.antt =====
-- `Scanner::identifier` and `Scanner::scan_token` of tx-runtime/include/tx/scanner_inl.hxx.
use tx_lang_cxx.Prelude.{ℕ, ◌+◌, ◌-◌, Bool, ◌&&◌, ◌||◌, List, [], ◌∷◌, ◌==◌, if◌then◌else◌}
use tx_lang_cxx.TokenType.{TokenType}
use tx_lang_cxx.Scanner.Keyword.{identifier_type}
use tx_lang_cxx.Scanner.State.{
  FromChars, Scanner, Token, Outcome, ok, ◌>>=◌, is_digit, is_alpha, is_at_end, advance, peek,
  peek_next, match, slice, make_token, error_token, fuel_of, skip_whitespace, advance_while,
}
use tx_lang_cxx.Scanner.Number.{hex_number, number}
use tx_lang_cxx.Scanner.Text.{string, raw_string}

unfoldable pub is_identifier_char : ℕ → Bool
unfolding is_alpha is_digit
is_identifier_char chr = is_alpha chr || is_digit chr

-- `str_interp_braces.back()++`, if there is one
abbrev pub open_brace : Scanner → Scanner
open_brace s = elim s.str_interp_braces [
  | [] ↦ s
  | count ∷ counts ↦ record s { str_interp_braces = (count + 1) ∷ counts }
]

module _ {F : Type 0} where
  unfoldable pub identifier : Scanner → Outcome (Token F × Scanner)
  identifier s = do
    s' ← advance_while is_identifier_char (fuel_of s) s
    ok (make_token s' (identifier_type (slice s'.source s'.start s'.current)), s')

  -- `make_token(match('=') ? with_equal : alone)`
  unfoldable pub operator : TokenType → TokenType → Scanner → Outcome (Token F × Scanner)
  operator with_equal alone s =
      let (found, s') = match s b'=' in ok (make_token s' (if found then with_equal else alone), s')

  -- `case '}'`: the brace that closes an interpolated expression goes on with the string.
  unfoldable pub close_brace : List ℕ → Scanner → Outcome (Token F × Scanner)
  close_brace [] s = ok (make_token s TokenType.right_brace, s)
  close_brace (count ∷ counts) s =
      let less = count - 1 in
      let s' = record s { str_interp_braces = less ∷ counts } in
      if less == 0
      then string (record s { str_interp_braces = counts })
      else ok (make_token s' TokenType.right_brace, s')

module _ {F : Type 0} (parse_float : List ℕ → FromChars F) where
  -- the switch over the byte that was read
  unfoldable pub dispatch : ℕ → Scanner → Outcome (Token F × Scanner)
  dispatch chr s =
      let one : TokenType → Outcome (Token F × Scanner) = λ type. ok (make_token s type, s) in
      if chr == b'('
      then one TokenType.left_paren
      else if chr == b')'
      then one TokenType.right_paren
      else if chr == b'{'
      then ok (make_token (open_brace s) TokenType.left_brace, open_brace s)
      else if chr == b'}'
      then close_brace s.str_interp_braces s
      else if chr == b'['
      then one TokenType.left_bracket
      else if chr == b']'
      then one TokenType.right_bracket
      else if chr == b':'
      then one TokenType.colon
      else if chr == b';'
      then one TokenType.semicolon
      else if chr == b','
      then one TokenType.comma
      else if chr == b'.'
      then one TokenType.dot
      else if chr == b'-'
      then one TokenType.minus
      else if chr == b'|'
      then one TokenType.pipe
      else if chr == b'+'
      then one TokenType.plus
      else if chr == b'/'
      then one TokenType.slash
      else if chr == b'*'
      then one TokenType.star
      else if chr == b'!'
      then operator TokenType.bang_equal TokenType.bang s
      else if chr == b'='
      then operator TokenType.equal_equal TokenType.equal s
      else if chr == b'<'
      then operator TokenType.less_equal TokenType.left_chevron s
      else if chr == b'>'
      then operator TokenType.greater_equal TokenType.right_chevron s
      else if chr == b'"'
      then (if peek s == b'"' && peek_next s 1 == b'"' then raw_string s else string s)
      else if chr == b'0'
      then (if peek s == b'x' || peek s == b'X' then hex_number s else number parse_float s)
      else if is_alpha chr
      then identifier s
      else if is_digit chr
      then number parse_float s
      else ok (error_token s "Unexpected character.", s)

  unfoldable pub scan_token : Scanner → Outcome (Token F × Scanner)
  scan_token s = do
    blank ← skip_whitespace s
    let s' = record blank { start = blank.current }
    let (chr, s₁) = advance s'
    if is_at_end s' then ok (make_token s' TokenType.end_of_file, s') else dispatch chr s₁
