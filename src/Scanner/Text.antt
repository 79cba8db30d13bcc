-- ===== src/Scanner/Text.antt =====
-- String literals: `Scanner::raw_string`, `hex_escape`, `utf8_escape` and `string` of
-- tx-runtime/include/tx/scanner_inl.hxx, with `utf8_encode` of tx-runtime/include/tx/unicode.hxx.
use Prim.Native.String.{String}
use tx_lang_cxx.Prelude.{
  ℕ, zero, suc, ◌+◌, ◌-◌, ◌/◌, ◌%◌, ◌^◌, Bool, true, false, not, ◌&&◌, ◌||◌, Option, none, some,
  List, [], ◌∷◌, ◌++◌, length, get_or, take, drop, ltb, leb, ◌==◌, if◌then◌else◌,
}
use tx_lang_cxx.TokenType.{TokenType}
use tx_lang_cxx.Scanner.State.{
  Scanner, Literal, Token, Outcome, ok, undefined, stuck, ◌>>=◌, is_hex_digit, is_at_end, advance,
  peek, peek_next, slice, make_token, error_token, fuel_of, bump_line,
}
use tx_lang_cxx.Scanner.Number.{digits_value}

-- `std::codecvt<char32_t, char8_t>::out` on one code point. Surrogates and numbers above the last
-- code point are errors.
unfoldable pub utf8_encode : ℕ → Option (List ℕ)
utf8_encode value =
    if ltb value 0x80
    then some (value ∷ [])
    else if ltb value 0x800
    then some ((0xc0 + value / 64) ∷ (0x80 + value % 64) ∷ [])
    else if leb 0xd800 value && ltb value 0xe000
    then none
    else if ltb value 0x1_0000
    then some ((0xe0 + value / 4096) ∷ (0x80 + value / 64 % 64) ∷ (0x80 + value % 64) ∷ [])
    else if ltb value 0x11_0000
    then some (
        (0xf0 + value / 0x4_0000)
        ∷ (0x80 + value / 4096 % 64)
        ∷ (0x80 + value / 64 % 64)
        ∷ (0x80 + value % 64)
        ∷ [])
    else none

-- The loop of `hex_escape`, with the digits that are left: whether all were there.
unfoldable pub hex_digits : ℕ → Scanner → Bool × Scanner
hex_digits zero s = (true, s)
hex_digits (suc digits) s =
    let rest = hex_digits digits (advance s).1 in
    if not (is_hex_digit (peek s)) then (false, s) else rest

unfoldable pub hex_escape : ℕ → Scanner → Option ℕ × Scanner
hex_escape digits s =
    let (complete, s') = hex_digits digits s in
    let value = digits_value 16 0 (slice s'.source s.current s'.current) in
    (if complete then some value else none, s')

-- The bytes of the code point behind the string so far; `none` where the source returns true.
abbrev pub encode_onto : List ℕ → Option ℕ → Option (List ℕ)
encode_onto dst none = none
encode_onto dst (some value) = elim (utf8_encode value) [
  | none ↦ none
  | some bytes ↦ some (dst ++ bytes)
]

unfoldable pub utf8_escape : ℕ → List ℕ → Scanner → Option (List ℕ) × Scanner
utf8_escape digits dst s = let (value, s') = hex_escape digits s in (encode_onto dst value, s')

-- what an escape sequence makes of the string so far: longer, or an error
pub data Escape : Type 0 where
  goes_on : List ℕ → Escape
  fails : String → Escape

abbrev pub escape_result : Option (List ℕ) → String → Escape
escape_result none text = fails text
escape_result (some string) text = goes_on string

-- the escapes that stand for one byte
unfoldable pub simple_escape : ℕ → Option ℕ
simple_escape chr =
    if chr == b'\\'
    then some b'\\'
    else if chr == b'"'
    then some b'"'
    else if chr == b'$'
    then some b'$'
    else if chr == b'0'
    then some 0
    else if chr == b'a'
    then some 7
    else if chr == b'b'
    then some 8
    else if chr == b'e'
    then some 27
    else if chr == b'f'
    then some 12
    else if chr == b'n'
    then some 10
    else if chr == b'r'
    then some 13
    else if chr == b't'
    then some 9
    else if chr == b'v'
    then some 11
    else none

abbrev pub byte_onto : List ℕ → Option ℕ → Option (List ℕ)
byte_onto string none = none
byte_onto string (some value) = some (string ++ value % 256 ∷ [])

unfoldable pub long_escape : ℕ → List ℕ → Scanner → Escape × Scanner
long_escape chr string s =
    let past = (advance s).1 in
    let (value, byte_end) = hex_escape 2 past in
    let (short, short_end) = utf8_escape 4 string past in
    let (wide, wide_end) = utf8_escape 8 string past in
    if chr == b'x'
    then (escape_result (byte_onto string value) "Invalid byte escape sequence.", byte_end)
    else if chr == b'u'
    then (escape_result short "Invalid 16-bits Unicode escape sequence.", short_end)
    else if chr == b'U'
    then (escape_result wide "Invalid 32-bits Unicode escape sequence.", wide_end)
    else (fails "Invalid escape character.", s)

-- `switch (peek())` behind a backslash
unfoldable pub escape : List ℕ → Scanner → Escape × Scanner
escape string s = elim (simple_escape (peek s)) [
  | some byte ↦ (goes_on (string ++ byte ∷ []), (advance s).1)
  | none ↦ long_escape (peek s) string s
]

abbrev pub max_interp_depth : ℕ
max_interp_depth = 8

module _ {F : Type 0} where
  -- behind `$`. The value of the token is the range from the second byte of the string to the third
  -- from its end, which is no range if the string is shorter than three bytes.
  unfoldable pub interpolation : List ℕ → Scanner → Outcome (Token F × Scanner)
  interpolation string s =
      let s₁ = (advance (record s { str_interp_braces = 1 ∷ s.str_interp_braces })).1 in
      let token = make_token {F = F} s₁ TokenType.string_interp in
      let value = Literal.string (take (length string - 3) (drop 1 string)) in
      if not (ltb (length s.str_interp_braces) max_interp_depth)
      then ok (error_token s "Nested string interpolation too deep.", s)
      else if not (peek s == b'{')
      then ok (error_token s "Expect '{' after '$'.", s)
      else if ltb (length string) 3
      then undefined
      else ok (record token { value = value }, s₁)

  -- behind the loop
  unfoldable pub string_end : List ℕ → Scanner → Outcome (Token F × Scanner)
  string_end string s =
      let s₁ = (advance s).1 in
      let token = make_token {F = F} s₁ TokenType.string_literal in
      if is_at_end s
      then ok (error_token s "Unterminated string.", s)
      else ok (record token { value = Literal.string string }, s₁)

  -- The loop. At a carriage return it goes on without moving.
  unfoldable pub string_loop : ℕ → List ℕ → Scanner → Outcome (Token F × Scanner)
  string_loop zero string s = stuck
  string_loop (suc fuel) string s =
      let s₁ = if peek s == b'\n' then bump_line s else s in
      let again = string_loop fuel string s₁ in
      let (chr, s₂) = advance s₁ in
      let plain = string_loop fuel (string ++ chr ∷ []) s₂ in
      let (result, s₃) = escape string s₂ in
      let escaped : Outcome (Token F × Scanner) = elim result [
        | goes_on longer ↦ string_loop fuel longer s₃
        | fails text ↦ ok (error_token s₃ text, s₃)
      ] in
      if peek s == b'"' || is_at_end s
      then string_end string s
      else if peek s == b'\r'
      then again
      else if peek s == b'$'
      then interpolation string s₂
      else if peek s == b'\\'
      then escaped
      else plain

  unfoldable pub string : Scanner → Outcome (Token F × Scanner)
  string s = string_loop (fuel_of s) [] s

-- `lex.substr(begin, lex.length() - begin - end)`, whose count wraps below 0
unfoldable pub raw_content : List ℕ → List ℕ
raw_content lex =
    let begin = if get_or lex 3 0 == b'\n' then 4 else 3 in
    let end = if get_or lex (length lex - 4) 0 == b'\n' then 4 else 3 in
    take ((length lex + 2 ^ 64 - begin - end) % 2 ^ 64) (drop begin lex)

-- the loop of `raw_string`, up to the closing quotes or the end
unfoldable pub raw_loop : ℕ → Scanner → Outcome Scanner
raw_loop zero s = stuck
raw_loop (suc fuel) s =
    let s₁ = if peek s == b'\n' then bump_line s else s in
    let rest = raw_loop fuel (advance s₁).1 in
    if not (peek s == b'"' && peek_next s 1 == b'"' && peek_next s 2 == b'"') && not (is_at_end s)
    then rest
    else ok s

module _ {F : Type 0} where
  unfoldable pub raw_string : Scanner → Outcome (Token F × Scanner)
  raw_string s = do
    s₁ ← raw_loop (fuel_of s) (advance (advance s).1).1
    let s₂ = (advance (advance (advance s₁).1).1).1
    let token = make_token {F = F} s₂ TokenType.string_literal
    let found = ok (record token { value = Literal.string (raw_content token.lexeme) }, s₂)
    if is_at_end s₁ then ok (error_token s₁ "Unterminated raw string.", s₁) else found
