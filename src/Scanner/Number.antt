-- ===== src/Scanner/Number.antt =====
-- Numeric literals: `Scanner::number` and `Scanner::hex_number` of
-- tx-runtime/include/tx/scanner_inl.hxx, with what they take of `std::from_chars`. The conversion of
-- floating point literals is a parameter; that of integers reads its digits to the end.
use tx_lang_cxx.Prelude.{
  ℕ, ◌+◌, ◌-◌, ◌*◌, ◌^◌, Bool, true, false, not, ◌&&◌, ◌||◌, Option, none, some, List, [], ◌∷◌,
  drop, length, ltb, leb, ◌==◌, if◌then◌else◌,
}
use Prim.Native.String.{String}
use tx_lang_cxx.TokenType.{TokenType}
use tx_lang_cxx.Scanner.State.{
  Scanner, Literal, Token, Outcome, FromChars, ok, undefined, ◌>>=◌, is_digit, is_hex_digit,
  advance, peek, peek_next, match, slice, make_token, error_token, fuel_of, advance_while,
}

abbrev pub max_chars_in_numeric_literal : ℕ
max_chars_in_numeric_literal = 64

-- `std::copy_if` without the underscores
unfoldable pub without_underscores : List ℕ → List ℕ
without_underscores [] = []
without_underscores (chr ∷ chars) =
    let rest = without_underscores chars in if not (chr == b'_') then chr ∷ rest else rest

-- the value of a digit to a base up to 36
unfoldable pub digit_value : ℕ → ℕ
digit_value chr =
    if leb b'a' chr then chr - b'a' + 10 else if leb b'A' chr then chr - b'A' + 10 else chr - b'0'

-- the number that digits stand for, behind the number read so far
unfoldable pub digits_value : ℕ → ℕ → List ℕ → ℕ
digits_value base acc [] = acc
digits_value base acc (chr ∷ chars) = digits_value base (acc * base + digit_value chr) chars

-- `std::from_chars` into an `int_t` on digits alone: `none` is `std::errc::result_out_of_range`.
-- Without digits it leaves the value, which is 0.
unfoldable pub from_chars : ℕ → List ℕ → Option ℕ
from_chars base chars =
    let value = digits_value base 0 chars in if ltb value (2 ^ 63) then some value else none

unfoldable pub is_digit_or_underscore : ℕ → Bool
unfolding is_digit
is_digit_or_underscore chr = is_digit chr || chr == b'_'

unfoldable pub is_hex_digit_or_underscore : ℕ → Bool
unfolding is_hex_digit
is_hex_digit_or_underscore chr = is_hex_digit chr || chr == b'_'

-- `while (is_digit(peek()) || peek() == '_') { advance(); }`
unfoldable pub skip_digits : Scanner → Outcome Scanner
skip_digits s = advance_while is_digit_or_underscore (fuel_of s) s

module _ {F : Type 0} where
  -- the end of a literal: an error, or the token with its value
  unfoldable pub literal_token : Scanner → TokenType → Option (Literal F) → String → Token F
  unfolding make_token error_token
  literal_token s type none text = error_token s text
  literal_token s type (some value) text =
      let token = make_token s type in record token { value = value }

  abbrev pub integer_of : Option ℕ → Option (Literal F)
  integer_of none = none
  integer_of (some n) = some (Literal.integer n)

  abbrev pub scalar_of : Option F → Option (Literal F)
  scalar_of none = none
  scalar_of (some x) = some (Literal.scalar x)

  unfoldable pub hex_number : Scanner → Outcome (Token F × Scanner)
  hex_number s = do
    s' ← advance_while is_hex_digit_or_underscore (fuel_of s) (advance s).1
    let lexeme = slice s'.source s'.start s'.current
    let digits = from_chars 16 (drop 2 (without_underscores lexeme))
    let token =
        literal_token s' TokenType.integer_literal (integer_of digits)
          "Hexadecimal integer literal out of range."
    ok (
      if ltb max_chars_in_numeric_literal (s'.current - s'.start)
          then error_token s' "Hexadecimal integer literal too long."
          else token,
      s',
    )

-- the fraction of a number, if there is one, and whether there was
unfoldable pub fraction : Scanner → Outcome (Bool × Scanner)
fraction s =
    let digits = (do s' ← skip_digits (advance s).1; ok (true, s')) in
    if peek s == b'.' && is_digit_or_underscore (peek_next s 1) then digits else ok (false, s)

-- `match('e') || match('E')`
unfoldable pub match_exponent : Scanner → Bool × Scanner
match_exponent s = let (lower, s') = match s b'e' in if lower then (true, s') else match s b'E'

-- `if (!match('+')) { (void)match('-'); }`
unfoldable pub match_sign : Scanner → Scanner
match_sign s = let (plus, s') = match s b'+' in if plus then s' else (match s b'-').1

module _ {F : Type 0} (parse_float : List ℕ → FromChars F) where
  -- the value of the literal, from the length check on; undefined where the assertion that the whole
  -- text has been read fails
  unfoldable pub number_token : Bool → Scanner → Outcome (Token F)
  number_token is_float s =
      let no_space = without_underscores (slice s.source s.start s.current) in
      let fcr = parse_float no_space in
      let range : String = "Numeric literal out of range." in
      if ltb max_chars_in_numeric_literal (s.current - s.start)
      then ok (error_token s "Numeric literal too long.")
      else if is_float
      then (if fcr.ptr == length no_space
          then ok (literal_token s TokenType.float_literal (scalar_of fcr.value) range)
          else undefined)
      else ok
          (literal_token s TokenType.integer_literal (integer_of (from_chars 10 no_space)) range)

  unfoldable pub number : Scanner → Outcome (Token F × Scanner)
  number s = do
    s₁ ← skip_digits s
    (is_float, s₂) ← fraction s₁
    let (exponent, s₃) = match_exponent s₂
    let s₄ = match_sign s₃
    let scientific = (do s₅ ← skip_digits s₄; token ← number_token true s₅; ok (token, s₅))
    let unterminated = ok (error_token s₄ "Unterminated scientific notation.", s₄)
    let after_exponent = if is_digit_or_underscore (peek s₄) then scientific else unterminated
    let plain = (do token ← number_token is_float s₂; ok (token, s₂))
    if exponent then after_exponent else plain
