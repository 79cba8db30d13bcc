-- ===== src/Scanner/State.antt =====
-- The state of the class `Scanner` of tx-runtime/include/tx/scanner.hxx, and the steps by which
-- tx-runtime/include/tx/scanner_inl.hxx moves through the source. A pointer into the source is an
-- index. The counts of open braces are a list whose head is the back of the array.
use tx_lang_cxx.Prelude.{
  Option, ℕ, zero, suc, ◌+◌, ◌-◌, Bool, true, false, not, ◌&&◌, ◌||◌, List, [], length, get_or,
  take, drop, leb, ◌==◌, if◌then◌else◌,
}
use Prim.Native.String.{String}
use tx_lang_cxx.TokenType.{TokenType}

pub record Scanner : Type 0 where
  pub source : List ℕ
  pub start : ℕ
  pub current : ℕ
  pub line : ℕ
  pub str_interp_braces : List ℕ

-- The value of a token: that of a literal, or the message of an error. A string stands for the
-- `ObjString` that `make_string` makes of its bytes.
pub data Literal (F : Type 0) : Type 0 where
  val_none : Literal F
  integer : ℕ → Literal F
  scalar : F → Literal F
  string : List ℕ → Literal F
  message : String → Literal F

pub record Token (F : Type 0) : Type 0 where
  pub type : TokenType
  pub lexeme : List ℕ
  pub line : ℕ
  pub value : Literal F

-- What a loop comes to: a result, undefined behaviour, or no end.
pub data Outcome {ℓ} (A : Type ℓ) : Type ℓ where
  ok : A → Outcome A
  undefined stuck : Outcome A

infixl 5 ◌>>=◌
abbrev pub ◌>>=◌ {ℓ κ} : {A : Type ℓ} {B : Type κ} → Outcome A → (A → Outcome B) → Outcome B
ok a >>= f = f a
undefined >>= f = undefined
stuck >>= f = stuck

-- What `std::from_chars` answers for a floating point number: how many bytes it has read, and the
-- value, where `none` is `std::errc::result_out_of_range`.
pub record FromChars (F : Type 0) : Type 0 where
  pub ptr : ℕ
  pub value : Option F

-- `Scanner lex(parent_vm, source)`
abbrev pub new : List ℕ → Scanner
new source = record { source = source; start = 0; current = 0; line = 1; str_interp_braces = [] }

unfoldable pub is_digit : ℕ → Bool
is_digit chr = leb b'0' chr && leb chr b'9'

unfoldable pub is_hex_digit : ℕ → Bool
is_hex_digit chr =
    (leb b'0' chr && leb chr b'9')
    || (leb b'A' chr && leb chr b'F')
    || (leb b'a' chr && leb chr b'f')

unfoldable pub is_alpha : ℕ → Bool
is_alpha chr = (leb b'a' chr && leb chr b'z') || (leb b'A' chr && leb chr b'Z') || chr == b'_'

unfoldable pub is_at_end : Scanner → Bool
is_at_end s = s.current == length s.source

unfoldable pub advance : Scanner → ℕ × Scanner
unfolding is_at_end
advance s =
    if is_at_end s
    then (0, s)
    else (get_or s.source s.current 0, record s { current = s.current + 1 })

unfoldable pub peek : Scanner → ℕ
unfolding is_at_end
peek s = if is_at_end s then 0 else get_or s.source s.current 0

unfoldable pub peek_next : Scanner → ℕ → ℕ
peek_next s offset =
    if leb (length s.source - s.current) offset then 0 else get_or s.source (s.current + offset) 0

unfoldable pub match : Scanner → ℕ → Bool × Scanner
unfolding is_at_end
match s expected =
    if is_at_end s
    then (false, s)
    else if not (get_or s.source s.current 0 == expected)
    then (false, s)
    else (true, record s { current = s.current + 1 })

-- the bytes between two pointers
abbrev pub slice : List ℕ → ℕ → ℕ → List ℕ
slice source from to = take (to - from) (drop from source)

module _ {F : Type 0} where
  unfoldable pub make_token : Scanner → TokenType → Token F
  make_token s type = record {
    type = type;
    lexeme = slice s.source s.start s.current;
    line = s.line;
    value = Literal.val_none;
  }

  unfoldable pub error_token : Scanner → String → Token F
  unfolding make_token
  error_token s text =
      let token = make_token s TokenType.error in record token { value = Literal.message text }

-- The loop over a comment, up to its line's end.
unfoldable pub skip_comment : ℕ → Scanner → Outcome Scanner
skip_comment zero s = stuck
skip_comment (suc fuel) s =
    let rest = skip_comment fuel (advance s).1 in
    if not (peek s == b'\n') && not (is_at_end s) then rest else ok s

-- One more round than there are bytes left is fuel enough for each loop.
abbrev pub fuel_of : Scanner → ℕ
fuel_of s = suc (length s.source)

abbrev pub bump_line : Scanner → Scanner
bump_line s = record s { line = s.line + 1 }

unfoldable pub skip_whitespace_loop : ℕ → Scanner → Outcome Scanner
skip_whitespace_loop zero s = stuck
skip_whitespace_loop (suc fuel) s =
    let chr = peek s in
    let blank = skip_whitespace_loop fuel (advance s).1 in
    let newline = skip_whitespace_loop fuel (advance (bump_line s)).1 in
    let comment = skip_comment (fuel_of s) s >>= skip_whitespace_loop fuel in
    if chr == b' ' || chr == b'\r' || chr == b'\t'
    then blank
    else if chr == b'\n'
    then newline
    else if chr == b'#'
    then comment
    else ok s

unfoldable pub skip_whitespace : Scanner → Outcome Scanner
skip_whitespace s = skip_whitespace_loop (fuel_of s) s

-- `while (test(peek())) { advance(); }`
unfoldable pub advance_while : (ℕ → Bool) → ℕ → Scanner → Outcome Scanner
advance_while test zero s = stuck
advance_while test (suc fuel) s =
    let rest = advance_while test fuel (advance s).1 in if test (peek s) then rest else ok s
