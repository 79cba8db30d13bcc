-- ===== src/Scanner/Progress/Words.antt =====
-- Identifiers, numbers and operators: the token is what stands between the start and where the
-- scanner stops, and the scanner stops.
use tx_lang_cxx.Prelude.{
  ℕ, ◌-◌, ◌≡◌, ◌≢◌, refl, ap, inl, inr, Bool, true, false, Bool-cases, Option, none, some, List,
  length, ltb, if◌then◌else◌, arith,
}
use Prim.Native.String.{String}
use tx_lang_cxx.TokenType.{TokenType}
use tx_lang_cxx.Scanner.State.{
  Scanner, Token, Literal, advance, peek, match, slice, make_token, error_token, fuel_of,
  advance_while,
}
use tx_lang_cxx.Scanner.Number.{
  match_exponent, match_sign, hex_number, literal_token, max_chars_in_numeric_literal, integer_of,
  is_hex_digit_or_underscore,
}
use tx_lang_cxx.Scanner.Scan.{identifier, operator, is_identifier_char}
use tx_lang_cxx.Scanner.Progress.{
  At, At-le, Ends, Ends-bind, advance_while-Ends, match-At, advance_word-At,
}

-- The scanner has moved on to where the token ends: the token's bytes are those from the start, and
-- its line is the one on which it ends.
abbrev pub Emits : {F : Type 0} → List ℕ → ℕ → ℕ → Token F × Scanner → Type 0
Emits source start from (token, s) =
    At source start from s × (token.lexeme ≡ slice source start s.current) × (token.line ≡ s.line)

module _ {source : List ℕ} {start from : ℕ} {s : Scanner} (t : At source start from s) where
  pub advance_all :
      (test : ℕ → Bool)
      → test 0 ≡ false
      → test b'\n' ≡ false
      → Ends source (At source start from) (advance_while test (fuel_of s) s)
  advance_all test e n =
      advance_while-Ends source start test (fuel_of s) from s e n t
        (omega (arith, ap length t.same_source))

module _ (F : Type 0) {source : List ℕ} {start from : ℕ} {s : Scanner}
    (t : At source start from s) where
  pub make_token-Emits : (type : TokenType) → Emits {F = F} source start from (make_token s type, s)
  unfolding make_token
  make_token-Emits type = (t, rw (t.same_source, t.same_start), refl)

  pub error_token-Emits : (text : String) → Emits {F = F} source start from (error_token s text, s)
  unfolding error_token
  error_token-Emits text = (t, rw (t.same_source, t.same_start), refl)

  pub literal_token-Emits :
      (type : TokenType) (value : Option (Literal F)) (text : String)
      → Emits {F = F} source start from (literal_token s type value text, s)
  unfolding literal_token
  literal_token-Emits type none text = error_token-Emits text
  literal_token-Emits type (some value) text = (t, rw (t.same_source, t.same_start), refl)

  Emits-if :
      (b : Bool) (x y : Token F)
      → Emits source start from (x, s)
      → Emits source start from (y, s)
      → Emits source start from (if b then x else y, s)
  Emits-if true x y hx hy = hx
  Emits-if false x y hx hy = hy

module _ (F : Type 0) {source : List ℕ} {start from : ℕ} {s : Scanner}
    (t : At source start from s) where
  pub identifier-Ends : Ends source (Emits {F = F} source start from) (identifier s)
  unfolding identifier is_identifier_char make_token
  identifier-Ends =
      Ends-bind source (At source start from) (Emits source start from) _ _
        (advance_all t is_identifier_char refl refl)
        (λ s' t'. (t', rw (t'.same_source, t'.same_start), refl))

  pub operator-Ends :
      (with_equal alone : TokenType)
      → Ends source (Emits {F = F} source start from) (operator with_equal alone s)
  unfolding operator
  operator-Ends with_equal alone =
      make_token-Emits F (match-At t b'=' (λ e. absurd (omega (arith, e))))
        (if (match s b'=').0 then with_equal else alone)

module _ {source : List ℕ} {start from : ℕ} where
  pub match_exponent-At :
      {s : Scanner} → At source start from s → At source start from (match_exponent s).1
  unfolding match_exponent
  match_exponent-At {s} t =
      let lower = match-At t b'e' (λ e. absurd (omega (arith, e))) in
      let upper = match-At t b'E' (λ e. absurd (omega (arith, e))) in
      elim (Bool-cases (match s b'e').0) [ inl e ↦ rw e lower | inr e ↦ rw e upper ]

  pub match_sign-At : {s : Scanner} → At source start from s → At source start from (match_sign s)
  unfolding match_sign
  match_sign-At {s} t =
      let plus = match-At t b'+' (λ e. absurd (omega (arith, e))) in
      let minus = match-At t b'-' (λ e. absurd (omega (arith, e))) in
      elim (Bool-cases (match s b'+').0) [ inl e ↦ rw e plus | inr e ↦ rw e minus ]

module _ (F : Type 0) {source : List ℕ} {start from : ℕ} {s : Scanner}
    (t : At source start from s) where
  pub hex_number-Ends :
      peek s ≢ 0 → peek s ≢ b'\n' → Ends source (Emits {F = F} source start from) (hex_number s)
  unfolding hex_number is_hex_digit_or_underscore
  hex_number-Ends inside word =
      let next = At-le (omega (arith, t.behind)) (advance_word-At t inside word) in
      Ends-bind source (At source start from) (Emits {F = F} source start from) _ _
        (advance_while-Ends source start is_hex_digit_or_underscore (fuel_of s) from (advance s).1
          refl refl next (omega (arith, ap length t.same_source)))
        (λ s' t'.
          Emits-if F t' (ltb max_chars_in_numeric_literal (s'.current - s'.start)) _ _
            (error_token-Emits F t' "Hexadecimal integer literal too long.")
            (literal_token-Emits F t' TokenType.integer_literal (integer_of _)
              "Hexadecimal integer literal out of range."))
