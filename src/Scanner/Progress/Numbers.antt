-- ===== src/Scanner/Progress/Numbers.antt =====
-- The token of a numeric literal: `Scanner::number` of tx-runtime/include/tx/scanner_inl.hxx.
use tx_lang_cxx.Prelude.{
  ℕ, ◌+◌, ◌-◌, ◌≡◌, refl, inl, inr, Bool, true, List, length, get_or, ltb, ◌==◌, arith,
}
use mathlib.Core.Path.{subst}
use Prim.Native.String.{String}
use tx_lang_cxx.TokenType.{TokenType}
use tx_lang_cxx.Scanner.State.{Scanner, Token, FromChars, is_digit, peek, slice}
use tx_lang_cxx.Scanner.Number.{
  match_exponent, match_sign, number_token, number, without_underscores,
  max_chars_in_numeric_literal, integer_of, scalar_of, is_digit_or_underscore,
}
use tx_lang_cxx.Scanner.Progress.{At, At-le, Ends, Ends-bind, Ends-if}
use tx_lang_cxx.Scanner.Progress.Words.{
  Emits, error_token-Emits, literal_token-Emits, match_exponent-At, match_sign-At,
}
use tx_lang_cxx.Scanner.Progress.Numerals.{
  AllDigits, IsSign, IsNumeral, ReadsNumerals, Passed, Fractioned, peek-get_or, digits-more,
  skip_digits-Passed, fraction-Fractioned, match_exponent-letter, match_sign-IsSign,
}

At-current :
    {source : List ℕ} {start from : ℕ} {s : Scanner}
    → At source start from s
    → At source start s.current s
At-current t = record {
  same_source = t.same_source;
  same_start = t.same_start;
  behind = omega arith;
  within = t.within;
  counted = t.counted;
  shallow = t.shallow;
  positive = t.positive;
}

digit-digit_or_underscore : (x : ℕ) → is_digit x ≡ true → is_digit_or_underscore x ≡ true
unfolding is_digit_or_underscore
digit-digit_or_underscore x e = rw e refl

module _ {F : Type 0} (parse_float : List ℕ → FromChars F) {source : List ℕ} {start : ℕ}
    (reads : ReadsNumerals parse_float source) where
  number_token-Ends :
      {from : ℕ} {s : Scanner} (is_float : Bool)
      → At source start from s
      → (is_float ≡ true → IsNumeral source start s.current)
      → Ends source
          (λ token. Emits source start from (token, s))
          (number_token parse_float is_float s)
  unfolding number_token
  number_token-Ends {from} {s} is_float t numeral =
      let range : String = "Numeric literal out of range." in
      let Q : Token F → Type 0 = λ token. Emits source start from (token, s) in
      let text = without_underscores (slice s.source s.start s.current) in
      Ends-if source Q (ltb max_chars_in_numeric_literal (s.current - s.start)) _ _
        (λ _. error_token-Emits F t "Numeric literal too long.")
        (λ _.
          Ends-if source Q is_float _ _
            (λ float.
              Ends-if source Q ((parse_float text).ptr == length text) _ _
                (λ _. literal_token-Emits F t TokenType.float_literal (scalar_of _) range)
                (λ unread.
                  let all : (parse_float text).ptr ≡ length text =
                    rw (t.same_source, t.same_start) (reads start s.current (numeral float)) in
                  absurd (ground (arith, all, unread))))
            (λ _. literal_token-Emits F t TokenType.integer_literal (integer_of _) range))

  -- `number` ends behind its first digit.
  pub number-Ends :
      {from : ℕ} {s : Scanner}
      → At source start from s
      → s.current ≡ start + 1
      → is_digit (get_or source start 0) ≡ true
      → Ends source (Emits {F = F} source start from) (number parse_float s)
  unfolding number
  number-Ends {from} {s} t here digit =
      let Q = Emits {F = F} source start from in
      Ends-bind source (Passed source start s.current) Q _ _ (skip_digits-Passed s (At-current t))
        (λ s₁ p₁.
          let whole =
            digits-more source start s₁.current
              (digit-digit_or_underscore (get_or source start 0) digit)
              (subst (λ from. AllDigits source from s₁.current) here p₁.digits) in
          Ends-bind source (Fractioned source start s₁.current) Q _ _
            (fraction-Fractioned s₁ (At-current p₁.at) p₁.ended)
            (λ r f.
              let t₂ = At-current f.at in
              let t₃ = match_exponent-At t₂ in
              let s₃ = (match_exponent r.1).1 in
              let t₄ = match_sign-At (At-current t₃) in
              let s₄ = match_sign s₃ in
              Ends-if source Q (match_exponent r.1).0 _ _
                (λ e.
                  let (letter, step) = match_exponent-letter r.1 t₂ e in
                  let sign = match_sign-IsSign s₃ (At-current t₃) in
                  Ends-if source Q (is_digit_or_underscore (peek s₄)) _ _
                    (λ first.
                      Ends-bind source (Passed source start s₄.current) Q _ _
                        (skip_digits-Passed s₄ (At-current t₄))
                        (λ s₅ p₅.
                          let numeral : IsNumeral source start s₅.current = record {
                            first = digit;
                            point = s₁.current;
                            exponent = r.1.current;
                            whole = whole;
                            fraction = f.fraction;
                            power = inr (record {
                              letter = letter;
                              digits = s₄.current;
                              sign = subst (λ from. IsSign source from s₄.current) step sign;
                              first = rw (peek-get_or t₄) at first;
                              rest = p₅.digits;
                            });
                            ended = p₅.ended;
                          } in
                          let t₅ =
                            At-le {lower = from}
                              (omega
                                (arith, t.behind, p₁.at.behind, f.at.behind, t₃.behind, t₄.behind))
                              p₅.at in
                          Ends-bind source (λ token. Q (token, s₅)) Q _ _
                            (number_token-Ends true t₅ (λ _. numeral)) (λ token emits. emits)))
                    (λ _.
                      error_token-Emits F
                        (At-le (omega (arith, t.behind, p₁.at.behind, f.at.behind, t₃.behind)) t₄)
                        "Unterminated scientific notation."))
                (λ _.
                  let numeral : IsNumeral source start r.1.current = record {
                    first = digit;
                    point = s₁.current;
                    exponent = r.1.current;
                    whole = whole;
                    fraction = f.fraction;
                    power = inl refl;
                    ended = f.ended;
                  } in
                  Ends-bind source (λ token. Q (token, r.1)) Q _ _
                    (number_token-Ends r.0 (At-le (omega (arith, t.behind, p₁.at.behind)) f.at)
                      (λ _. numeral))
                    (λ token emits. emits))))
