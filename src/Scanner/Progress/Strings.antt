-- ===== src/Scanner/Progress/Strings.antt =====
-- Strings: on a source without carriage returns the loops end, and on one without dollar signs
-- their results are defined.
use tx_lang_cxx.Prelude.{
  ℕ, zero, suc, ◌+◌, ◌<◌, ◌≡◌, ◌≢◌, refl, sym, ap, ◌∙◌, inl, inr, Bool, true, false, Bool-cases,
  not, ◌||◌, Option, none, some, List, [], ◌∷◌, ◌++◌, length, get_or, ltb, ltb→lt, ◌==◌, ==_iff,
  if◌then◌else◌, arith,
}
use tx_lang_cxx.TokenType.{TokenType}
use tx_lang_cxx.Scanner.State.{
  Scanner, Token, Outcome, ok, is_at_end, advance, peek, error_token, fuel_of, bump_line,
  is_hex_digit,
}
use tx_lang_cxx.Scanner.Text.{
  hex_digits, hex_escape, utf8_escape, Escape, goes_on, fails, simple_escape, long_escape, escape,
  interpolation, string_end, string_loop, string, max_interp_depth,
}
use tx_lang_cxx.Scanner.Progress.{
  At, At-le, Ends, Ends-if, HasDollar, NoCarriageReturn, advance-At, advance_word-At, inside_of,
  peek_inside, not_false, or_false,
}
use tx_lang_cxx.Scanner.Progress.Words.{Emits, make_token-Emits, error_token-Emits}

hex_ne : {chr : ℕ} → is_hex_digit chr ≡ true → (k : ℕ) → is_hex_digit k ≡ false → chr ≢ k
hex_ne hex k other e = cc (ap is_hex_digit e)

no_escape : (simple_escape 0 ≡ none) × (simple_escape b'\n' ≡ none)
unfolding simple_escape
no_escape = (refl, refl)

peek_braces :
    (s : Scanner) (braces : List ℕ) → peek (record s { str_interp_braces = braces }) ≡ peek s
unfolding peek
peek_braces s braces = refl

module _ {source : List ℕ} {start from : ℕ} where
  seen_byte :
      {s : Scanner}
      → At source start from s
      → (k : ℕ) → k ≢ 0
      → peek s ≡ k
      → get_or source s.current 0 ≡ k
  seen_byte {s} t k ne e = sym (peek_inside t (λ z. ne (sym e ∙ z))).1 ∙ e

  At-if :
      {A : Type 0} (b : Bool) (x y : A × Scanner)
      → (b ≡ true → At source start from x.1)
      → (b ≡ false → At source start from y.1)
      → At source start from (if b then x else y).1
  At-if true x y f g = f refl
  At-if false x y f g = g refl

  hex_digits-At :
      (digits : ℕ) {s : Scanner}
      → At source start from s
      → At source start from (hex_digits digits s).1
  unfolding hex_digits is_hex_digit
  hex_digits-At zero t = t
  hex_digits-At (suc digits) {s} t = elim (Bool-cases (is_hex_digit (peek s))) [
    | inl hex ↦
        let next = advance_word-At t (hex_ne hex 0 refl) (hex_ne hex b'\n' refl) in
        rw hex (hex_digits-At digits (At-le (omega (arith, t.behind)) next))
    | inr other ↦ rw other t
  ]

  hex_escape-At :
      (digits : ℕ) {s : Scanner}
      → At source start from s
      → At source start from (hex_escape digits s).1
  unfolding hex_escape
  hex_escape-At digits t = hex_digits-At digits t

  utf8_escape-At :
      (digits : ℕ) (dst : List ℕ) {s : Scanner}
      → At source start from s
      → At source start from (utf8_escape digits dst s).1
  unfolding utf8_escape hex_escape
  utf8_escape-At digits dst t = hex_digits-At digits t

  past_letter-At :
      (k : ℕ) {s : Scanner}
      → k ≢ 0
      → k ≢ b'\n'
      → At source start from s
      → (peek s == k) ≡ true
      → At source start from (advance s).1
  past_letter-At k {s} ne_zero ne_line t e =
      let same : peek s ≡ k = (==_iff _ _).0 e in
      At-le (omega (arith, t.behind))
        (advance_word-At t (λ z. ne_zero (sym same ∙ z)) (λ z. ne_line (sym same ∙ z)))

  long_escape-At :
      (text : List ℕ) {s : Scanner}
      → At source start from s
      → At source start from (long_escape (peek s) text s).1
  unfolding long_escape
  long_escape-At text {s} t =
      At-if (peek s == b'x') _ _
        (λ e. hex_escape-At 2 (past_letter-At b'x' (omega arith) (omega arith) t e))
        (λ _.
          At-if (peek s == b'u') _ _
            (λ e. utf8_escape-At 4 text (past_letter-At b'u' (omega arith) (omega arith) t e))
            (λ _.
              At-if (peek s == b'U') _ _
                (λ e. utf8_escape-At 8 text (past_letter-At b'U' (omega arith) (omega arith) t e))
                (λ _. t)))

  escape_branch-At :
      (text : List ℕ) {s : Scanner}
      → At source start from s
      → (simple : Option ℕ) → simple_escape (peek s) ≡ simple
      → At source start from
          (let r : Escape × Scanner = elim simple [
            | some byte ↦ (goes_on (text ++ byte ∷ []), (advance s).1)
            | none ↦ long_escape (peek s) text s
          ] in
            r).1
  escape_branch-At text t none e = long_escape-At text t
  escape_branch-At text {s} t (some byte) e = At-le (omega (arith, t.behind)) (
      advance_word-At t (λ z. cc (ap simple_escape z, no_escape.0))
        (λ z. cc (ap simple_escape z, no_escape.1)))

  -- An escape sequence does not move back, whether it is one or not.
  escape-At :
      (text : List ℕ) {s : Scanner}
      → At source start from s
      → At source start from (escape text s).1
  unfolding escape
  escape-At text {s} t = escape_branch-At text t (simple_escape (peek s)) refl

  -- One more open brace.
  pushed-At :
      {s : Scanner}
      → At source start from s
      → length s.str_interp_braces < max_interp_depth
      → At source start from (record s { str_interp_braces = 1 ∷ s.str_interp_braces })
  pushed-At t lt = record {
    same_source = t.same_source;
    same_start = t.same_start;
    behind = t.behind;
    within = t.within;
    counted = t.counted;
    shallow = omega arith;
    positive = (omega arith, t.positive);
  }

module _ (F : Type 0) (source : List ℕ) (start : ℕ) where
  string_end-Ends :
      (from : ℕ) (text : List ℕ) (s : Scanner)
      → At source start from s
      → (peek s == b'"' || is_at_end s) ≡ true
      → Ends source (Emits {F = F} source start from) (string_end text s)
  unfolding string_end
  string_end-Ends from text s t closed =
      Ends-if source (Emits {F = F} source start from) (is_at_end s) _ _
        (λ _. error_token-Emits F t "Unterminated string.")
        (λ open_end.
          let quote : peek s ≡ b'"' = (==_iff _ _).0 (ground (arith, closed, open_end)) in
          let next = advance_word-At t (λ z. absurd (omega arith)) (λ z. absurd (omega arith)) in
          make_token-Emits F (At-le (omega (arith, t.behind)) next) TokenType.string_literal)

  interpolation-Ends :
      (from : ℕ) (text : List ℕ) (s : Scanner)
      → At source start from s
      → HasDollar source
      → Ends source (Emits {F = F} source start from) (interpolation text s)
  unfolding interpolation
  interpolation-Ends from text s t dollar =
      let Q = Emits {F = F} source start from in
      Ends-if source Q (not (ltb (length s.str_interp_braces) max_interp_depth)) _ _
        (λ _. error_token-Emits F t "Nested string interpolation too deep.")
        (λ deep.
          Ends-if source Q (not (peek s == b'{')) _ _
            (λ _. error_token-Emits F t "Expect '{' after '$'.")
            (λ brace.
              Ends-if source Q (ltb (length text) 3) _ _ (λ _. dollar)
                (λ _.
                  let room = ltb→lt _ _ (not_false deep) in
                  let open_brace : peek s ≡ b'{' = (==_iff _ _).0 (not_false brace) in
                  let same = peek_braces s (1 ∷ s.str_interp_braces) ∙ open_brace in
                  let next =
                    advance_word-At (pushed-At t room) (λ z. absurd (omega (arith, same)))
                      (λ z. absurd (omega (arith, same))) in
                  make_token-Emits F (At-le (omega (arith, t.behind)) next)
                    TokenType.string_interp)))

  -- behind an escape sequence
  escaped-Ends :
      {from : ℕ} {s : Scanner} (result : Escape) (go : List ℕ → Outcome (Token F × Scanner))
      → At source start from s
      → ((longer : List ℕ) → Ends source (Emits {F = F} source start from) (go longer))
      → Ends source (Emits {F = F} source start from) (
          let r : Outcome (Token F × Scanner) = elim result [
            | goes_on longer ↦ go longer
            | fails text ↦ ok (error_token s text, s)
          ] in
          r)
  escaped-Ends (goes_on longer) go t ends = ends longer
  escaped-Ends (fails text) go t ends = error_token-Emits F t text

  -- The loop of a string ends, and the scanner is then behind it.
  string_loop-Ends :
      (fuel from : ℕ) (text : List ℕ) (s : Scanner)
      → NoCarriageReturn source
      → At source start from s
      → length source < s.current + fuel
      → Ends source (Emits {F = F} source start from) (string_loop fuel text s)
  unfolding string_loop
  string_loop-Ends zero from text s no_return t enough = absurd (omega (arith, t.within))
  string_loop-Ends (suc fuel) from text s no_return t enough =
      let Q = Emits {F = F} source start from in
      let s₂ = (advance (if peek s == b'\n' then bump_line s else s)).1 in
      Ends-if source Q (peek s == b'"' || is_at_end s) _ _ (string_end-Ends from text s t) (λ inner.
        let lt = inside_of t (or_false inner).1 in
        let next = advance-At t lt in
        let t₂ = At-le (omega (arith, t.behind)) next in
        let seen =
          λ (k : ℕ) (ne : k ≢ 0) (e : (peek s == k) ≡ true). seen_byte t k ne ((==_iff _ _).0 e) in
        Ends-if source Q (peek s == b'\r') _ _
          (λ e. absurd (no_return s.current (seen b'\r' (omega arith) e)))
          (λ _.
            Ends-if source Q (peek s == b'$') _ _
              (λ e. interpolation-Ends from text s₂ t₂ (s.current, seen b'$' (omega arith) e))
              (λ _.
                Ends-if source Q (peek s == b'\\') _ _
                  (λ _.
                    let t₃ = escape-At text next in
                    escaped-Ends (escape text s₂).0
                      (λ longer. string_loop fuel longer (escape text s₂).1)
                      (At-le (omega (arith, t.behind)) t₃)
                      (λ longer.
                        string_loop-Ends fuel from longer (escape text s₂).1 no_return
                          (At-le (omega (arith, t.behind)) t₃) (omega (arith, t₃.behind))))
                  (λ _.
                    string_loop-Ends fuel from _ s₂ no_return t₂ (omega (arith, next.behind))))))

  pub string-Ends :
      (from : ℕ) (s : Scanner)
      → NoCarriageReturn source
      → At source start from s
      → Ends source (Emits {F = F} source start from) (string s)
  unfolding string
  string-Ends from s no_return t =
      string_loop-Ends (fuel_of s) from [] s no_return t (omega (arith, ap length t.same_source))
