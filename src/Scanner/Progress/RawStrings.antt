-- ===== src/Scanner/Progress/RawStrings.antt =====
-- Raw strings: the loop stops at three quotes or at the end, and the scanner is then behind them.
use native.Mathlib.Decide.{dec_lt}
use tx_lang_cxx.Prelude.{
  ℕ, zero, suc, ◌+◌, ◌≤◌, ◌<◌, ◌≡◌, refl, sym, ap, ◌∙◌, inl, inr, ◌⊎◌, Bool, true, not, ◌&&◌, List,
  [], ◌∷◌, length, get_or, ◌==◌, ==_iff, arith,
}
use tx_lang_cxx.TokenType.{TokenType}
use tx_lang_cxx.Scanner.State.{Scanner, is_at_end, advance, peek, peek_next, fuel_of}
use tx_lang_cxx.Scanner.Text.{raw_loop, raw_string}
use tx_lang_cxx.Scanner.Progress.{
  At, At-le, Ends, Ends-bind, Ends-if, advance-At, advance_other-At, inside_of, peek_inside,
  and_parts, not_true, stopped, peek_at, advance-current,
}
use tx_lang_cxx.Scanner.Progress.Words.{Emits, make_token-Emits, error_token-Emits}

get_or-end : (xs : List ℕ) (i : ℕ) → length xs ≤ i → get_or xs i 0 ≡ 0
get_or-end [] i h = refl
get_or-end (x ∷ xs) zero h = absurd (omega arith)
get_or-end (x ∷ xs) (suc i) h = get_or-end xs i (omega arith)

abbrev closing : Scanner → Bool
closing s = peek s == b'"' && peek_next s 1 == b'"' && peek_next s 2 == b'"'

module _ {source : List ℕ} {start from : ℕ} {s : Scanner} (t : At source start from s) where
  -- A quote at the scanner is one step.
  quote-At :
      get_or source s.current 0 ≡ b'"'
      → At source start (s.current + 1) (advance s).1 × ((advance s).1.current ≡ s.current + 1)
  quote-At quote =
      let lt : s.current < length source = elim (dec_lt s.current (length source)) [
        | yes h ↦ h
        | no h ↦ absurd (omega (arith, get_or-end source s.current (omega arith)))
      ] in
      let shown = peek_at t lt in
      (advance_other-At t lt (λ e. absurd (omega arith)), advance-current t lt)

  peek_next_byte : (k : ℕ) → peek_next s k ≡ b'"' → get_or source (s.current + k) 0 ≡ b'"'
  unfolding peek_next
  peek_next_byte k e = ground (arith, ap (λ l. get_or l (s.current + k) 0) t.same_source)

-- Three quotes are three steps.
quotes-At :
    {source : List ℕ} {start from : ℕ} {s : Scanner}
    → At source start from s
    → closing s ≡ true
    → At source start from (advance (advance (advance s).1).1).1
quotes-At {source} {start} {from} {s} t e =
    let (two_quotes, last_quote) =
      and_parts {a = peek s == b'"' && peek_next s 1 == b'"'} {b = peek_next s 2 == b'"'} e in
    let first : peek s ≡ b'"' = (==_iff _ _).0 (and_parts two_quotes).0 in
    let second : peek_next s 1 ≡ b'"' = (==_iff _ _).0 (and_parts two_quotes).1 in
    let third : peek_next s 2 ≡ b'"' = (==_iff _ _).0 last_quote in
    let (lt, shown) = peek_inside t (λ z. absurd (omega arith)) in
    let (t₁, at₁) = quote-At t (sym shown ∙ first) in
    let (t₂, at₂) = quote-At t₁ (ap (λ i. get_or source i 0) at₁ ∙ peek_next_byte t 1 second) in
    let two : (advance (advance s).1).1.current ≡ s.current + 2 = omega arith in
    let (t₃, at₃) = quote-At t₂ (ap (λ i. get_or source i 0) two ∙ peek_next_byte t 2 third) in
    At-le (omega (arith, t.behind, at₁, at₂)) t₃

abbrev Stopped : List ℕ → ℕ → ℕ → Scanner → Type 0
Stopped source start from s = At source start from s × ((closing s ≡ true) ⊎ (is_at_end s ≡ true))

module _ (F : Type 0) (source : List ℕ) (start : ℕ) where
  raw_loop-Ends :
      (fuel from : ℕ) (s : Scanner)
      → At source start from s
      → length source < s.current + fuel
      → Ends source (Stopped source start from) (raw_loop fuel s)
  unfolding raw_loop
  raw_loop-Ends zero from s t enough = absurd (omega (arith, t.within))
  raw_loop-Ends (suc fuel) from s t enough =
      Ends-if source (Stopped source start from) (not (closing s) && not (is_at_end s)) _ _
        (λ e.
          let next = advance-At t (inside_of t (not_true (and_parts e).1)) in
          raw_loop-Ends fuel from _ (At-le (omega (arith, t.behind)) next)
            (omega (arith, next.behind)))
        (λ e. (t, stopped e))

  pub raw_string-Ends :
      (from : ℕ) (s : Scanner)
      → At source start from s
      → peek s ≡ b'"'
      → peek_next s 1 ≡ b'"'
      → Ends source (Emits {F = F} source start from) (raw_string s)
  unfolding raw_string
  raw_string-Ends from s t first second =
      let Q = Emits {F = F} source start from in
      let (lt, shown) = peek_inside t (λ z. absurd (omega arith)) in
      let (t₁, at₁) = quote-At t (sym shown ∙ first) in
      let (t₂, _) = quote-At t₁ (ap (λ i. get_or source i 0) at₁ ∙ peek_next_byte t 1 second) in
      Ends-bind source (Stopped source start from) Q _ _
        (raw_loop-Ends (fuel_of s) from _ (At-le (omega (arith, t.behind, t₁.behind)) t₂)
          (omega (arith, t₂.behind, t₁.behind, ap length t.same_source)))
        (λ s' stop.
          Ends-if source Q (is_at_end s') _ _
            (λ _. error_token-Emits F stop.0 "Unterminated raw string.")
            (λ more.
              let quotes : closing s' ≡ true = elim stop.1 [ inl e ↦ e | inr e ↦ cc ] in
              make_token-Emits F (quotes-At stop.0 quotes) TokenType.string_literal))
