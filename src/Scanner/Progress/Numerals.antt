-- ===== src/Scanner/Progress/Numerals.antt =====
-- Numeric literals in the source, as `Scanner::number` of tx-runtime/include/tx/scanner_inl.hxx takes
-- them, and what it relies on when it converts them.
use tx_lang_cxx.Prelude.{
  ℕ, zero, suc, ◌+◌, ◌≤◌, ◌<◌, ◌≡◌, ◌≢◌, ◌⊎◌, refl, sym, ap, inl, inr, Bool, true, false,
  Bool-cases, ◌&&◌, List, [], ◌∷◌, length, get_or, ◌==◌, ==_iff, arith,
}
use mathlib.Core.Path.{subst}
use tx_lang_cxx.Scanner.State.{
  Scanner, FromChars, is_digit, is_at_end, advance, peek, peek_next, match, slice, fuel_of,
  advance_while,
}
use tx_lang_cxx.Scanner.Number.{
  skip_digits, fraction, match_exponent, match_sign, without_underscores, is_digit_or_underscore,
}
use tx_lang_cxx.Scanner.Progress.{
  At, At-le, Ends, Ends-map, Ends-bind, Ends-if, advance_word-At, advance-current, peek_inside,
  and_parts,
}

-- The bytes from one position to the next are digits and underscores.
abbrev pub AllDigits : List ℕ → ℕ → ℕ → Type 0
AllDigits source from to =
    (j : ℕ) → from ≤ j → j < to → is_digit_or_underscore (get_or source j 0) ≡ true

-- nothing, or a point with digits
abbrev pub IsFraction : List ℕ → ℕ → ℕ → Type 0
IsFraction source from to =
    (from ≡ to) ⊎ ((get_or source from 0 ≡ b'.') × AllDigits source (from + 1) to)

-- no sign, or one
abbrev pub IsSign : List ℕ → ℕ → ℕ → Type 0
IsSign source from to =
    (from ≡ to)
    ⊎ (((get_or source from 0 ≡ b'+') ⊎ (get_or source from 0 ≡ b'-')) × (to ≡ from + 1))

-- nothing, or an `e` with a sign and digits
pub record IsPower (source : List ℕ) (from to : ℕ) : Type 0 where
  pub letter : (get_or source from 0 ≡ b'e') ⊎ (get_or source from 0 ≡ b'E')
  pub digits : ℕ
  pub sign : IsSign source (from + 1) digits
  pub first : is_digit_or_underscore (get_or source digits 0) ≡ true
  pub rest : AllDigits source digits to

abbrev pub IsExponent : List ℕ → ℕ → ℕ → Type 0
IsExponent source from to = (from ≡ to) ⊎ IsPower source from to

-- A numeric literal stands between two positions, and no digit behind it.
pub record IsNumeral (source : List ℕ) (start stop : ℕ) : Type 0 where
  pub first : is_digit (get_or source start 0) ≡ true
  pub point : ℕ
  pub exponent : ℕ
  pub whole : AllDigits source start point
  pub fraction : IsFraction source point exponent
  pub power : IsExponent source exponent stop
  pub ended : is_digit_or_underscore (get_or source stop 0) ≡ false

-- `std::from_chars` reads each numeric literal of the source to its end. It does so if the digits of
-- the exponent are not underscores alone, which are left out of the text that it is given.
abbrev pub ReadsNumerals : {F : Type 0} → (List ℕ → FromChars F) → List ℕ → Type 0
ReadsNumerals parse_float source =
    (start stop : ℕ)
    → IsNumeral source start stop
    → let text = without_underscores (slice source start stop) in
      (parse_float text).ptr ≡ length text

get_or_outside : (xs : List ℕ) (i : ℕ) → length xs ≤ i → get_or xs i 0 ≡ 0
get_or_outside [] i h = refl
get_or_outside (x ∷ xs) zero h = absurd (omega arith)
get_or_outside (x ∷ xs) (suc i) h = get_or_outside xs i (omega arith)

module _ {source : List ℕ} {start from : ℕ} {s : Scanner} (t : At source start from s) where
  pub peek-get_or : peek s ≡ get_or source s.current 0
  unfolding peek is_at_end
  peek-get_or = ground (
    arith,
    ap length t.same_source,
    ap (λ l. get_or l s.current 0) t.same_source,
    get_or_outside source s.current,
    t.within,
  )

  match-found :
      (expected : ℕ)
      → (match s expected).0 ≡ true
      → (get_or source s.current 0 ≡ expected) × ((match s expected).1.current ≡ s.current + 1)
  unfolding match
  match-found expected e = ground (arith, ap (λ l. get_or l s.current 0) t.same_source)

match-other : (s : Scanner) (expected : ℕ) → (match s expected).0 ≡ false → (match s expected).1 ≡ s
unfolding match
match-other s expected e = ground arith

pub digits-more :
    (source : List ℕ) (from to : ℕ)
    → is_digit_or_underscore (get_or source from 0) ≡ true
    → AllDigits source (from + 1) to
    → AllDigits source from to
digits-more source from to first rest j le lt = elim (Bool-cases (from == j)) [
  | inl e ↦ let same : from ≡ j = (==_iff from j).0 e in rw (← same) first
  | inr e ↦ rest j (ground arith) lt
]

digit_word : (x : ℕ) → is_digit_or_underscore x ≡ true → (x ≢ 0) × (x ≢ b'\n')
unfolding is_digit_or_underscore is_digit
digit_word x e = (
  λ z. let no : is_digit_or_underscore 0 ≡ false = refl in cc,
  λ z. let no : is_digit_or_underscore b'\n' ≡ false = refl in cc,
)

-- The scanner has passed digits from a position on, and no digit follows.
pub record Passed (source : List ℕ) (start from : ℕ) (s : Scanner) : Type 0 where
  pub at : At source start from s
  pub digits : AllDigits source from s.current
  pub ended : is_digit_or_underscore (get_or source s.current 0) ≡ false

-- The scanner stands behind the fraction, if there is one, and no digit follows.
pub record Fractioned (source : List ℕ) (start from : ℕ) (r : Bool × Scanner) : Type 0 where
  pub at : At source start from r.1
  pub fraction : IsFraction source from r.1.current
  pub ended : is_digit_or_underscore (get_or source r.1.current 0) ≡ false

module _ {source : List ℕ} {start : ℕ} where
  advance_while-Passed :
      (fuel : ℕ) (s : Scanner)
      → At source start s.current s
      → length source < s.current + fuel
      → Ends source (Passed source start s.current) (advance_while is_digit_or_underscore fuel s)
  unfolding advance_while
  advance_while-Passed zero s t enough = absurd (omega (arith, t.within))
  advance_while-Passed (suc fuel) s t enough =
      Ends-if source (Passed source start s.current) (is_digit_or_underscore (peek s)) _ _
        (λ e.
          let (inside, other) = digit_word (peek s) e in
          let next = advance_word-At t inside other in
          let step = advance-current t (peek_inside t inside).0 in
          let here = At-le {lower = (advance s).1.current} (omega (arith, step)) next in
          let first = rw (peek-get_or t) at e in
          Ends-map source _ (Passed source start s.current) _
            (λ s' p. record {
              at = At-le (omega (arith, step)) p.at;
              digits =
                  digits-more source s.current s'.current first
                    (subst (λ from. AllDigits source from s'.current) step p.digits);
              ended = p.ended;
            })
            (advance_while-Passed fuel (advance s).1 here (omega (arith, step))))
        (λ e. record {
          at = t;
          digits = λ j le lt. absurd (omega arith);
          ended = rw (peek-get_or t) at e;
        })

  pub skip_digits-Passed :
      (s : Scanner)
      → At source start s.current s
      → Ends source (Passed source start s.current) (skip_digits s)
  unfolding skip_digits
  skip_digits-Passed s t =
      advance_while-Passed (fuel_of s) s t (omega (arith, ap length t.same_source))

  pub fraction-Fractioned :
      (s : Scanner)
      → At source start s.current s
      → is_digit_or_underscore (get_or source s.current 0) ≡ false
      → Ends source (Fractioned source start s.current) (fraction s)
  unfolding fraction
  fraction-Fractioned s t ended =
      Ends-if source (Fractioned source start s.current)
        (peek s == b'.' && is_digit_or_underscore (peek_next s 1)) _ _
        (λ e.
          let dot : peek s ≡ b'.' = (==_iff _ _).0 (and_parts e).0 in
          let inside : peek s ≢ 0 = λ z. absurd (omega arith) in
          let next = advance_word-At t inside (λ z. absurd (omega arith)) in
          let step = advance-current t (peek_inside t inside).0 in
          let here = At-le {lower = (advance s).1.current} (omega (arith, step)) next in
          let point : get_or source s.current 0 ≡ b'.' = rw (peek-get_or t) at dot in
          Ends-bind source (Passed source start (advance s).1.current)
            (Fractioned source start s.current) _ _ (skip_digits-Passed (advance s).1 here)
            (λ s' p. record {
              at = At-le (omega (arith, step)) p.at;
              fraction =
                  inr (point, subst (λ from. AllDigits source from s'.current) step p.digits);
              ended = p.ended;
            }))
        (λ _. record { at = t; fraction = inl refl; ended = ended })

  pub match_exponent-letter :
      (s : Scanner)
      → At source start s.current s
      → (match_exponent s).0 ≡ true
      → ((get_or source s.current 0 ≡ b'e') ⊎ (get_or source s.current 0 ≡ b'E'))
        × ((match_exponent s).1.current ≡ s.current + 1)
  unfolding match_exponent
  match_exponent-letter s t e = elim (Bool-cases (match s b'e').0) [
    | inl lower ↦ rw lower (let (letter, step) = match-found t b'e' lower in (inl letter, step))
    | inr other ↦
        let upper : (match s b'E').0 ≡ true = rw other at e in
        rw other (let (letter, step) = match-found t b'E' upper in (inr letter, step))
  ]

  pub match_sign-IsSign :
      (s : Scanner) → At source start s.current s → IsSign source s.current (match_sign s).current
  unfolding match_sign
  match_sign-IsSign s t = elim (Bool-cases (match s b'+').0) [
    | inl plus ↦ rw plus (let (sign, step) = match-found t b'+' plus in inr (inl sign, step))
    | inr other ↦ rw other (elim (Bool-cases (match s b'-').0) [
      | inl minus ↦ let (sign, step) = match-found t b'-' minus in inr (inr sign, step)
      | inr neither ↦ inl (ap (λ (s : Scanner). s.current) (sym (match-other s b'-' neither)))
    ])
  ]
