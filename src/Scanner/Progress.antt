-- ===== src/Scanner/Progress.antt =====
-- How the scanner moves: the invariant of its state, what a loop comes to, and that the loops over
-- blanks, comments and digits end.
pub mod Words
pub mod Numerals
pub mod Numbers
pub mod Strings
pub mod RawStrings
pub mod Token
use mathlib.Core.Bool.{and-eq-true_iff}
use tx_lang_cxx.Prelude.{
  ℕ, zero, suc, ◌+◌, ◌-◌, ◌≤◌, ◌<◌, ◌≡◌, ◌≢◌, refl, sym, ap, ◌∙◌, ◌⊎◌, inl, inr, Bool, true, false,
  Bool-cases, not, ◌&&◌, ◌||◌, List, [], ◌∷◌, length, get_or, ltb, leb, ◌==◌, ==_iff, if◌then◌else◌,
  arith,
}
use tx_lang_cxx.Scanner.State.{
  Scanner, Outcome, ok, undefined, stuck, ◌>>=◌, is_at_end, advance, peek, match, bump_line,
  fuel_of, skip_comment, skip_whitespace_loop, skip_whitespace, advance_while,
}

-- The newlines among the first bytes.
unfoldable pub newlines : ℕ → List ℕ → ℕ
newlines zero source = 0
newlines (suc n) [] = 0
newlines (suc n) (chr ∷ chars) = (if chr == b'\n' then 1 else 0) + newlines n chars

newlines-suc :
    (n : ℕ) (source : List ℕ)
    → n < length source
    → newlines (n + 1) source ≡ newlines n source + (if get_or source n 0 == b'\n' then 1 else 0)
unfolding newlines
newlines-suc n [] h = absurd (omega arith)
newlines-suc zero (chr ∷ chars) h = ground arith
newlines-suc (suc n) (chr ∷ chars) h = ground (arith, newlines-suc n chars)

abbrev pub AllPositive : List ℕ → Type 0
AllPositive [] = Unit {0}
AllPositive (n ∷ ns) = (0 < n) × AllPositive ns

-- The scanner stands in `source` at or behind `from`, on the line that the newlines before it give.
pub record At (source : List ℕ) (start from : ℕ) (s : Scanner) : Type 0 where
  pub same_source : s.source ≡ source
  pub same_start : s.start ≡ start
  pub behind : from ≤ s.current
  pub within : s.current ≤ length source
  pub counted : s.line ≡ 1 + newlines s.current source
  pub shallow : length s.str_interp_braces ≤ 8
  pub positive : AllPositive s.str_interp_braces

-- An interpolated string can be undefined, and it takes a dollar sign.
abbrev pub HasDollar : List ℕ → Type 0
HasDollar source = (i : ℕ) × (get_or source i 0 ≡ b'$')

abbrev pub NoCarriageReturn : List ℕ → Type 0
NoCarriageReturn source = (i : ℕ) → get_or source i 0 ≢ b'\r'

-- The run ends, and its result has the property; it is undefined only behind a dollar sign.
abbrev pub Ends {ℓ} : {A : Type ℓ} → List ℕ → (A → Type 0) → Outcome A → Type 0
Ends source Q (ok a) = Q a
Ends source Q undefined = HasDollar source
Ends source Q stuck = ⊥

pub Ends-bind {ℓ κ} :
    {A : Type ℓ} {B : Type κ} (source : List ℕ) (Q : A → Type 0) (R : B → Type 0) (r : Outcome A)
    (f : A → Outcome B)
    → Ends source Q r
    → ((a : A) → Q a → Ends source R (f a))
    → Ends source R (r >>= f)
Ends-bind source Q R (ok a) f h k = k a h
Ends-bind source Q R undefined f h k = h
Ends-bind source Q R stuck f h k = h

pub Ends-map {ℓ} :
    {A : Type ℓ} (source : List ℕ) (Q R : A → Type 0) (r : Outcome A)
    → ((a : A) → Q a → R a)
    → Ends source Q r
    → Ends source R r
Ends-map source Q R (ok a) k h = k a h
Ends-map source Q R undefined k h = h
Ends-map source Q R stuck k h = h

pub Ends-if {ℓ} :
    {A : Type ℓ} (source : List ℕ) (Q : A → Type 0) (b : Bool) (r t : Outcome A)
    → (b ≡ true → Ends source Q r)
    → (b ≡ false → Ends source Q t)
    → Ends source Q (if b then r else t)
Ends-if source Q true r t f g = f refl
Ends-if source Q false r t f g = g refl

module _ {source : List ℕ} {start from : ℕ} where
  pub At-le :
      {lower : ℕ} {s : Scanner} → lower ≤ from → At source start from s → At source start lower s
  At-le le t = record {
    same_source = t.same_source;
    same_start = t.same_start;
    behind = omega arith;
    within = t.within;
    counted = t.counted;
    shallow = t.shallow;
    positive = t.positive;
  }

  module _ {s : Scanner} (t : At source start from s) where
    -- What `peek` shows inside the source.
    pub peek_inside :
        peek s ≢ 0 → (s.current < length source) × (peek s ≡ get_or source s.current 0)
    unfolding peek
    peek_inside h = ground (arith, ap length t.same_source)

    pub peek_at : s.current < length source → peek s ≡ get_or source s.current 0
    unfolding peek
    peek_at lt =
        ground (arith, ap length t.same_source, ap (λ l. get_or l s.current 0) t.same_source)

    pub advance-current : s.current < length source → (advance s).1.current ≡ s.current + 1
    unfolding advance
    advance-current lt = ground (arith, ap length t.same_source)

    -- One byte further, with the line counted if the byte is a newline.
    pub advance-At :
        s.current < length source
        → At source start (s.current + 1) (advance (if peek s == b'\n' then bump_line s else s)).1
    unfolding advance peek
    advance-At h = ground (
      arith,
      ap length t.same_source,
      newlines-suc s.current source h,
      ap (λ l. get_or l s.current 0) t.same_source,
    )

    pub advance_other-At :
        s.current < length source → peek s ≢ b'\n' → At source start (s.current + 1) (advance s).1
    advance_other-At lt other = elim (Bool-cases (peek s == b'\n')) [
      | inl newline ↦ absurd (other ((==_iff (peek s) b'\n').0 newline))
      | inr no_newline ↦ rw no_newline at (advance-At lt)
    ]

    pub advance_word-At :
        peek s ≢ 0 → peek s ≢ b'\n' → At source start (s.current + 1) (advance s).1
    advance_word-At inside word = advance_other-At (peek_inside inside).0 word

    pub advance_newline-At :
        peek s ≡ b'\n' → At source start (s.current + 1) (advance (bump_line s)).1
    advance_newline-At newline =
        let (lt, _) = peek_inside (λ e. absurd (omega arith)) in
        rw ((==_iff (peek s) b'\n').1 newline) at (advance-At lt)

    -- At the end nothing moves.
    pub advance_end-At : is_at_end s ≡ true → At source start from (advance s).1
    unfolding advance
    advance_end-At e = rw e t

    pub inside_of : is_at_end s ≡ false → s.current < length source
    unfolding is_at_end
    inside_of e = ground (arith, ap length t.same_source)

    pub not_end : s.current < length source → is_at_end s ≡ false
    unfolding is_at_end
    not_end lt = ground (arith, ap length t.same_source)

    pub end_of : is_at_end s ≡ true → s.current ≡ length source
    unfolding is_at_end
    end_of e = ground (arith, ap length t.same_source)

    -- `match` on anything but a newline.
    pub match-At : (expected : ℕ) → expected ≢ b'\n' → At source start from (match s expected).1
    unfolding match is_at_end
    match-At expected h = ground (
      arith,
      ap length t.same_source,
      newlines-suc s.current source,
      ap (λ l. get_or l s.current 0) t.same_source,
    )

pub and_parts : {a b : Bool} → (a && b) ≡ true → (a ≡ true) × (b ≡ true)
and_parts h = (and-eq-true_iff _ _).0 h

pub ne_of_test : (x k : ℕ) → not (x == k) ≡ true → x ≢ k
ne_of_test x k h = ground arith

pub not_false : {b : Bool} → not b ≡ false → b ≡ true
not_false {b} h = ground arith

pub or_false : {a b : Bool} → (a || b) ≡ false → (a ≡ false) × (b ≡ false)
or_false {a} {b} h = ground arith

pub stopped : {a b : Bool} → (not a && not b) ≡ false → (a ≡ true) ⊎ (b ≡ true)
stopped {a} {b} h = ground arith

pub not_true : {b : Bool} → not b ≡ true → b ≡ false
not_true {b} h = ground arith

module _ (source : List ℕ) (start : ℕ) where
  skip_comment-Ends :
      (fuel from : ℕ) (s : Scanner)
      → At source start from s
      → length source < s.current + fuel
      → Ends source (At source start from) (skip_comment fuel s)
  unfolding skip_comment
  skip_comment-Ends zero from s t enough = absurd (omega (arith, t.within))
  skip_comment-Ends (suc fuel) from s t enough =
      Ends-if source (At source start from) (not (peek s == b'\n') && not (is_at_end s)) _ _
        (λ e.
          let (no_newline, no_end) = and_parts e in
          let next =
            advance_other-At t (inside_of t (not_true no_end)) (ne_of_test _ _ no_newline) in
          skip_comment-Ends fuel from (advance s).1 (At-le (omega (arith, t.behind)) next)
            (omega (arith, next.behind)))
        (λ _. t)

  -- A comment takes at least its `#`.
  comment-Ends :
      (from : ℕ) (s : Scanner)
      → At source start from s
      → peek s ≡ b'#'
      → Ends source (At source start (s.current + 1)) (skip_comment (fuel_of s) s)
  unfolding skip_comment
  comment-Ends from s t hash =
      let (lt, _) = peek_inside t (λ e. absurd (omega arith)) in
      let next = advance_other-At t lt (λ e. absurd (omega arith)) in
      Ends-if source (At source start (s.current + 1)) (not (peek s == b'\n') && not (is_at_end s))
        _ _
        (λ _.
          skip_comment-Ends (length s.source) (s.current + 1) (advance s).1 next
            (omega (arith, next.behind, ap length t.same_source)))
        (λ e. absurd (ground (arith, not_end t lt)))

  -- `while (test(peek())) { advance(); }` ends, for a test that neither the end nor a newline passes.
  pub advance_while-Ends :
      (test : ℕ → Bool) (fuel from : ℕ) (s : Scanner)
      → test 0 ≡ false
      → test b'\n' ≡ false
      → At source start from s
      → length source < s.current + fuel
      → Ends source (At source start from) (advance_while test fuel s)
  unfolding advance_while
  advance_while-Ends test zero from s end_fails newline_fails t enough =
      absurd (omega (arith, t.within))
  advance_while-Ends test (suc fuel) from s end_fails newline_fails t enough =
      Ends-if source (At source start from) (test (peek s)) _ _
        (λ passes.
          let next = advance_word-At t (λ e. cc) (λ e. cc) in
          advance_while-Ends test fuel from (advance s).1 end_fails newline_fails
            (At-le (omega (arith, t.behind)) next) (omega (arith, next.behind)))
        (λ _. t)

  -- The blanks end: spaces, line ends and comments. No newline stands where they end.
  skip_whitespace_loop-Ends :
      (fuel from : ℕ) (s : Scanner)
      → At source start from s
      → length source < s.current + fuel
      → Ends source
          (λ s'. At source start from s' × (peek s' ≢ b'\n'))
          (skip_whitespace_loop fuel s)
  unfolding skip_whitespace_loop
  skip_whitespace_loop-Ends zero from s t enough = absurd (omega (arith, t.within))
  skip_whitespace_loop-Ends (suc fuel) from s t enough =
      let Q : Scanner → Type 0 = λ s'. At source start from s' × (peek s' ≢ b'\n') in
      let go = λ (s' : Scanner) (next : At source start (s.current + 1) s').
        skip_whitespace_loop-Ends fuel from s' (At-le (omega (arith, t.behind)) next)
          (omega (arith, next.behind)) in
      Ends-if source Q (peek s == b' ' || peek s == b'\r' || peek s == b'\t') _ _
        (λ e. go (advance s).1 (advance_word-At t (ground arith) (ground arith)))
        (λ _.
          Ends-if source Q (peek s == b'\n') _ _
            (λ e. go (advance (bump_line s)).1 (advance_newline-At t ((==_iff _ _).0 e)))
            (λ no_newline.
              Ends-if source Q (peek s == b'#') _ _
                (λ e.
                  Ends-bind source (At source start (s.current + 1)) Q _ (skip_whitespace_loop fuel)
                    (comment-Ends from s t ((==_iff _ _).0 e)) go)
                (λ _. (t, λ e. absurd (ground arith)))))

  pub skip_whitespace-Ends :
      (from : ℕ) (s : Scanner)
      → At source start from s
      → Ends source (λ s'. At source start from s' × (peek s' ≢ b'\n')) (skip_whitespace s)
  unfolding skip_whitespace
  skip_whitespace-Ends from s t =
      skip_whitespace_loop-Ends (fuel_of s) from s t (omega (arith, ap length t.same_source))
