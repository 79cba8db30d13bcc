-- ===== src/Scanner/Keyword/Table.antt =====
-- The table of keywords, and that `identifier_type` decides it.
use mathlib.Core.Option.{some-injective}
use mathlib.Core.Path.{subst}
use mathlib.Core.Bool.{and-eq-true_iff}
use tx_lang_cxx.Prelude.{
  ℕ, ◌<◌, ◌≡◌, ◌≢◌, refl, sym, ap, ◌∙◌, ◌↔◌, ◌⊎◌, inl, inr, Bool, true, false, ◌&&◌, Option, none,
  some, List, [], ◌∷◌, length, get_or, drop, ltb, ◌==◌, ==_iff, if◌then◌else◌, arith,
}
use tx_lang_cxx.TokenType.{
  TokenType, identifier, and_kw, as_kw, async_kw, await_kw, break_kw, continue_kw, else_kw,
  false_kw, for_kw, fn_kw, if_kw, in_kw, inout_kw, import_kw, is_kw, let_kw, loop_kw, nil_kw,
  match_kw, or_kw, out_kw, return_kw, self_kw, struct_kw, super_kw, true_kw, var_kw, while_kw,
  any_type, bool_type, char_type, float_type, fn_type, int_type, nil_type, str_type,
}
use tx_lang_cxx.Scanner.Keyword.{
  bytes_eq, check_keyword, identifier_type, after_a, after_f, after_i, after_l, after_o, after_s,
  after_capital_f,
}

-- How a keyword is written.
unfoldable pub spelling : TokenType → Option (List ℕ)
spelling and_kw = some (b'a' ∷ b'n' ∷ b'd' ∷ [])
spelling as_kw = some (b'a' ∷ b's' ∷ [])
spelling async_kw = some (b'a' ∷ b's' ∷ b'y' ∷ b'n' ∷ b'c' ∷ [])
spelling await_kw = some (b'a' ∷ b'w' ∷ b'a' ∷ b'i' ∷ b't' ∷ [])
spelling break_kw = some (b'b' ∷ b'r' ∷ b'e' ∷ b'a' ∷ b'k' ∷ [])
spelling continue_kw = some (b'c' ∷ b'o' ∷ b'n' ∷ b't' ∷ b'i' ∷ b'n' ∷ b'u' ∷ b'e' ∷ [])
spelling else_kw = some (b'e' ∷ b'l' ∷ b's' ∷ b'e' ∷ [])
spelling false_kw = some (b'f' ∷ b'a' ∷ b'l' ∷ b's' ∷ b'e' ∷ [])
spelling for_kw = some (b'f' ∷ b'o' ∷ b'r' ∷ [])
spelling fn_kw = some (b'f' ∷ b'n' ∷ [])
spelling if_kw = some (b'i' ∷ b'f' ∷ [])
spelling in_kw = some (b'i' ∷ b'n' ∷ [])
spelling inout_kw = some (b'i' ∷ b'n' ∷ b'o' ∷ b'u' ∷ b't' ∷ [])
spelling import_kw = some (b'i' ∷ b'm' ∷ b'p' ∷ b'o' ∷ b'r' ∷ b't' ∷ [])
spelling is_kw = some (b'i' ∷ b's' ∷ [])
spelling let_kw = some (b'l' ∷ b'e' ∷ b't' ∷ [])
spelling loop_kw = some (b'l' ∷ b'o' ∷ b'o' ∷ b'p' ∷ [])
spelling nil_kw = some (b'n' ∷ b'i' ∷ b'l' ∷ [])
spelling match_kw = some (b'm' ∷ b'a' ∷ b't' ∷ b'c' ∷ b'h' ∷ [])
spelling or_kw = some (b'o' ∷ b'r' ∷ [])
spelling out_kw = some (b'o' ∷ b'u' ∷ b't' ∷ [])
spelling return_kw = some (b'r' ∷ b'e' ∷ b't' ∷ b'u' ∷ b'r' ∷ b'n' ∷ [])
spelling self_kw = some (b's' ∷ b'e' ∷ b'l' ∷ b'f' ∷ [])
spelling struct_kw = some (b's' ∷ b't' ∷ b'r' ∷ b'u' ∷ b'c' ∷ b't' ∷ [])
spelling super_kw = some (b's' ∷ b'u' ∷ b'p' ∷ b'e' ∷ b'r' ∷ [])
spelling true_kw = some (b't' ∷ b'r' ∷ b'u' ∷ b'e' ∷ [])
spelling var_kw = some (b'v' ∷ b'a' ∷ b'r' ∷ [])
spelling while_kw = some (b'w' ∷ b'h' ∷ b'i' ∷ b'l' ∷ b'e' ∷ [])
spelling any_type = some (b'A' ∷ b'n' ∷ b'y' ∷ [])
spelling bool_type = some (b'B' ∷ b'o' ∷ b'o' ∷ b'l' ∷ [])
spelling char_type = some (b'C' ∷ b'h' ∷ b'a' ∷ b'r' ∷ [])
spelling float_type = some (b'F' ∷ b'l' ∷ b'o' ∷ b'a' ∷ b't' ∷ [])
spelling fn_type = some (b'F' ∷ b'n' ∷ [])
spelling int_type = some (b'I' ∷ b'n' ∷ b't' ∷ [])
spelling nil_type = some (b'N' ∷ b'i' ∷ b'l' ∷ [])
spelling str_type = some (b'S' ∷ b't' ∷ b'r' ∷ [])
spelling _ = none

bytes_eq→eq : (xs ys : List ℕ) → bytes_eq xs ys ≡ true → xs ≡ ys
bytes_eq→eq [] [] h = refl
bytes_eq→eq [] (y ∷ ys) h = cc
bytes_eq→eq (x ∷ xs) [] h = cc
bytes_eq→eq (x ∷ xs) (y ∷ ys) h = ground (arith, bytes_eq→eq xs ys)

-- A type is the keyword's, or that of identifiers.
abbrev IsSound : List ℕ → TokenType → Type 0
IsSound lex t = (t ≡ identifier) ⊎ (spelling t ≡ some lex)

either :
    {lex : List ℕ} (b : Bool) {x y : TokenType}
    → (b ≡ true → IsSound lex x)
    → (b ≡ false → IsSound lex y)
    → IsSound lex (if b then x else y)
either true f g = f refl
either false f g = g refl

byte : {x k : ℕ} → (x == k) ≡ true → x ≡ k
byte {x} {k} = (==_iff x k).0

check_keyword-IsSound :
    (lex : List ℕ) (offset : ℕ) (rest : List ℕ) (t : TokenType)
    → (rest ≡ drop offset lex → spelling t ≡ some lex)
    → IsSound lex (check_keyword lex offset rest t)
unfolding check_keyword
check_keyword-IsSound lex offset rest t h =
    either (bytes_eq rest (drop offset lex)) (λ e. inr (h (bytes_eq→eq rest (drop offset lex) e)))
      (λ _. inl refl)

module _ (c d : ℕ) (r : List ℕ) where
  third_a-IsSound :
      c ≡ b'a'
      → d ≡ b's'
      → (r : List ℕ)
      → IsSound (c ∷ d ∷ r) (
          if ltb 2 (length (c ∷ d ∷ r)) && get_or (c ∷ d ∷ r) 2 0 == b'y'
          then check_keyword (c ∷ d ∷ r) 3 (b'n' ∷ b'c' ∷ []) async_kw
          else check_keyword (c ∷ d ∷ r) 2 [] as_kw)
  unfolding spelling
  third_a-IsSound one two [] = check_keyword-IsSound (c ∷ d ∷ []) 2 [] as_kw (λ q. cc)
  third_a-IsSound one two (x ∷ r) =
      either (ltb 2 (length (c ∷ d ∷ x ∷ r)) && x == b'y')
        (λ e.
          let three : x ≡ b'y' = byte ((and-eq-true_iff _ _).0 e).1 in
          check_keyword-IsSound (c ∷ d ∷ x ∷ r) 3 (b'n' ∷ b'c' ∷ []) async_kw (λ q. cc))
        (λ _. check_keyword-IsSound (c ∷ d ∷ x ∷ r) 2 [] as_kw (λ q. cc))

  after_a-IsSound : c ≡ b'a' → IsSound (c ∷ d ∷ r) (after_a (c ∷ d ∷ r))
  unfolding after_a spelling
  after_a-IsSound one =
      either (d == b'n')
        (λ e. let two = byte e in check_keyword-IsSound (c ∷ d ∷ r) 2 (b'd' ∷ []) and_kw (λ q. cc))
        (λ _.
          either (d == b's') (λ e. let two = byte e in third_a-IsSound one two r)
            (λ _.
              either (d == b'w')
                (λ e.
                  let two = byte e in
                  check_keyword-IsSound (c ∷ d ∷ r) 2 (b'a' ∷ b'i' ∷ b't' ∷ []) await_kw (λ q. cc))
                (λ _. inl refl)))

  after_f-IsSound : c ≡ b'f' → IsSound (c ∷ d ∷ r) (after_f (c ∷ d ∷ r))
  unfolding after_f spelling
  after_f-IsSound one =
      either (d == b'a')
        (λ e.
          let two = byte e in
          check_keyword-IsSound (c ∷ d ∷ r) 2 (b'l' ∷ b's' ∷ b'e' ∷ []) false_kw (λ q. cc))
        (λ _.
          either (d == b'o')
            (λ e.
              let two = byte e in check_keyword-IsSound (c ∷ d ∷ r) 2 (b'r' ∷ []) for_kw (λ q. cc))
            (λ _.
              either (d == b'n')
                (λ e. let two = byte e in check_keyword-IsSound (c ∷ d ∷ r) 2 [] fn_kw (λ q. cc))
                (λ _. inl refl)))

  third_i-IsSound :
      c ≡ b'i'
      → d ≡ b'n'
      → (r : List ℕ)
      → IsSound (c ∷ d ∷ r) (
          if ltb 2 (length (c ∷ d ∷ r)) && get_or (c ∷ d ∷ r) 2 0 == b'o'
          then check_keyword (c ∷ d ∷ r) 3 (b'u' ∷ b't' ∷ []) inout_kw
          else check_keyword (c ∷ d ∷ r) 2 [] in_kw)
  unfolding spelling
  third_i-IsSound one two [] = check_keyword-IsSound (c ∷ d ∷ []) 2 [] in_kw (λ q. cc)
  third_i-IsSound one two (x ∷ r) =
      either (ltb 2 (length (c ∷ d ∷ x ∷ r)) && x == b'o')
        (λ e.
          let three : x ≡ b'o' = byte ((and-eq-true_iff _ _).0 e).1 in
          check_keyword-IsSound (c ∷ d ∷ x ∷ r) 3 (b'u' ∷ b't' ∷ []) inout_kw (λ q. cc))
        (λ _. check_keyword-IsSound (c ∷ d ∷ x ∷ r) 2 [] in_kw (λ q. cc))

  after_i-IsSound : c ≡ b'i' → IsSound (c ∷ d ∷ r) (after_i (c ∷ d ∷ r))
  unfolding after_i spelling
  after_i-IsSound one =
      either (d == b'f')
        (λ e. let two = byte e in check_keyword-IsSound (c ∷ d ∷ r) 2 [] if_kw (λ q. cc))
        (λ _.
          either (d == b'm')
            (λ e.
              let two = byte e in
              check_keyword-IsSound (c ∷ d ∷ r) 2 (b'p' ∷ b'o' ∷ b'r' ∷ b't' ∷ []) import_kw
                (λ q. cc))
            (λ _.
              either (d == b'n') (λ e. let two = byte e in third_i-IsSound one two r)
                (λ _.
                  either (d == b's')
                    (λ e.
                      let two = byte e in check_keyword-IsSound (c ∷ d ∷ r) 2 [] is_kw (λ q. cc))
                    (λ _. inl refl))))

  after_l-IsSound : c ≡ b'l' → IsSound (c ∷ d ∷ r) (after_l (c ∷ d ∷ r))
  unfolding after_l spelling
  after_l-IsSound one =
      either (d == b'e')
        (λ e. let two = byte e in check_keyword-IsSound (c ∷ d ∷ r) 2 (b't' ∷ []) let_kw (λ q. cc))
        (λ _.
          either (d == b'o')
            (λ e.
              let two = byte e in
              check_keyword-IsSound (c ∷ d ∷ r) 2 (b'o' ∷ b'p' ∷ []) loop_kw (λ q. cc))
            (λ _. inl refl))

  after_o-IsSound : c ≡ b'o' → IsSound (c ∷ d ∷ r) (after_o (c ∷ d ∷ r))
  unfolding after_o spelling
  after_o-IsSound one =
      either (d == b'u')
        (λ e. let two = byte e in check_keyword-IsSound (c ∷ d ∷ r) 2 (b't' ∷ []) out_kw (λ q. cc))
        (λ _.
          either (d == b'r')
            (λ e. let two = byte e in check_keyword-IsSound (c ∷ d ∷ r) 2 [] or_kw (λ q. cc))
            (λ _. inl refl))

  after_s-IsSound : c ≡ b's' → IsSound (c ∷ d ∷ r) (after_s (c ∷ d ∷ r))
  unfolding after_s spelling
  after_s-IsSound one =
      either (d == b'e')
        (λ e.
          let two = byte e in
          check_keyword-IsSound (c ∷ d ∷ r) 2 (b'l' ∷ b'f' ∷ []) self_kw (λ q. cc))
        (λ _.
          either (d == b't')
            (λ e.
              let two = byte e in
              check_keyword-IsSound (c ∷ d ∷ r) 2 (b'r' ∷ b'u' ∷ b'c' ∷ b't' ∷ []) struct_kw
                (λ q. cc))
            (λ _.
              either (d == b'u')
                (λ e.
                  let two = byte e in
                  check_keyword-IsSound (c ∷ d ∷ r) 2 (b'p' ∷ b'e' ∷ b'r' ∷ []) super_kw (λ q. cc))
                (λ _. inl refl)))

  after_capital_f-IsSound : c ≡ b'F' → IsSound (c ∷ d ∷ r) (after_capital_f (c ∷ d ∷ r))
  unfolding after_capital_f spelling
  after_capital_f-IsSound one =
      either (d == b'l')
        (λ e.
          let two = byte e in
          check_keyword-IsSound (c ∷ d ∷ r) 2 (b'o' ∷ b'a' ∷ b't' ∷ []) float_type (λ q. cc))
        (λ _.
          either (d == b'n')
            (λ e. let two = byte e in check_keyword-IsSound (c ∷ d ∷ r) 2 [] fn_type (λ q. cc))
            (λ _. inl refl))

-- An identifier of more than one byte.
long :
    (after : List ℕ → TokenType) (k : ℕ)
    → ((c d : ℕ) (r : List ℕ) → c ≡ k → IsSound (c ∷ d ∷ r) (after (c ∷ d ∷ r)))
    → (lex : List ℕ) → get_or lex 0 0 ≡ k
    → IsSound lex (if ltb 1 (length lex) then after lex else identifier)
long after k sound [] e = inl refl
long after k sound (c ∷ []) e = inl refl
long after k sound (c ∷ d ∷ r) e =
    either (ltb 1 (length (c ∷ d ∷ r))) (λ _. sound c d r e) (λ _. inl refl)

short :
    (k : ℕ) (rest : List ℕ) (t : TokenType)
    → spelling t ≡ some (k ∷ rest)
    → 0 < k
    → (lex : List ℕ) → get_or lex 0 0 ≡ k
    → IsSound lex (check_keyword lex 1 rest t)
short k rest t spelled pos [] e = absurd (omega arith)
short k rest t spelled pos (c ∷ r) e = check_keyword-IsSound (c ∷ r) 1 rest t (λ q. cc)

identifier_type-IsSound : (lex : List ℕ) → IsSound lex (identifier_type lex)
unfolding identifier_type spelling
identifier_type-IsSound lex =
    either (get_or lex 0 0 == b'a') (λ e. long after_a b'a' after_a-IsSound lex (byte e))
      (λ _.
        either (get_or lex 0 0 == b'b')
          (λ e.
            short b'b' (b'r' ∷ b'e' ∷ b'a' ∷ b'k' ∷ []) break_kw refl (omega arith) lex (byte e))
          (λ _.
            either (get_or lex 0 0 == b'c')
              (λ e.
                short b'c' (b'o' ∷ b'n' ∷ b't' ∷ b'i' ∷ b'n' ∷ b'u' ∷ b'e' ∷ []) continue_kw refl
                  (omega arith) lex (byte e))
              (λ _.
                either (get_or lex 0 0 == b'e')
                  (λ e.
                    short b'e' (b'l' ∷ b's' ∷ b'e' ∷ []) else_kw refl (omega arith) lex (byte e))
                  (λ _.
                    either (get_or lex 0 0 == b'f')
                      (λ e. long after_f b'f' after_f-IsSound lex (byte e))
                      (λ _.
                        either (get_or lex 0 0 == b'i')
                          (λ e. long after_i b'i' after_i-IsSound lex (byte e))
                          (λ _.
                            either (get_or lex 0 0 == b'l')
                              (λ e. long after_l b'l' after_l-IsSound lex (byte e))
                              (λ _.
                                either (get_or lex 0 0 == b'n')
                                  (λ e.
                                    short b'n' (b'i' ∷ b'l' ∷ []) nil_kw refl (omega arith) lex
                                      (byte e))
                                  (λ _.
                                    either (get_or lex 0 0 == b'm')
                                      (λ e.
                                        short b'm' (b'a' ∷ b't' ∷ b'c' ∷ b'h' ∷ []) match_kw refl
                                          (omega arith) lex (byte e))
                                      (λ _.
                                        either (get_or lex 0 0 == b'o')
                                          (λ e. long after_o b'o' after_o-IsSound lex (byte e))
                                          (λ _.
                                            either (get_or lex 0 0 == b'r')
                                              (λ e.
                                                short b'r' (b'e' ∷ b't' ∷ b'u' ∷ b'r' ∷ b'n' ∷ [])
                                                  return_kw refl (omega arith) lex (byte e))
                                              (λ _.
                                                either (get_or lex 0 0 == b's')
                                                  (λ e.
                                                    long after_s b's' after_s-IsSound lex (byte e))
                                                  (λ _.
                                                    either (get_or lex 0 0 == b't')
                                                      (λ e.
                                                        short b't' (b'r' ∷ b'u' ∷ b'e' ∷ []) true_kw
                                                          refl (omega arith) lex (byte e))
                                                      (λ _.
                                                        either (get_or lex 0 0 == b'v')
                                                          (λ e.
                                                            short b'v' (b'a' ∷ b'r' ∷ []) var_kw
                                                            refl (omega arith) lex (byte e))
                                                          (λ _.
                                                            either (get_or lex 0 0 == b'w')
                                                            (λ e.
                                                            short b'w'
                                                            (b'h' ∷ b'i' ∷ b'l' ∷ b'e' ∷ [])
                                                            while_kw refl (omega arith) lex
                                                            (byte e))
                                                            (λ _.
                                                            either (get_or lex 0 0 == b'A')
                                                            (λ e.
                                                            short b'A' (b'n' ∷ b'y' ∷ []) any_type
                                                            refl (omega arith) lex (byte e))
                                                            (λ _.
                                                            either (get_or lex 0 0 == b'B')
                                                            (λ e.
                                                            short b'B' (b'o' ∷ b'o' ∷ b'l' ∷ [])
                                                            bool_type refl (omega arith) lex
                                                            (byte e))
                                                            (λ _.
                                                            either (get_or lex 0 0 == b'C')
                                                            (λ e.
                                                            short b'C' (b'h' ∷ b'a' ∷ b'r' ∷ [])
                                                            char_type refl (omega arith) lex
                                                            (byte e))
                                                            (λ _.
                                                            either (get_or lex 0 0 == b'F')
                                                            (λ e.
                                                            long after_capital_f b'F'
                                                            after_capital_f-IsSound lex (byte e))
                                                            (λ _.
                                                            either (get_or lex 0 0 == b'I')
                                                            (λ e.
                                                            short b'I' (b'n' ∷ b't' ∷ []) int_type
                                                            refl (omega arith) lex (byte e))
                                                            (λ _.
                                                            either (get_or lex 0 0 == b'N')
                                                            (λ e.
                                                            short b'N' (b'i' ∷ b'l' ∷ []) nil_type
                                                            refl (omega arith) lex (byte e))
                                                            (λ _.
                                                            either (get_or lex 0 0 == b'S')
                                                            (λ e.
                                                            short b'S' (b't' ∷ b'r' ∷ []) str_type
                                                            refl (omega arith) lex (byte e))
                                                            (λ _. inl refl))))))))))))))))))))))

-- Every spelling is recognised.
identifier_type-spelling :
    (t : TokenType) (lex : List ℕ) → spelling t ≡ some lex → identifier_type lex ≡ t
unfolding identifier_type spelling
identifier_type-spelling and_kw lex h =
    subst (λ l. identifier_type l ≡ and_kw) (some-injective _ lex h) refl
identifier_type-spelling as_kw lex h =
    subst (λ l. identifier_type l ≡ as_kw) (some-injective _ lex h) refl
identifier_type-spelling async_kw lex h =
    subst (λ l. identifier_type l ≡ async_kw) (some-injective _ lex h) refl
identifier_type-spelling await_kw lex h =
    subst (λ l. identifier_type l ≡ await_kw) (some-injective _ lex h) refl
identifier_type-spelling break_kw lex h =
    subst (λ l. identifier_type l ≡ break_kw) (some-injective _ lex h) refl
identifier_type-spelling continue_kw lex h =
    subst (λ l. identifier_type l ≡ continue_kw) (some-injective _ lex h) refl
identifier_type-spelling else_kw lex h =
    subst (λ l. identifier_type l ≡ else_kw) (some-injective _ lex h) refl
identifier_type-spelling false_kw lex h =
    subst (λ l. identifier_type l ≡ false_kw) (some-injective _ lex h) refl
identifier_type-spelling for_kw lex h =
    subst (λ l. identifier_type l ≡ for_kw) (some-injective _ lex h) refl
identifier_type-spelling fn_kw lex h =
    subst (λ l. identifier_type l ≡ fn_kw) (some-injective _ lex h) refl
identifier_type-spelling if_kw lex h =
    subst (λ l. identifier_type l ≡ if_kw) (some-injective _ lex h) refl
identifier_type-spelling in_kw lex h =
    subst (λ l. identifier_type l ≡ in_kw) (some-injective _ lex h) refl
identifier_type-spelling inout_kw lex h =
    subst (λ l. identifier_type l ≡ inout_kw) (some-injective _ lex h) refl
identifier_type-spelling import_kw lex h =
    subst (λ l. identifier_type l ≡ import_kw) (some-injective _ lex h) refl
identifier_type-spelling is_kw lex h =
    subst (λ l. identifier_type l ≡ is_kw) (some-injective _ lex h) refl
identifier_type-spelling let_kw lex h =
    subst (λ l. identifier_type l ≡ let_kw) (some-injective _ lex h) refl
identifier_type-spelling loop_kw lex h =
    subst (λ l. identifier_type l ≡ loop_kw) (some-injective _ lex h) refl
identifier_type-spelling nil_kw lex h =
    subst (λ l. identifier_type l ≡ nil_kw) (some-injective _ lex h) refl
identifier_type-spelling match_kw lex h =
    subst (λ l. identifier_type l ≡ match_kw) (some-injective _ lex h) refl
identifier_type-spelling or_kw lex h =
    subst (λ l. identifier_type l ≡ or_kw) (some-injective _ lex h) refl
identifier_type-spelling out_kw lex h =
    subst (λ l. identifier_type l ≡ out_kw) (some-injective _ lex h) refl
identifier_type-spelling return_kw lex h =
    subst (λ l. identifier_type l ≡ return_kw) (some-injective _ lex h) refl
identifier_type-spelling self_kw lex h =
    subst (λ l. identifier_type l ≡ self_kw) (some-injective _ lex h) refl
identifier_type-spelling struct_kw lex h =
    subst (λ l. identifier_type l ≡ struct_kw) (some-injective _ lex h) refl
identifier_type-spelling super_kw lex h =
    subst (λ l. identifier_type l ≡ super_kw) (some-injective _ lex h) refl
identifier_type-spelling true_kw lex h =
    subst (λ l. identifier_type l ≡ true_kw) (some-injective _ lex h) refl
identifier_type-spelling var_kw lex h =
    subst (λ l. identifier_type l ≡ var_kw) (some-injective _ lex h) refl
identifier_type-spelling while_kw lex h =
    subst (λ l. identifier_type l ≡ while_kw) (some-injective _ lex h) refl
identifier_type-spelling any_type lex h =
    subst (λ l. identifier_type l ≡ any_type) (some-injective _ lex h) refl
identifier_type-spelling bool_type lex h =
    subst (λ l. identifier_type l ≡ bool_type) (some-injective _ lex h) refl
identifier_type-spelling char_type lex h =
    subst (λ l. identifier_type l ≡ char_type) (some-injective _ lex h) refl
identifier_type-spelling float_type lex h =
    subst (λ l. identifier_type l ≡ float_type) (some-injective _ lex h) refl
identifier_type-spelling fn_type lex h =
    subst (λ l. identifier_type l ≡ fn_type) (some-injective _ lex h) refl
identifier_type-spelling int_type lex h =
    subst (λ l. identifier_type l ≡ int_type) (some-injective _ lex h) refl
identifier_type-spelling nil_type lex h =
    subst (λ l. identifier_type l ≡ nil_type) (some-injective _ lex h) refl
identifier_type-spelling str_type lex h =
    subst (λ l. identifier_type l ≡ str_type) (some-injective _ lex h) refl
identifier_type-spelling _ lex h = cc

-- An identifier is the keyword `t` exactly if it is spelled as `t`; any other is an identifier.
pub identifier_type_lem :
    (lex : List ℕ) (t : TokenType)
    → t ≢ identifier
    → (identifier_type lex ≡ t) ↔ (spelling t ≡ some lex)
identifier_type_lem lex t keyword = (
  λ e. elim (identifier_type-IsSound lex) [
    | inl i ↦ absurd (keyword (sym e ∙ i))
    | inr s ↦ ap spelling (sym e) ∙ s
  ],
  identifier_type-spelling t lex,
)
