-- ===== src/Scanner/Keyword.antt =====
-- The keywords: `check_keyword` and `identifier_type` of
-- tx-runtime/include/tx/scanner_inl.hxx, on the bytes between `start` and `current`.
pub mod Table
use tx_lang_cxx.Prelude.{
  ℕ, Bool, true, false, ◌&&◌, List, [], ◌∷◌, length, get_or, drop, ltb, ◌==◌, if◌then◌else◌,
}
use tx_lang_cxx.TokenType.{
  TokenType, identifier, and_kw, as_kw, async_kw, await_kw, break_kw, continue_kw, else_kw,
  false_kw, for_kw, fn_kw, if_kw, in_kw, inout_kw, import_kw, is_kw, let_kw, loop_kw, nil_kw,
  match_kw, or_kw, out_kw, return_kw, self_kw, struct_kw, super_kw, true_kw, var_kw, while_kw,
  any_type, bool_type, char_type, float_type, fn_type, int_type, nil_type, str_type,
}

-- equality of two views
abbrev pub bytes_eq : List ℕ → List ℕ → Bool
bytes_eq [] [] = true
bytes_eq (x ∷ xs) (y ∷ ys) = x == y && bytes_eq xs ys
bytes_eq _ _ = false

unfoldable pub check_keyword : List ℕ → ℕ → List ℕ → TokenType → TokenType
check_keyword lex offset rest type = if bytes_eq rest (drop offset lex) then type else identifier

-- the inner switch under `case 'a'`, for an identifier of more than one byte
after_a : List ℕ → TokenType
after_a lex =
    let second = get_or lex 1 0 in
    if second == b'n'
    then check_keyword lex 2 (b'd' ∷ []) and_kw
    else if second == b's'
    then (if ltb 2 (length lex) && get_or lex 2 0 == b'y'
        then check_keyword lex 3 (b'n' ∷ b'c' ∷ []) async_kw
        else check_keyword lex 2 [] as_kw)
    else if second == b'w'
    then check_keyword lex 2 (b'a' ∷ b'i' ∷ b't' ∷ []) await_kw
    else identifier

-- the inner switch under `case 'f'`, for an identifier of more than one byte
after_f : List ℕ → TokenType
after_f lex =
    let second = get_or lex 1 0 in
    if second == b'a'
    then check_keyword lex 2 (b'l' ∷ b's' ∷ b'e' ∷ []) false_kw
    else if second == b'o'
    then check_keyword lex 2 (b'r' ∷ []) for_kw
    else if second == b'n'
    then check_keyword lex 2 [] fn_kw
    else identifier

-- the inner switch under `case 'i'`, for an identifier of more than one byte
after_i : List ℕ → TokenType
after_i lex =
    let second = get_or lex 1 0 in
    if second == b'f'
    then check_keyword lex 2 [] if_kw
    else if second == b'm'
    then check_keyword lex 2 (b'p' ∷ b'o' ∷ b'r' ∷ b't' ∷ []) import_kw
    else if second == b'n'
    then (if ltb 2 (length lex) && get_or lex 2 0 == b'o'
        then check_keyword lex 3 (b'u' ∷ b't' ∷ []) inout_kw
        else check_keyword lex 2 [] in_kw)
    else if second == b's'
    then check_keyword lex 2 [] is_kw
    else identifier

-- the inner switch under `case 'l'`, for an identifier of more than one byte
after_l : List ℕ → TokenType
after_l lex =
    let second = get_or lex 1 0 in
    if second == b'e'
    then check_keyword lex 2 (b't' ∷ []) let_kw
    else if second == b'o'
    then check_keyword lex 2 (b'o' ∷ b'p' ∷ []) loop_kw
    else identifier

-- the inner switch under `case 'o'`, for an identifier of more than one byte
after_o : List ℕ → TokenType
after_o lex =
    let second = get_or lex 1 0 in
    if second == b'u'
    then check_keyword lex 2 (b't' ∷ []) out_kw
    else if second == b'r'
    then check_keyword lex 2 [] or_kw
    else identifier

-- the inner switch under `case 's'`, for an identifier of more than one byte
after_s : List ℕ → TokenType
after_s lex =
    let second = get_or lex 1 0 in
    if second == b'e'
    then check_keyword lex 2 (b'l' ∷ b'f' ∷ []) self_kw
    else if second == b't'
    then check_keyword lex 2 (b'r' ∷ b'u' ∷ b'c' ∷ b't' ∷ []) struct_kw
    else if second == b'u'
    then check_keyword lex 2 (b'p' ∷ b'e' ∷ b'r' ∷ []) super_kw
    else identifier

-- the inner switch under `case 'F'`, for an identifier of more than one byte
after_capital_f : List ℕ → TokenType
after_capital_f lex =
    let second = get_or lex 1 0 in
    if second == b'l'
    then check_keyword lex 2 (b'o' ∷ b'a' ∷ b't' ∷ []) float_type
    else if second == b'n'
    then check_keyword lex 2 [] fn_type
    else identifier

-- The switch over the first byte.
unfoldable pub identifier_type : List ℕ → TokenType
unfolding check_keyword after_a after_f after_i after_l after_o after_s after_capital_f
identifier_type lex =
    let first = get_or lex 0 0 in
    let longer = ltb 1 (length lex) in
    if first == b'a'
    then (if longer then after_a lex else identifier)
    else if first == b'b'
    then check_keyword lex 1 (b'r' ∷ b'e' ∷ b'a' ∷ b'k' ∷ []) break_kw
    else if first == b'c'
    then check_keyword lex 1 (b'o' ∷ b'n' ∷ b't' ∷ b'i' ∷ b'n' ∷ b'u' ∷ b'e' ∷ []) continue_kw
    else if first == b'e'
    then check_keyword lex 1 (b'l' ∷ b's' ∷ b'e' ∷ []) else_kw
    else if first == b'f'
    then (if longer then after_f lex else identifier)
    else if first == b'i'
    then (if longer then after_i lex else identifier)
    else if first == b'l'
    then (if longer then after_l lex else identifier)
    else if first == b'n'
    then check_keyword lex 1 (b'i' ∷ b'l' ∷ []) nil_kw
    else if first == b'm'
    then check_keyword lex 1 (b'a' ∷ b't' ∷ b'c' ∷ b'h' ∷ []) match_kw
    else if first == b'o'
    then (if longer then after_o lex else identifier)
    else if first == b'r'
    then check_keyword lex 1 (b'e' ∷ b't' ∷ b'u' ∷ b'r' ∷ b'n' ∷ []) return_kw
    else if first == b's'
    then (if longer then after_s lex else identifier)
    else if first == b't'
    then check_keyword lex 1 (b'r' ∷ b'u' ∷ b'e' ∷ []) true_kw
    else if first == b'v'
    then check_keyword lex 1 (b'a' ∷ b'r' ∷ []) var_kw
    else if first == b'w'
    then check_keyword lex 1 (b'h' ∷ b'i' ∷ b'l' ∷ b'e' ∷ []) while_kw
    else if first == b'A'
    then check_keyword lex 1 (b'n' ∷ b'y' ∷ []) any_type
    else if first == b'B'
    then check_keyword lex 1 (b'o' ∷ b'o' ∷ b'l' ∷ []) bool_type
    else if first == b'C'
    then check_keyword lex 1 (b'h' ∷ b'a' ∷ b'r' ∷ []) char_type
    else if first == b'F'
    then (if longer then after_capital_f lex else identifier)
    else if first == b'I'
    then check_keyword lex 1 (b'n' ∷ b't' ∷ []) int_type
    else if first == b'N'
    then check_keyword lex 1 (b'i' ∷ b'l' ∷ []) nil_type
    else if first == b'S'
    then check_keyword lex 1 (b't' ∷ b'r' ∷ []) str_type
    else identifier
