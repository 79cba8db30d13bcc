-- ===== src/TypeInfo/Check.antt =====
-- The checks of operators, calls and casts of tx-runtime/include/tx/type_inl.hxx. An empty set of
-- types is a type error.
use tx_lang_cxx.Prelude.{Bool, true, false, not, ◌&&◌, Option, none, some, ◌==◌, if◌then◌else◌}
use tx_lang_cxx.TokenType.{TokenType}
use tx_lang_cxx.TypeInfo.{
  TypeInfo, none_type, any, boolean, integer, float, function, TypeSet, no_types, with_type,
  TypeSetArray, with_set, all_of, any_of, sets_size, contains, add, move_all_from, fits,
  assign_sets,
}

abbrev pub is_empty : TypeSet → Bool
is_empty no_types = true
is_empty (with_type t ts) = false

abbrev pub is_number : TypeInfo → Bool
is_number integer = true
is_number float = true
is_number _ = false

unfoldable pub type_check_comparison : TypeSet → TypeSet → Bool
type_check_comparison lhs rhs = all_of (λ l. all_of (λ r. is_number l && is_number r) rhs) lhs

-- `type_check_arithmetic` of two types
abbrev pub arithmetic_info : TypeInfo → TypeInfo → TypeInfo
arithmetic_info integer integer = integer
arithmetic_info lhs rhs = if is_number lhs && is_number rhs then float else none_type

abbrev pub is_none : TypeInfo → Bool
is_none none_type = true
is_none _ = false

-- the loop over the types on the right
unfoldable pub arithmetic_right : TypeInfo → TypeSet → TypeSet → TypeSet
arithmetic_right lhs no_types result = result
arithmetic_right lhs (with_type t ts) result =
    let type = arithmetic_info lhs t in
    let rest = arithmetic_right lhs ts (add result type) in if is_none type then no_types else rest

-- the loop over the types on the left
unfoldable pub arithmetic_left : TypeSet → TypeSet → TypeSet → TypeSet
arithmetic_left no_types rhs result = result
arithmetic_left (with_type t ts) rhs result =
    let type_set = arithmetic_right t rhs no_types in
    let rest = arithmetic_left ts rhs (move_all_from result type_set) in
    if is_empty type_set then no_types else rest

unfoldable pub type_check_arithmetic : TypeSet → TypeSet → TypeSet
type_check_arithmetic lhs rhs = arithmetic_left lhs rhs no_types

unfoldable pub type_check_negate : TypeSet → Bool
type_check_negate rhs = all_of is_number rhs

-- `none` is the unreachable default
unfoldable pub type_check_binary : TokenType → TypeSet → TypeSet → Option TypeSet
type_check_binary token_type lhs rhs =
    let bool_type = with_type boolean no_types in
    let comparison = if not (type_check_comparison lhs rhs) then no_types else bool_type in
    elim token_type [
      | TokenType.bang_equal ↦ some bool_type
      | TokenType.equal_equal ↦ some bool_type
      | TokenType.left_chevron ↦ some comparison
      | TokenType.less_equal ↦ some comparison
      | TokenType.right_chevron ↦ some comparison
      | TokenType.greater_equal ↦ some comparison
      | TokenType.plus ↦ some (type_check_arithmetic lhs rhs)
      | TokenType.minus ↦ some (type_check_arithmetic lhs rhs)
      | TokenType.star ↦ some (type_check_arithmetic lhs rhs)
      | TokenType.slash ↦ some (type_check_arithmetic lhs rhs)
      | _ ↦ none
    ]

-- the loop over parameters and arguments, of which there are as many
abbrev pub args_fit : TypeSetArray → TypeSetArray → Bool
args_fit (with_set p ps) (with_set a args) = assign_sets p a && args_fit ps args
args_fit _ _ = true

-- `type_check_call` of one callee
unfoldable pub call_info : TypeInfo → TypeSetArray → TypeSet
call_info (function ps r) args =
    if not (sets_size ps == sets_size args)
    then no_types
    else if args_fit ps args
    then r
    else no_types
call_info callee args = no_types

abbrev pub call_loop : TypeSet → TypeSetArray → TypeSet → TypeSet
call_loop no_types args result = result
call_loop (with_type t ts) args result =
    let type_set = call_info t args in
    let rest = call_loop ts args (move_all_from result type_set) in
    if is_empty type_set then no_types else rest

unfoldable pub type_check_call : TypeSet → TypeSetArray → TypeSet
type_check_call callee args = call_loop callee args no_types

unfoldable pub type_check_cast : TypeSet → TypeSet → Bool
type_check_cast src dst = if contains src any then true else any_of (fits dst) src
