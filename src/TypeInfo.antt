-- ===== src/TypeInfo.antt =====
-- Static types: `TypeInfo` and `TypeSet` of tx-runtime/include/tx/type.hxx, with the checks of
-- type_inl.hxx. `std::ranges::find` puts an element of the set on the left of `==`, and parameters
-- are assigned from the other side, so that the recursion changes sides at each level: a function
-- with `_from_right` has the operands of the source in the other order, and recurs on the operand
-- that is on the right in the source.

pub mod Check
pub mod Arithmetic
pub mod Reflexive
use tx_lang_cxx.Prelude.{ℕ, zero, suc, ◌+◌, Bool, true, false, not, ◌&&◌, ◌||◌, ◌==◌, if◌then◌else◌}

mutual
  pub data TypeInfo : Type 0 where
    none_type any nil boolean integer float character string : TypeInfo
    function : TypeSetArray → TypeSet → TypeInfo

  pub data TypeSet : Type 0 where
    no_types : TypeSet
    with_type : TypeInfo → TypeSet → TypeSet

  pub data TypeSetArray : Type 0 where
    no_sets : TypeSetArray
    with_set : TypeSet → TypeSetArray → TypeSetArray

-- the number behind `TypeInfo::Type`
unfoldable pub type_tag : TypeInfo → ℕ
type_tag none_type = 0
type_tag any = 1
type_tag nil = 2
type_tag boolean = 3
type_tag integer = 4
type_tag float = 5
type_tag character = 6
type_tag (function ps r) = 7
type_tag string = 8

-- `std::ranges::all_of`, and `std::ranges::find_if` short of the end
abbrev pub all_of : (TypeInfo → Bool) → TypeSet → Bool
all_of test no_types = true
all_of test (with_type t ts) = test t && all_of test ts

abbrev pub any_of : (TypeInfo → Bool) → TypeSet → Bool
any_of test no_types = false
any_of test (with_type t ts) = test t || any_of test ts

abbrev pub size : TypeSet → ℕ
size no_types = 0
size (with_type t ts) = suc (size ts)

abbrev pub sets_size : TypeSetArray → ℕ
sets_size no_sets = 0
sets_size (with_set s ss) = suc (sets_size ss)

unfoldable mutual
  -- `operator==` of two types, `lhs == rhs` and `rhs == lhs`
  pub info_equal : TypeInfo → TypeInfo → Bool
  info_equal (function ps r) (function ps' r') =
      arrays_equal ps ps' && (size r == size r' && all_contained r r')
  info_equal lhs rhs = type_tag lhs == type_tag rhs

  pub info_equal_from_right : TypeInfo → TypeInfo → Bool
  info_equal_from_right (function ps r) (function ps' r') =
      arrays_equal_from_right ps ps' && (size r' == size r && all_of (has_equal r) r')
  info_equal_from_right rhs lhs = type_tag lhs == type_tag rhs

  -- whether the right set contains each type of the left
  pub all_contained : TypeSet → TypeSet → Bool
  all_contained no_types rhs = true
  all_contained (with_type t ts) rhs = any_of (info_equal_from_right t) rhs && all_contained ts rhs

  -- whether a type of the set is equal to the value
  pub has_equal : TypeSet → TypeInfo → Bool
  has_equal no_types val = false
  has_equal (with_type t ts) val = info_equal t val || has_equal ts val

  pub arrays_equal : TypeSetArray → TypeSetArray → Bool
  arrays_equal no_sets no_sets = true
  arrays_equal (with_set s ss) (with_set s' ss') =
      (size s == size s' && all_contained s s') && arrays_equal ss ss'
  arrays_equal lhs rhs = false

  pub arrays_equal_from_right : TypeSetArray → TypeSetArray → Bool
  arrays_equal_from_right no_sets no_sets = true
  arrays_equal_from_right (with_set s ss) (with_set s' ss') =
      (size s' == size s && all_of (has_equal s) s') && arrays_equal_from_right ss ss'
  arrays_equal_from_right rhs lhs = false

-- `operator==` of two sets: as many types, and `rhs` contains each type of `lhs`
unfoldable pub set_equal : TypeSet → TypeSet → Bool
set_equal lhs rhs = size lhs == size rhs && all_contained lhs rhs

-- `TypeSet::contains`
unfoldable pub contains : TypeSet → TypeInfo → Bool
contains types val = has_equal types val

abbrev pub push_back : TypeSet → TypeInfo → TypeSet
push_back no_types val = with_type val no_types
push_back (with_type t ts) val = with_type t (push_back ts val)

unfoldable pub add : TypeSet → TypeInfo → TypeSet
add types val = if contains types val then types else push_back types val

unfoldable pub move_all_from : TypeSet → TypeSet → TypeSet
move_all_from types no_types = types
move_all_from types (with_type t other) = move_all_from (add types t) other

unfoldable pub is_nil : TypeSet → Bool
is_nil types = size types == 1 && all_of (λ t. info_equal t nil) types

unfoldable mutual
  -- `type_check_assign` of two types, with the target first and with the source first
  pub check_assign : TypeInfo → TypeInfo → Bool
  check_assign any rhs = true
  check_assign float integer = true
  check_assign (function ps r) (function ps' r') =
      info_equal (function ps r) (function ps' r') || params_from_right ps ps'
  check_assign lhs rhs = type_tag lhs == type_tag rhs

  pub check_assign_from_right : TypeInfo → TypeInfo → Bool
  check_assign_from_right rhs any = true
  check_assign_from_right integer float = true
  check_assign_from_right (function ps r) (function ps' r') =
      info_equal_from_right (function ps r) (function ps' r') || params ps ps'
  check_assign_from_right rhs lhs = type_tag lhs == type_tag rhs

  -- whether a type of the set takes the source
  pub fits : TypeSet → TypeInfo → Bool
  fits no_types rhs = false
  fits (with_type t ts) rhs = check_assign t rhs || fits ts rhs

  pub assign_sets_from_right : TypeSet → TypeSet → Bool
  assign_sets_from_right no_types lhs = true
  assign_sets_from_right (with_type t ts) lhs =
      any_of (check_assign_from_right t) lhs && assign_sets_from_right ts lhs

  -- The parameters: the first operand's take the second's, and the other way round.
  pub params : TypeSetArray → TypeSetArray → Bool
  params no_sets no_sets = true
  params (with_set s ss) (with_set s' ss') = all_of (fits s) s' && params ss ss'
  params ss ss' = false

  pub params_from_right : TypeSetArray → TypeSetArray → Bool
  params_from_right no_sets no_sets = true
  params_from_right (with_set s ss) (with_set s' ss') =
      assign_sets_from_right s s' && params_from_right ss ss'
  params_from_right ss ss' = false

-- `type_check_assign` of two sets: each type of the source fits into one of the target
unfoldable pub assign_sets : TypeSet → TypeSet → Bool
assign_sets lhs rhs = all_of (fits lhs) rhs
