-- ===== src/TypeInfo/Arithmetic.antt =====
-- What `type_check_arithmetic` accepts.
use tx_lang_cxx.Prelude.{
  Bool, true, false, Bool-cases, not, ◌&&◌, ◌||◌, ◌≡◌, refl, sym, inl, inr, if◌then◌else◌, arith,
}
use tx_lang_cxx.TypeInfo.{
  TypeInfo, integer, TypeSet, no_types, with_type, all_of, contains, has_equal, push_back, add,
  move_all_from,
}
use tx_lang_cxx.TypeInfo.Check.{
  is_empty, is_number, is_none, arithmetic_info, arithmetic_right, arithmetic_left,
  type_check_arithmetic,
}

-- Only numbers go on.
arithmetic_info-is_none :
    (l r : TypeInfo) → is_none (arithmetic_info l r) ≡ not (is_number l && is_number r)
arithmetic_info-is_none integer integer = refl
arithmetic_info-is_none integer r = ground arith
arithmetic_info-is_none l r = ground arith

arithmetic_info-number :
    (l r : TypeInfo)
    → is_none (arithmetic_info l r) ≡ false
    → is_number (arithmetic_info l r) ≡ true
arithmetic_info-number l r h = ground arith

is_empty-push_back : (ts : TypeSet) (t : TypeInfo) → is_empty (push_back ts t) ≡ false
is_empty-push_back no_types t = refl
is_empty-push_back (with_type u ts) t = refl

contains_of_empty : (ts : TypeSet) (t : TypeInfo) → contains ts t ≡ true → is_empty ts ≡ false
unfolding contains has_equal
contains_of_empty no_types t h = sym h
contains_of_empty (with_type u ts) t h = refl

is_empty-add : (ts : TypeSet) (t : TypeInfo) → is_empty (add ts t) ≡ false
unfolding add
is_empty-add ts t = elim (Bool-cases (contains ts t)) [
  | inl there ↦ rw there (contains_of_empty ts t there)
  | inr absent ↦ rw absent (is_empty-push_back ts t)
]

is_empty-move_all_from :
    (ts other : TypeSet) → is_empty (move_all_from ts other) ≡ (is_empty ts && is_empty other)
unfolding move_all_from
is_empty-move_all_from ts no_types = ground arith
is_empty-move_all_from ts (with_type t other) =
    ground (arith, is_empty-move_all_from (add ts t) other, is_empty-add ts t)

if_right :
    (stop l t : Bool) (ts added rest : TypeSet)
    → stop ≡ not (l && t)
    → is_empty rest ≡ (if is_empty ts then is_empty added else not (l && all_of is_number ts))
    → is_empty added ≡ false
    → is_empty (if stop then no_types else rest) ≡ not (l && (t && all_of is_number ts))
if_right true l t ts added rest e r a = ground arith
if_right false l t no_types added rest e r a = ground arith
if_right false l t (with_type u ts) added rest e r a = ground arith

if_left :
    (t : Bool) (ts rs result one rest : TypeSet)
    → is_empty one ≡ (if is_empty rs then true else not (t && all_of is_number rs))
    → is_empty rest ≡ (
        if is_empty ts
        then is_empty (move_all_from result one)
        else is_empty rs || not (all_of is_number ts && all_of is_number rs))
    → is_empty (move_all_from result one) ≡ (is_empty result && is_empty one)
    → is_empty (if is_empty one then no_types else rest)
      ≡ (is_empty rs || not ((t && all_of is_number ts) && all_of is_number rs))
if_left t no_types rs result one rest o r m = ground arith
if_left t (with_type u ts) rs result one rest o r m = ground arith

is_empty-arithmetic_right :
    (l : TypeInfo) (ts result : TypeSet)
    → is_empty (arithmetic_right l ts result)
      ≡ (if is_empty ts then is_empty result else not (is_number l && all_of is_number ts))
unfolding arithmetic_right
is_empty-arithmetic_right l no_types result = refl
is_empty-arithmetic_right l (with_type t ts) result =
    let rest = is_empty-arithmetic_right l ts (add result (arithmetic_info l t)) in
    let added = is_empty-add result (arithmetic_info l t) in
    let none_iff = arithmetic_info-is_none l t in
    if_right (is_none (arithmetic_info l t)) (is_number l) (is_number t) ts _ _ none_iff rest added

is_empty-arithmetic_left :
    (ls rs result : TypeSet)
    → is_empty (arithmetic_left ls rs result) ≡ (
        if is_empty ls
        then is_empty result
        else (is_empty rs || not (all_of is_number ls && all_of is_number rs)))
unfolding arithmetic_left
is_empty-arithmetic_left no_types rs result = refl
is_empty-arithmetic_left (with_type t ts) rs result =
    let one = is_empty-arithmetic_right t rs no_types in
    let rest =
      is_empty-arithmetic_left ts rs (move_all_from result (arithmetic_right t rs no_types)) in
    let moved = is_empty-move_all_from result (arithmetic_right t rs no_types) in
    if_left (is_number t) ts rs result (arithmetic_right t rs no_types) _ one rest moved

-- An operator of arithmetic is a type error exactly if an operand has no type, or one that is not a
-- number.
pub is_empty-type_check_arithmetic :
    (lhs rhs : TypeSet)
    → is_empty (type_check_arithmetic lhs rhs)
      ≡ (is_empty lhs || is_empty rhs || not (all_of is_number lhs && all_of is_number rhs))
unfolding type_check_arithmetic arithmetic_left
is_empty-type_check_arithmetic no_types rhs = refl
is_empty-type_check_arithmetic (with_type t ts) rhs =
    is_empty-arithmetic_left (with_type t ts) rhs no_types

all_of-push_back :
    (test : TypeInfo → Bool) (ts : TypeSet) (t : TypeInfo)
    → all_of test (push_back ts t) ≡ (all_of test ts && test t)
all_of-push_back test no_types t = ground arith
all_of-push_back test (with_type u ts) t = ground (arith, all_of-push_back test ts t)

all_of-add :
    (test : TypeInfo → Bool) (ts : TypeSet) (t : TypeInfo)
    → all_of test ts ≡ true
    → test t ≡ true
    → all_of test (add ts t) ≡ true
unfolding add
all_of-add test ts t all one = elim (Bool-cases (contains ts t)) [
  | inl there ↦ rw there all
  | inr absent ↦ rw (absent, all_of-push_back test ts t, all, one) refl
]

all_of-move_all_from :
    (test : TypeInfo → Bool) (ts other : TypeSet)
    → all_of test ts ≡ true
    → all_of test other ≡ true
    → all_of test (move_all_from ts other) ≡ true
unfolding move_all_from
all_of-move_all_from test ts no_types all more = all
all_of-move_all_from test ts (with_type t other) all more =
    let (one, rest) : (test t ≡ true) × (all_of test other ≡ true) = (ground arith, ground arith) in
    all_of-move_all_from test (add ts t) other (all_of-add test ts t all one) rest

all_of-arithmetic_right :
    (l : TypeInfo) (ts result : TypeSet)
    → all_of is_number result ≡ true
    → all_of is_number (arithmetic_right l ts result) ≡ true
unfolding arithmetic_right
all_of-arithmetic_right l no_types result all = all
all_of-arithmetic_right l (with_type t ts) result all =
    elim (Bool-cases (is_none (arithmetic_info l t))) [
      | inl stop ↦ rw stop refl
      | inr go ↦ rw go (
          all_of-arithmetic_right l ts (add result (arithmetic_info l t))
            (all_of-add is_number result (arithmetic_info l t) all (arithmetic_info-number l t go)))
    ]

all_of-arithmetic_left :
    (ls rs result : TypeSet)
    → all_of is_number result ≡ true
    → all_of is_number (arithmetic_left ls rs result) ≡ true
unfolding arithmetic_left
all_of-arithmetic_left no_types rs result all = all
all_of-arithmetic_left (with_type t ts) rs result all =
    elim (Bool-cases (is_empty (arithmetic_right t rs no_types))) [
      | inl stop ↦ rw stop refl
      | inr go ↦ rw go (
          all_of-arithmetic_left ts rs (move_all_from result (arithmetic_right t rs no_types)) (
            all_of-move_all_from is_number result (arithmetic_right t rs no_types) all
              (all_of-arithmetic_right t rs no_types refl)))
    ]

-- The types of the result of an operator of arithmetic are numbers, so it is an operand of arithmetic
-- again.
pub all_of-type_check_arithmetic :
    (lhs rhs : TypeSet) → all_of is_number (type_check_arithmetic lhs rhs) ≡ true
unfolding type_check_arithmetic
all_of-type_check_arithmetic lhs rhs = all_of-arithmetic_left lhs rhs no_types refl
