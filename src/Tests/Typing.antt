-- ===== src/Tests/Typing.antt =====
-- Static types.
use tx_lang_cxx.Prelude.{ℕ, ◌+◌, some}
use tx_lang_cxx.Prelude.Int.{pos}
use tx_lang_cxx.Value.{Value}
use tx_lang_cxx.Operators.{Op}
use tx_lang_cxx.Prelude.{true, not, ◌&&◌, ◌||◌, ◌≡◌}
use tx_lang_cxx.TypeInfo.{
  integer, float, string, function, TypeSet, no_types, with_type, no_sets, with_set, all_of,
  set_equal, assign_sets,
}
use tx_lang_cxx.TypeInfo.Check.{is_empty, is_number, type_check_arithmetic}
use tx_lang_cxx.TypeInfo.Arithmetic.{is_empty-type_check_arithmetic, all_of-type_check_arithmetic}
use tx_lang_cxx.TypeInfo.Reflexive.{assign_sets_refl}

abbrev numbers : TypeSet
numbers = with_type integer (with_type float no_types)

abbrev number_or_text : TypeSet
number_or_text = with_type float (with_type string no_types)

-- a function from a function on numbers to numbers
abbrev higher : TypeSet
higher =
    with_type
      (function
        (with_set (with_type (function (with_set numbers no_sets) number_or_text) no_types) no_sets)
        numbers)
      no_types

is_empty-type_check_arithmetic_example : is_empty (type_check_arithmetic numbers number_or_text) ≡ (
    is_empty numbers
    || is_empty number_or_text
    || not (all_of is_number numbers && all_of is_number number_or_text))
is_empty-type_check_arithmetic_example = is_empty-type_check_arithmetic numbers number_or_text

all_of-type_check_arithmetic_example :
    all_of is_number (type_check_arithmetic numbers numbers) ≡ true
all_of-type_check_arithmetic_example = all_of-type_check_arithmetic numbers numbers

assign_sets_refl_example : (set_equal higher higher ≡ true) × (assign_sets higher higher ≡ true)
assign_sets_refl_example = assign_sets_refl higher

-- addition on numbers that stand for floating point numbers
abbrev plus : Op ℕ
plus = record { on_int = λ a b. some (Value.integer a); on_float = λ x y. Value.scalar (x + y) }

abbrev three : Value ℕ
three = Value.integer (pos 3)

abbrev four : Value ℕ
four = Value.scalar 4
