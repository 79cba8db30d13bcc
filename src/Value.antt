-- ===== src/Value.antt =====
-- tx-runtime/include/tx/value.hxx: the tagged union `Value`. `F` is the type of the floating point
-- numbers (`float_t`), whose operations are those of the machine and stay a parameter; an object is
-- its address.
use tx_lang_cxx.Prelude.{ℕ, Bool, true, false, not, ◌||◌, ◌==◌}
use tx_lang_cxx.Prelude.Int.{ℤ, pos, negsuc}

-- `val_none` is the empty value, which no program computes; `val_nil` is `nil`.
pub data Value (F : Type 0) : Type 0 where
  val_none val_nil : Value F
  boolean : Bool → Value F
  integer : ℤ → Value F
  scalar : F → Value F
  chr : ℕ → Value F
  obj : ℕ → Value F

module _ {F : Type 0} where
  unfoldable pub is_nil : Value F → Bool
  is_nil val_nil = true
  is_nil _ = false

  unfoldable pub is_falsey : Value F → Bool
  is_falsey val_nil = true
  is_falsey (boolean b) = not b
  is_falsey _ = false

  unfoldable pub is_bool : Value F → Bool
  is_bool (boolean b) = true
  is_bool _ = false

  unfoldable pub is_int : Value F → Bool
  is_int (integer n) = true
  is_int _ = false

  unfoldable pub is_float : Value F → Bool
  is_float (scalar x) = true
  is_float _ = false

  unfoldable pub is_number : Value F → Bool
  unfolding is_float is_int
  is_number v = is_float v || is_int v

  unfoldable pub is_object : Value F → Bool
  is_object (obj o) = true
  is_object _ = false

bool_equal : Bool → Bool → Bool
bool_equal true b = b
bool_equal false b = not b

int_equal : ℤ → ℤ → Bool
int_equal (pos m) (pos n) = m == n
int_equal (negsuc m) (negsuc n) = m == n
int_equal _ _ = false

module _ {F : Type 0} (float_equal : F → F → Bool) where
  -- `operator==`; objects are compared by their addresses
  unfoldable pub equal : Value F → Value F → Bool
  unfolding bool_equal int_equal
  equal val_none val_none = true
  equal val_nil val_nil = true
  equal (boolean a) (boolean b) = bool_equal a b
  equal (integer a) (integer b) = int_equal a b
  equal (scalar a) (scalar b) = float_equal a b
  equal (chr a) (chr b) = a == b
  equal (obj a) (obj b) = a == b
  equal lhs rhs = false
