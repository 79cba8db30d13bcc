-- ===== src/Operators.antt =====
-- The operators on the stack of the class `VM`: `peek` and `pop` of tx-runtime/include/tx/vm.hxx,
-- `negate_op` and `binary_op` of vm_inl.hxx. The head of the list is the back of the stack. The
-- template parameter of `binary_op` is `Op`; `none` is undefined behaviour of the operator, as on
-- overflow. `divide` is the instruction DIVIDE of `run`, which tests for the integer 0 first.
pub mod Sound
use Prim.Native.String.{String}
use tx_lang_cxx.Prelude.{
  Bool, true, false, not, ◌&&◌, ◌||◌, Option, none, some, List, [], ◌∷◌, ◌==◌, if◌then◌else◌,
}
use tx_lang_cxx.Prelude.Int.{ℤ, pos, negsuc}
use tx_lang_cxx.Value
use tx_lang_cxx.Value.{Value, is_int, is_float, is_number}

pub record Op (F : Type 0) : Type 0 where
  pub on_int : ℤ → ℤ → Option (Value F)
  pub on_float : F → F → Value F

pub data OpResult (F : Type 0) : Type 0 where
  done : List (Value F) → OpResult F
  runtime_error : String → OpResult F
  undefined : OpResult F

abbrev pub is_zero : ℤ → Bool
is_zero (pos n) = n == 0
is_zero (negsuc n) = false

module _ {F : Type 0} where
  abbrev pub push_result : List (Value F) → Option (Value F) → OpResult F
  push_result stack none = undefined
  push_result stack (some v) = done (v ∷ stack)

  -- the test of `DIVIDE`: both are integers, and the divisor is 0
  abbrev pub divides_by_zero : Value F → Value F → Bool
  divides_by_zero (Value.integer r) (Value.integer l) = is_zero r
  divides_by_zero _ _ = false

  module _ (to_float : ℤ → F) where
    -- `as_float_force`
    abbrev pub as_float_force : Value F → Option F
    as_float_force (Value.integer n) = some (to_float n)
    as_float_force (Value.scalar x) = some x
    as_float_force _ = none

    abbrev pub float_result : Op F → Option F → Option F → Option (Value F)
    float_result op (some l) (some r) = some (op.on_float l r)
    float_result op _ _ = none

    abbrev pub int_or_float : Op F → Value F → Value F → Option (Value F)
    int_or_float op (Value.integer l) (Value.integer r) = op.on_int l r
    int_or_float op l r = float_result op (as_float_force l) (as_float_force r)

    -- A stack with fewer than two values is undefined.
    unfoldable pub binary_op : Op F → List (Value F) → OpResult F
    binary_op op (rhs ∷ lhs ∷ stack) =
        if not (is_number rhs) || not (is_number lhs)
        then runtime_error "Operands must be numbers."
        else push_result stack (int_or_float op lhs rhs)
    binary_op op _ = undefined

    -- `TX_VM_CASE(DIVIDE)`, where the operator is `std::divides`
    unfoldable pub divide : Op F → List (Value F) → OpResult F
    divide op (rhs ∷ lhs ∷ stack) =
        if divides_by_zero rhs lhs
        then runtime_error "Integer division by zero."
        else binary_op op (rhs ∷ lhs ∷ stack)
    divide op _ = undefined

  unfoldable pub negate_op : (ℤ → Option ℤ) → (F → F) → List (Value F) → OpResult F
  negate_op negate_int negate_float (Value.integer n ∷ stack) = elim (negate_int n) [
    | none ↦ undefined
    | some m ↦ done (Value.integer m ∷ stack)
  ]
  negate_op negate_int negate_float (Value.scalar x ∷ stack) =
      done (Value.scalar (negate_float x) ∷ stack)
  negate_op negate_int negate_float (v ∷ stack) = runtime_error "Operand must be a number."
  negate_op negate_int negate_float [] = undefined
