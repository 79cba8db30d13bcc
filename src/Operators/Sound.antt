-- ===== src/Operators/Sound.antt =====
-- The operators of the machine on operands that the type checker accepts.
use tx_lang_cxx.Prelude.{◌≡◌, ◌⊎◌, false}
use tx_lang_cxx.Value
use tx_lang_cxx.Value.{Value, is_int, is_float}
use tx_lang_cxx.TypeInfo.{TypeInfo, TypeSet, no_types, with_type}
use tx_lang_cxx.TypeInfo.Check
use tx_lang_cxx.TypeInfo.Check.{type_check_negate}

module _ {F : Type 0} where
  -- A value belongs to a type: an integer also where a float is declared, to which it may be assigned,
  -- and what is not a number to no type of numbers.
  abbrev pub HasType : Value F → TypeInfo → Type 0
  HasType (Value.integer n) t = (t ≡ TypeInfo.integer) ⊎ ((t ≡ TypeInfo.float) ⊎ (t ≡ TypeInfo.any))
  HasType (Value.scalar x) t = (t ≡ TypeInfo.float) ⊎ (t ≡ TypeInfo.any)
  HasType v t = Check.is_number t ≡ false

  abbrev pub HasTypeIn : Value F → TypeSet → Type 0
  HasTypeIn v no_types = ⊥
  HasTypeIn v (with_type t ts) = HasType v t ⊎ HasTypeIn v ts
