-- ===== src/Upvalues.antt =====
-- The list of open upvalues of the class `VM`, `capture_upvalue` and `close_upvalues` of
-- tx-runtime/include/tx/vm_inl.hxx. A location is an index into the stack. An upvalue that is open is
-- an entry of the linked list, and one that is closed stands with its value in `closed`.
pub mod Locations
use tx_lang_cxx.Prelude.{ℕ, Bool, List, [], ◌∷◌, get_or, ltb, leb, ◌==◌, if◌then◌else◌}

pub record OpenUpvalue : Type 0 where
  pub object : ℕ
  pub location : ℕ

pub record ClosedUpvalue (V : Type 0) : Type 0 where
  pub object : ℕ
  pub value : V

pub record Upvalues (V : Type 0) : Type 0 where
  pub open_upvalues : List OpenUpvalue
  pub closed : List (ClosedUpvalue V)

-- The search of `capture_upvalue` and the insertion where it stops. `created` is the object that
-- `allocate_object` returns if it is called.
capture_in : ℕ → ℕ → List OpenUpvalue → ℕ × List OpenUpvalue
capture_in created local [] = (created, record { object = created; location = local } ∷ [])
capture_in created local (upvalue ∷ upvalues) =
    let (object, rest) = capture_in created local upvalues in
    if ltb local upvalue.location
    then (object, upvalue ∷ rest)
    else if upvalue.location == local
    then (upvalue.object, upvalue ∷ upvalues)
    else (created, record { object = created; location = local } ∷ upvalue ∷ upvalues)

module _ {V : Type 0} where
  unfoldable pub capture_upvalue : Upvalues V → ℕ → ℕ → ℕ × Upvalues V
  unfolding capture_in
  capture_upvalue s local created =
      let (object, upvalues) = capture_in created local s.open_upvalues in
      (object, record s { open_upvalues = upvalues })

  -- the loop of `close_upvalues`
  close_loop :
      V
      → List V
      → ℕ
      → List OpenUpvalue
      → List (ClosedUpvalue V)
      → List OpenUpvalue × List (ClosedUpvalue V)
  close_loop blank stack last [] closed = ([], closed)
  close_loop blank stack last (upvalue ∷ upvalues) closed =
      let value = get_or stack upvalue.location blank in
      let more =
        close_loop blank stack last upvalues
          (record { object = upvalue.object; value = value } ∷ closed) in
      if leb last upvalue.location then more else (upvalue ∷ upvalues, closed)

  unfoldable pub close_upvalues : V → List V → ℕ → Upvalues V → Upvalues V
  unfolding close_loop
  close_upvalues blank stack last s =
      let (upvalues, closed) = close_loop blank stack last s.open_upvalues s.closed in
      record s { open_upvalues = upvalues; closed = closed }
