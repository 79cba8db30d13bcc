-- ===== src/DynArray.antt =====
-- The class template `DynArray` of tx-runtime/include/tx/dyn_array.hxx. The cells stand for the memory
-- from `data_ptr` on, so that their number is the capacity; `blank` is what memory without an element
-- holds. A pointer into the array is an index.
pub mod Elements
use tx_lang_cxx.Prelude.{
  ℕ, zero, suc, ◌+◌, ◌-◌, Bool, true, false, not, ◌&&◌, List, [], ◌∷◌, ◌++◌, length, get_or, set,
  replicate, ltb, leb, ◌==◌, if◌then◌else◌,
}
use tx_lang_cxx.HashMap.{grow_capacity}

pub record DynArray (A : Type 0) : Type 0 where
  pub count : ℕ
  pub cells : List A

module _ {A : Type 0} where
  -- the loop of `std::ranges::move` over so many elements, towards the front
  move_cells : A → List A → ℕ → ℕ → ℕ → List A
  move_cells blank cells from to zero = cells
  move_cells blank cells from to (suc n) =
      move_cells blank (set cells to (get_or cells from blank)) (from + 1) (to + 1) n

  -- the loop of `std::uninitialized_fill_n`
  fill_cells : List A → ℕ → ℕ → A → List A
  fill_cells cells at zero val = cells
  fill_cells cells at (suc n) val = fill_cells (set cells at val) (at + 1) n val

  unfoldable pub clear : DynArray A → DynArray A
  clear a = record a { count = 0 }

module _ {A : Type 0} (blank : A) where
  unfoldable pub reserve : DynArray A → ℕ → DynArray A
  reserve a new_cap =
      let grown = a.cells ++ replicate (new_cap - length a.cells) blank in
      if leb new_cap (length a.cells) then a else (record a { cells = grown })

  unfoldable pub push_back : DynArray A → A → DynArray A
  unfolding reserve
  push_back a value =
      let a' =
        if length a.cells == a.count then reserve a (grow_capacity (length a.cells)) else a in
      record { count = a.count + 1; cells = set a'.cells a.count value }

  unfoldable pub pop_back : DynArray A → DynArray A
  pop_back a = record a { count = a.count - 1 }

  unfoldable pub resize : DynArray A → ℕ → A → DynArray A
  unfolding reserve fill_cells
  resize a new_size val =
      let a' = if ltb (length a.cells) new_size then reserve a new_size else a in
      let filled = fill_cells a'.cells a.count (new_size - a.count) val in
      if ltb a.count new_size
      then record { count = new_size; cells = filled }
      else if ltb new_size a.count
      then (record a' { count = new_size })
      else a'

  -- What it returns is where the elements behind the range began before the move.
  unfoldable pub erase : DynArray A → ℕ → ℕ → ℕ × DynArray A
  unfolding move_cells
  erase a first last = (
    last,
    record {
      count = a.count - (last - first);
      cells = move_cells blank a.cells last first (a.count - last);
    },
  )
