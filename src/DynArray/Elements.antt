-- ===== src/DynArray/Elements.antt =====
-- The elements behind each operation of an array.
use native.Mathlib.Decide.{ℕ_discrete, dec_lt}
use tx_lang_cxx.Prelude.{
  ℕ, zero, suc, ◌+◌, ◌-◌, ◌≤◌, ◌<◌, ◌≡◌, refl, sym, ap, ◌∙◌, inl, inr, Bool-cases, ◌&&◌, List, [],
  ◌∷◌, ◌++◌, length, length-append, length-set, length-replicate, get_or, get_or-set_self,
  get_or-set_ne, set, replicate, ltb, leb, ◌==◌, if◌then◌else◌, arith,
}
use tx_lang_cxx.HashMap.{grow_capacity}
use tx_lang_cxx.DynArray.{DynArray, move_cells, fill_cells, reserve, push_back, resize, erase}

module _ {A : Type 0} (blank : A) where
  -- the element at an index
  abbrev pub element : DynArray A → ℕ → A
  element a i = get_or a.cells i blank

  -- No more elements than cells.
  abbrev pub IsWithin : DynArray A → Type 0
  IsWithin a = a.count ≤ length a.cells

  length-move_cells :
      (cells : List A) (from to n : ℕ) → length (move_cells blank cells from to n) ≡ length cells
  unfolding move_cells
  length-move_cells cells from to zero = refl
  length-move_cells cells from to (suc n) =
      length-move_cells (set cells to (get_or cells from blank)) (from + 1) (to + 1) n
      ∙ length-set cells to (get_or cells from blank)

  get_or-move_cells :
      (cells : List A) (from to n j : ℕ)
      → to < from
      → from + n ≤ length cells
      → get_or (move_cells blank cells from to n) j blank ≡ (
          if leb to j && ltb j (to + n)
          then get_or cells (from + (j - to)) blank
          else get_or cells j blank)
  unfolding move_cells
  get_or-move_cells cells from to zero j lt fits = ground arith
  get_or-move_cells cells from to (suc n) j lt fits =
      let v = get_or cells from blank in
      let moved = set cells to v in
      let rest =
        get_or-move_cells moved (from + 1) (to + 1) n j (omega arith)
          (omega (arith, length-set cells to v)) in
      elim (ℕ_discrete to j) [
        | yes here ↦
            let first = get_or-set_self cells to v blank (omega arith) in
            let at_j : get_or moved j blank ≡ v =
              ap (λ i. get_or moved i blank) (sym here) ∙ first in
            let index : from + (j - to) ≡ from = omega arith in
            ground (arith, rest, at_j, ap (λ i. get_or cells i blank) index)
        | no away ↦ elim (dec_lt j to) [
          | yes before ↦ ground (arith, rest, get_or-set_ne cells to j v blank away)
          | no behind ↦
              let index : from + 1 + (j - (to + 1)) ≡ from + (j - to) = omega arith in
              let same = get_or-set_ne cells to (from + (j - to)) v blank (omega arith) in
              ground (
                arith,
                rest,
                get_or-set_ne cells to j v blank away,
                ap (λ i. get_or moved i blank) index ∙ same,
              )
        ]
      ]

  -- `erase` closes the gap: the elements before the range stay, and those behind it follow.
  pub element-erase :
      (a : DynArray A) (first last : ℕ)
      → IsWithin a
      → first < last
      → last ≤ a.count
      → let after = (erase blank a first last).1 in
        (after.count + (last - first) ≡ a.count)
        × IsWithin after
        × ((i : ℕ)
            → i < after.count
            → element after i
              ≡ (if ltb i first then element a i else element a (i + (last - first))))
  unfolding erase
  element-erase a first last within lt le = (
    omega arith,
    omega (arith, length-move_cells a.cells last first (a.count - last)),
    λ i inside.
        let moved = get_or-move_cells a.cells last first (a.count - last) i lt (omega arith) in
        elim (dec_lt i first) [
          | yes before ↦ ground (arith, moved)
          | no behind ↦
              let index : last + (i - first) ≡ i + (last - first) = omega arith in
              ground (arith, moved, ap (λ j. get_or a.cells j blank) index)
        ],
  )

  get_or-append :
      (xs ys : List A) (i : ℕ) → i < length xs → get_or (xs ++ ys) i blank ≡ get_or xs i blank
  get_or-append [] ys i lt = absurd (omega arith)
  get_or-append (x ∷ xs) ys zero lt = refl
  get_or-append (x ∷ xs) ys (suc i) lt = get_or-append xs ys i (omega arith)

  -- `reserve` gives room, and keeps the elements.
  reserve_lem :
      (a : DynArray A) (new_cap : ℕ)
      → ((reserve blank a new_cap).count ≡ a.count)
        × (new_cap ≤ length (reserve blank a new_cap).cells)
        × (length a.cells ≤ length (reserve blank a new_cap).cells)
        × ((i : ℕ) → i < length a.cells → element (reserve blank a new_cap) i ≡ element a i)
  unfolding reserve
  reserve_lem a new_cap = elim (Bool-cases (leb new_cap (length a.cells))) [
    | inl enough ↦ rw enough (refl, ground arith, omega arith, λ i _. refl)
    | inr short ↦
        let more = replicate (new_cap - length a.cells) blank in
        let size = length-append a.cells more in
        let room = length-replicate (new_cap - length a.cells) blank in
        rw short (
          refl,
          omega (arith, size, room),
          omega (arith, size),
          λ i lt. get_or-append a.cells more i lt,
        )
  ]

  grow_capacity-grows : (capacity : ℕ) → capacity < grow_capacity capacity
  unfolding grow_capacity
  grow_capacity-grows capacity = ground arith

  -- `push_back` puts the value behind the elements, which stay, and grows the memory if it is full.
  pub element-push_back :
      (a : DynArray A) (value : A)
      → IsWithin a
      → let after = push_back blank a value in
        (after.count ≡ a.count + 1)
        × IsWithin after
        × ((i : ℕ)
            → i < after.count
            → element after i ≡ (if i == a.count then value else element a i))
  unfolding push_back
  element-push_back a value within =
      let a' =
        if length a.cells == a.count then reserve blank a (grow_capacity (length a.cells)) else a in
      let grown = reserve_lem a (grow_capacity (length a.cells)) in
      let wider = grow_capacity-grows (length a.cells) in
      let room : a.count < length a'.cells = ground (arith, grown.1, wider) in
      let kept : (i : ℕ) → i < a.count → element a' i ≡ element a i =
        λ i lt. ground (arith, grown.3 i (omega arith)) in
      (
        refl,
        omega (arith, room, length-set a'.cells a.count value),
        λ i inside. elim (ℕ_discrete a.count i) [
          | yes here ↦
              let last = get_or-set_self a'.cells a.count value blank room in
              let at_i = ap (λ j. get_or (set a'.cells a.count value) j blank) here in
              ground (arith, last, at_i)
          | no away ↦
              let other = get_or-set_ne a'.cells a.count i value blank away in
              ground (arith, other, kept i (omega arith))
        ],
      )

  length-fill_cells :
      (cells : List A) (at n : ℕ) (val : A) → length (fill_cells cells at n val) ≡ length cells
  unfolding fill_cells
  length-fill_cells cells at zero val = refl
  length-fill_cells cells at (suc n) val =
      length-fill_cells (set cells at val) (at + 1) n val ∙ length-set cells at val

  get_or-fill_cells :
      (cells : List A) (at n j : ℕ) (val : A)
      → at + n ≤ length cells
      → get_or (fill_cells cells at n val) j blank
        ≡ (if leb at j && ltb j (at + n) then val else get_or cells j blank)
  unfolding fill_cells
  get_or-fill_cells cells at zero j val fits = ground arith
  get_or-fill_cells cells at (suc n) j val fits =
      let rest =
        get_or-fill_cells (set cells at val) (at + 1) n j val
          (omega (arith, length-set cells at val)) in
      elim (ℕ_discrete at j) [
        | yes here ↦
            let first = get_or-set_self cells at val blank (omega arith) in
            let at_j = ap (λ i. get_or (set cells at val) i blank) here in
            ground (arith, rest, first, at_j)
        | no away ↦ ground (arith, rest, get_or-set_ne cells at j val blank away)
      ]

  -- `resize` keeps the elements that are there before and after, and fills the others with the value.
  pub element-resize :
      (a : DynArray A) (new_size : ℕ) (val : A)
      → IsWithin a
      → let after = resize blank a new_size val in
        (after.count ≡ new_size)
        × IsWithin after
        × ((i : ℕ) → i < new_size → element after i ≡ (if ltb i a.count then element a i else val))
  unfolding resize
  element-resize a new_size val within =
      let a' = if ltb (length a.cells) new_size then reserve blank a new_size else a in
      let grown = reserve_lem a new_size in
      let room : new_size ≤ length a'.cells = ground (arith, grown.1) in
      let wide : a.count ≤ length a'.cells = ground (arith, grown.2) in
      let same : a'.count ≡ a.count = ground (arith, grown.0) in
      let kept : (i : ℕ) → i < a.count → element a' i ≡ element a i =
        λ i lt. ground (arith, grown.3 i (omega arith)) in
      let size = length-fill_cells a'.cells a.count (new_size - a.count) val in
      (
        ground (arith, same),
        ground (arith, same, size, room, wide),
        λ i inside.
            let filled = get_or-fill_cells a'.cells a.count (new_size - a.count) i val in
            elim (dec_lt i a.count) [
              | yes before ↦ ground (arith, kept i before, filled)
              | no behind ↦ ground (arith, filled)
            ],
      )
