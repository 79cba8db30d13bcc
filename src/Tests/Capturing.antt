-- ===== src/Tests/Capturing.antt =====
-- Upvalues.
use tx_lang_cxx.Prelude.{
  ℕ, ◌≤◌, ◌≡◌, ◌==◌, none, some, List, [], ◌∷◌, get_or, ltb, if◌then◌else◌, arith,
}
use tx_lang_cxx.Upvalues.{Upvalues, capture_upvalue, close_upvalues}
use tx_lang_cxx.Upvalues.Locations.{
  find_open, IsFalling, object_or, IsClosedAs, find_open-capture_upvalue, find_open-close_upvalues,
}

-- open for the locations 6 and 2
abbrev two_open : Upvalues ℕ
two_open = record {
  open_upvalues = record { object = 71; location = 6 } ∷ record { object = 70; location = 2 } ∷ [];
  closed = [];
}

two_open-IsFalling : IsFalling 8 two_open.open_upvalues
two_open-IsFalling = (omega arith, (omega arith, tt))

find_open-capture_upvalue_example :
    let (object, after) = capture_upvalue two_open 4 72 in
    (object ≡ object_or (find_open two_open.open_upvalues 4) 72)
    × IsFalling 8 after.open_upvalues
    × ((q : ℕ)
        → find_open after.open_upvalues q
          ≡ (if q == 4 then some object else find_open two_open.open_upvalues q))
find_open-capture_upvalue_example =
    find_open-capture_upvalue two_open 4 72 8 two_open-IsFalling (omega arith)

abbrev stack : List ℕ
stack = 100 ∷ 101 ∷ 102 ∷ 103 ∷ 104 ∷ 105 ∷ 106 ∷ []

find_open-close_upvalues_example :
    let after = close_upvalues 0 stack 5 two_open in
    IsFalling 8 after.open_upvalues
    × ((q : ℕ)
        → find_open after.open_upvalues q
          ≡ (if ltb q 5 then find_open two_open.open_upvalues q else none))
    × ((q object : ℕ)
        → 5 ≤ q
        → find_open two_open.open_upvalues q ≡ some object
        → IsClosedAs object (get_or stack q 0) after.closed)
find_open-close_upvalues_example = find_open-close_upvalues 0 stack 5 8 two_open two_open-IsFalling
