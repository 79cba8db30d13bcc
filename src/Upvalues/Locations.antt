-- ===== src/Upvalues/Locations.antt =====
-- Which upvalue is open for which location.
use mathlib.Core.Option.{some-injective}
use tx_lang_cxx.Prelude.{
  ℕ, ◌≤◌, ◌<◌, ◌≡◌, ◌≢◌, refl, sym, ap, ◌∙◌, ◌⊎◌, inl, inr, false, Bool-cases, Option, none, some,
  List, [], ◌∷◌, get_or, ltb, leb, ◌==◌, ==_iff, if◌then◌else◌, arith,
}
use tx_lang_cxx.Upvalues.{
  OpenUpvalue, ClosedUpvalue, Upvalues, capture_in, capture_upvalue, close_loop, close_upvalues,
}

none_ne : {object : ℕ} → none ≢ some object
none_ne e = cc

-- The object that is open for a location.
abbrev pub find_open : List OpenUpvalue → ℕ → Option ℕ
find_open [] q = none
find_open (upvalue ∷ upvalues) q =
    let rest = find_open upvalues q in if upvalue.location == q then some upvalue.object else rest

-- Locations fall along the list, from below a bound.
abbrev pub IsFalling : ℕ → List OpenUpvalue → Type 0
IsFalling bound [] = Unit {0}
IsFalling bound (upvalue ∷ upvalues) =
    (upvalue.location < bound) × IsFalling upvalue.location upvalues

find_open-above :
    (bound q : ℕ) (upvalues : List OpenUpvalue)
    → IsFalling bound upvalues
    → bound ≤ q
    → find_open upvalues q ≡ none
find_open-above bound q [] falling le = refl
find_open-above bound q (upvalue ∷ upvalues) (lt, falling) le =
    ground (arith, find_open-above upvalue.location q upvalues falling (omega arith))

abbrev pub object_or : Option ℕ → ℕ → ℕ
object_or none created = created
object_or (some object) created = object

capture_in_lem :
    (created local bound : ℕ) (upvalues : List OpenUpvalue)
    → IsFalling bound upvalues
    → local < bound
    → let (object, after) = capture_in created local upvalues in
      (object ≡ object_or (find_open upvalues local) created)
      × IsFalling bound after
      × ((q : ℕ) → find_open after q ≡ (if q == local then some object else find_open upvalues q))
unfolding capture_in
capture_in_lem created local bound [] falling lt = (refl, (lt, tt), λ q. ground arith)
capture_in_lem created local bound (upvalue ∷ upvalues) (below, falling) lt =
    elim (Bool-cases (ltb local upvalue.location)) [
      | inl before ↦
          let (same, kept, found) =
            capture_in_lem created local upvalue.location upvalues falling (ground arith) in
          rw before (ground (arith, same), (below, kept), λ q. ground (arith, found q))
      | inr reached ↦ elim (Bool-cases (upvalue.location == local)) [
        | inl here ↦ rw (reached, here) (refl, (below, falling), λ q. ground arith)
        | inr beyond ↦
            let absent = find_open-above upvalue.location local upvalues falling (ground arith) in
            rw (reached, beyond)
              (ground (arith, absent), (lt, (ground arith, falling)), λ q. ground arith)
      ]
    ]

IsFalling-weaken :
    (low high : ℕ) (upvalues : List OpenUpvalue)
    → low ≤ high
    → IsFalling low upvalues
    → IsFalling high upvalues
IsFalling-weaken low high [] le falling = tt
IsFalling-weaken low high (upvalue ∷ upvalues) le (below, falling) = (omega arith, falling)

-- Behind an upvalue below the bound nothing is open from the bound on.
find_open-beyond :
    (upvalue : OpenUpvalue) (upvalues : List OpenUpvalue) (last q : ℕ)
    → IsFalling upvalue.location upvalues
    → last ≤ q
    → leb last upvalue.location ≡ false
    → find_open (upvalue ∷ upvalues) q ≡ none
find_open-beyond upvalue upvalues last q falling le stops =
    let low : upvalue.location < q = ground arith in
    let rest = find_open-above upvalue.location q upvalues falling (omega arith) in ground arith

module _ {V : Type 0} where
  -- `capture_upvalue` returns the upvalue that is open for the local, or a new one if there is none;
  -- it is open for the local from then on, every other location has the upvalue it had, and the list
  -- stays in order.
  pub find_open-capture_upvalue :
      (s : Upvalues V) (local created bound : ℕ)
      → IsFalling bound s.open_upvalues
      → local < bound
      → let (object, after) = capture_upvalue s local created in
        (object ≡ object_or (find_open s.open_upvalues local) created)
        × IsFalling bound after.open_upvalues
        × ((q : ℕ)
            → find_open after.open_upvalues q
              ≡ (if q == local then some object else find_open s.open_upvalues q))
  unfolding capture_upvalue
  find_open-capture_upvalue s local created bound falling lt =
      capture_in_lem created local bound s.open_upvalues falling lt

  abbrev pub IsClosedAs : ℕ → V → List (ClosedUpvalue V) → Type 0
  IsClosedAs object value [] = ⊥
  IsClosedAs object value (c ∷ closed) =
      ((c.object ≡ object) × (c.value ≡ value)) ⊎ IsClosedAs object value closed

  closed_stay :
      (blank : V) (stack : List V) (last : ℕ) (upvalues : List OpenUpvalue)
      (closed : List (ClosedUpvalue V)) (object : ℕ) (value : V)
      → IsClosedAs object value closed
      → IsClosedAs object value (close_loop blank stack last upvalues closed).1
  unfolding close_loop
  closed_stay blank stack last [] closed object value h = h
  closed_stay blank stack last (upvalue ∷ upvalues) closed object value h =
      elim (Bool-cases (leb last upvalue.location)) [
        | inl closes ↦ rw closes (closed_stay blank stack last upvalues _ object value (inr h))
        | inr stops ↦ rw stops h
      ]

  close_loop_lem :
      (blank : V) (stack : List V) (last bound : ℕ) (upvalues : List OpenUpvalue)
      (closed : List (ClosedUpvalue V))
      → IsFalling bound upvalues
      → let after = close_loop blank stack last upvalues closed in
        IsFalling bound after.0
        × ((q : ℕ) → find_open after.0 q ≡ (if ltb q last then find_open upvalues q else none))
        × ((q object : ℕ)
            → last ≤ q
            → find_open upvalues q ≡ some object
            → IsClosedAs object (get_or stack q blank) after.1)
  unfolding close_loop
  close_loop_lem blank stack last bound [] closed falling =
      (tt, λ q. ground arith, λ q object le e. cc)
  close_loop_lem blank stack last bound (upvalue ∷ upvalues) closed (below, falling) =
      elim (Bool-cases (leb last upvalue.location)) [
        | inl closes ↦
            let value = get_or stack upvalue.location blank in
            let closed' = record { object = upvalue.object; value = value } ∷ closed in
            let (kept, found, gone) =
              close_loop_lem blank stack last upvalue.location upvalues closed' falling in
            rw closes (
              IsFalling-weaken upvalue.location bound _ (omega arith) kept,
              λ q. ground (arith, found q),
              λ q object le e. elim (Bool-cases (upvalue.location == q)) [
                | inl here ↦
                    let same : upvalue.object ≡ object = some-injective _ _ (rw here at e) in
                    let at_q =
                      ap (λ l. get_or stack l blank) ((==_iff upvalue.location q).0 here) in
                    closed_stay blank stack last upvalues closed' object (get_or stack q blank)
                      (inl (same, at_q))
                | inr away ↦ gone q object le (rw away at e)
              ],
            )
        | inr stops ↦ rw stops (
          (below, falling),
          λ q. ground (arith, find_open-above upvalue.location q upvalues falling),
          λ q object le e.
              absurd
                (none_ne (sym (find_open-beyond upvalue upvalues last q falling le stops) ∙ e)),
        )
      ]

  -- `close_upvalues` leaves open what is open below the bound. Every upvalue that was open at or above
  -- it is closed, with the value that the stack has at its location.
  pub find_open-close_upvalues :
      (blank : V) (stack : List V) (last bound : ℕ) (s : Upvalues V)
      → IsFalling bound s.open_upvalues
      → let after = close_upvalues blank stack last s in
        IsFalling bound after.open_upvalues
        × ((q : ℕ)
            → find_open after.open_upvalues q
              ≡ (if ltb q last then find_open s.open_upvalues q else none))
        × ((q object : ℕ)
            → last ≤ q
            → find_open s.open_upvalues q ≡ some object
            → IsClosedAs object (get_or stack q blank) after.closed)
  unfolding close_upvalues
  find_open-close_upvalues blank stack last bound s falling =
      close_loop_lem blank stack last bound s.open_upvalues s.closed falling
