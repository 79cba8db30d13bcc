-- ===== src/Parser/Sound/Resolve.antt =====
-- The search for an upvalue through the compilers keeps their invariants.
use tx_lang_cxx.Prelude.{
  ℕ, suc, ◌≡◌, refl, ap, Bool, true, false, Bool-cases, Option-cases, take, Option, none, some,
  List, [], ◌∷◌, length, length-append, arith, inl, inr, ◌==◌,
}
use tx_lang_cxx.Parser.State.{Local, Upvalue, Compiler, max_upvalues, on_option}
use tx_lang_cxx.Parser.Variables.{
  Resolved, resolve_local, local_at, capture, capture_local, find_upvalue, push_upvalue,
  add_upvalue, add_to, add_outer, not_resolved, from_local, from_outer, resolve_upvalue,
}
use tx_lang_cxx.Parser.Sound.{IsSound}
use tx_lang_cxx.Parser.Sound.Changes.{relocate}

-- The inversion of a step that may be missing.
pub on_option-some :
    {A B : Type 0} (o : Option A) (f : A → Option B) {b : B}
    → on_option o none f ≡ some b
    → (a : A) × (o ≡ some a) × (f a ≡ some b)
on_option-some none f e = absurd (ground arith)
on_option-some (some a) f e = (a, refl, e)

pub length-capture : (idx : ℕ) (locals : List Local) → length (capture idx locals) ≡ length locals
length-capture idx [] = refl
length-capture idx (local ∷ locals) = ap suc (length-capture idx locals)

module _ {F : Type 0} where
  capture_local-IsSound : (idx : ℕ) (c : Compiler F) → IsSound c → IsSound (capture_local idx c)
  capture_local-IsSound idx c sound =
      relocate c sound _ (omega (arith, length-capture idx c.locals, sound.locals_fit))
        c.scope_depth

  push_upvalue-IsSound :
      (index : ℕ) (is_local : Bool) (c : Compiler F)
      → (c.obj_function.upvalue_count == max_upvalues) ≡ false
      → IsSound c
      → IsSound (push_upvalue index is_local c)
  push_upvalue-IsSound index is_local c room sound =
      let upvalue : Upvalue = record { index = index; is_local = is_local } in
      let size = length-append c.upvalues (upvalue ∷ []) in
      record {
        slots = sound.slots;
        counted = omega (arith, size, sound.counted);
        upvalues_fit = ground (arith, size, sound.counted, sound.upvalues_fit);
        locals_fit = sound.locals_fit;
        traced = sound.traced;
        indexed = sound.indexed;
        started = sound.started;
      }

  -- `add_upvalue` keeps the invariant on each of its three ways.
  add_upvalue-IsSound :
      (index : ℕ) (is_local : Bool) (c : Compiler F)
      → IsSound c
      → IsSound (add_upvalue index is_local c).1
  unfolding add_upvalue
  add_upvalue-IsSound index is_local c sound =
      let count = c.obj_function.upvalue_count in
      elim (Option-cases (find_upvalue index is_local 0 (take count c.upvalues))) [
        | inr (i, e) ↦ rw e sound
        | inl e ↦ elim (Bool-cases (count == max_upvalues)) [
          | inl full ↦ rw (e, full) sound
          | inr room ↦ rw (e, room) (push_upvalue-IsSound index is_local c room sound)
        ]
      ]

  abbrev pub AllSound : List (Compiler F) → Type 0
  AllSound [] = Unit {0}
  AllSound (c ∷ cs) = IsSound c × AllSound cs

  add_to-AllSound :
      (index : ℕ) (is_local : Bool) (local : Local) (c : Compiler F) (enclosing : List (Compiler F))
      (too_many : Bool)
      → IsSound c
      → AllSound enclosing
      → AllSound (add_to index is_local local c enclosing too_many).compilers
  add_to-AllSound index is_local local c enclosing too_many sound all =
      (add_upvalue-IsSound index is_local c sound, all)

  add_outer-AllSound :
      (c : Compiler F) (outer : Resolved F (Option (ℕ × Local)))
      → IsSound c
      → AllSound outer.compilers
      → AllSound (add_outer c outer).compilers
  add_outer-AllSound c outer sound all = elim (Option-cases outer.result) [
    | inl e ↦ rw (e, add_outer) (sound, all)
    | inr ((i, local), e) ↦
        rw (e, add_outer) (add_to-AllSound i false local c outer.compilers outer.too_many sound all)
  ]

  from_local-AllSound :
      (c d : Compiler F) (enclosing : List (Compiler F)) (idx : ℕ)
      (r : Resolved F (Option (ℕ × Local)))
      → from_local c d enclosing idx ≡ some r
      → IsSound c
      → AllSound (d ∷ enclosing)
      → AllSound r.compilers
  from_local-AllSound c d enclosing idx r e sound all =
      let (local, _, same) = on_option-some (local_at idx d.locals) _ e in
      let result : add_to idx true local c (capture_local idx d ∷ enclosing) false ≡ r =
        ground (arith, same) in
      rw (← result)
        (add_upvalue-IsSound idx true c sound, (capture_local-IsSound idx d all.0, all.1))

  from_outer-AllSound :
      (c : Compiler F) (outer : Option (Resolved F (Option (ℕ × Local))))
      (r : Resolved F (Option (ℕ × Local)))
      → from_outer c outer ≡ some r
      → IsSound c
      → ((r' : Resolved F (Option (ℕ × Local))) → outer ≡ some r' → AllSound r'.compilers)
      → AllSound r.compilers
  from_outer-AllSound c none r e sound ih = absurd (ground arith)
  from_outer-AllSound c (some outer) r e sound ih =
      let result : add_outer c outer ≡ r = ground arith in
      rw (← result) (add_outer-AllSound c outer sound (ih outer refl))

  pub resolve_upvalue-AllSound :
      (name : List ℕ) (cs : List (Compiler F)) (r : Resolved F (Option (ℕ × Local)))
      → resolve_upvalue name cs ≡ some r
      → AllSound cs
      → AllSound r.compilers
  unfolding resolve_upvalue
  resolve_upvalue-AllSound name [] r e all = cc
  resolve_upvalue-AllSound name (c ∷ []) r e all =
      let same : not_resolved (c ∷ []) ≡ r = ground arith in rw (← same) all
  resolve_upvalue-AllSound name (c ∷ d ∷ enclosing) r e (sound, all) =
      let ih : (r' : Resolved F (Option (ℕ × Local)))
          → resolve_upvalue name (d ∷ enclosing) ≡ some r'
          → AllSound r'.compilers =
        λ r' same. resolve_upvalue-AllSound name (d ∷ enclosing) r' same all in
      let (found, _, way) = on_option-some (resolve_local name d.locals) _ e in
      elim found
          as (λ found.
            on_option found (from_outer c (resolve_upvalue name (d ∷ enclosing)))
                (from_local c d enclosing)
              ≡ some r
            → AllSound r.compilers) [
              | none ↦ λ way. from_outer-AllSound c _ r way sound ih
              | some idx ↦ λ way. from_local-AllSound c d enclosing idx r way sound all
            ]
        way
