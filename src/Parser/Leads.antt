-- ===== src/Parser/Leads.antt =====
-- What the search of `resolve_upvalue` of tx-runtime/include/tx/compiler_inl.hxx finds: the chain of
-- upvalues through the compilers.
use tx_lang_cxx.Prelude.{
  ℕ, suc, zero, ◌+◌, ◌<◌, ◌≡◌, refl, ap, Bool, true, false, Bool-cases, Option-cases, take, Option,
  none, some, List, [], ◌∷◌, ◌++◌, length, get_elem?, arith, inl, inr, ◌==◌, ◌||◌,
}
use mathlib.Core.Path.{subst}
use tx_lang_cxx.Parser.Sound.{IsSound}
use tx_lang_cxx.Parser.State.{Local, Upvalue, Compiler, max_upvalues, on_option}
use tx_lang_cxx.Parser.Scopes.{identifiers_equal}
use tx_lang_cxx.Parser.Variables.{
  Resolved, resolve_local, local_at, capture, capture_local, bool_same, same_upvalue, find_upvalue,
  add_upvalue, add_to, add_outer, not_resolved, from_local, from_outer, resolve_upvalue,
}
use tx_lang_cxx.Parser.Sound.Resolve.{on_option-some, length-capture, AllSound}

-- The upvalue of the first compiler leads to a local of this name in a compiler around it, which is
-- marked as captured.
pub data Leads {F : Type 0} (name : List ℕ) : List (Compiler F) → ℕ → Type 0 where
  to_local :
      (c d : Compiler F) (enclosing : List (Compiler F)) (i idx : ℕ) (local : Local)
      → get_elem? c.upvalues i ≡ some (record { index = idx; is_local = true })
      → local_at idx d.locals ≡ some local
      → identifiers_equal name local.name ≡ true
      → local.is_captured ≡ true
      → Leads name (c ∷ d ∷ enclosing) i
  to_upvalue :
      (c : Compiler F) (enclosing : List (Compiler F)) (i idx : ℕ)
      → get_elem? c.upvalues i ≡ some (record { index = idx; is_local = false })
      → Leads name enclosing idx
      → Leads name (c ∷ enclosing) i

-- A local that is found is there, and no local behind it has the name.
local_at-resolve_local :
    (name : List ℕ) (locals : List Local) (idx : ℕ)
    → resolve_local name locals ≡ some (some idx)
    → (local : Local) × (local_at idx locals ≡ some local)
      × (identifiers_equal name local.name ≡ true)
      × (idx < length locals)
unfolding resolve_local
local_at-resolve_local name [] idx e = absurd (ground arith)
local_at-resolve_local name (local ∷ locals) idx e =
    elim (Bool-cases (identifiers_equal name local.name)) [
      | inl same ↦ elim (Option-cases local.depth) [
        | inl unset ↦ absurd (ground (arith, e, same, unset))
        | inr (depth, known) ↦
            let here : length locals ≡ idx = ground (arith, e, same, known) in
            (local, ground (arith, here), same, omega (arith, here))
      ]
      | inr other ↦
          let later : resolve_local name locals ≡ some (some idx) = ground (arith, e, other) in
          let (l, at, same, inside) = local_at-resolve_local name locals idx later in
          (l, ground (arith, at, inside), same, omega (arith, inside))
    ]

-- The same local, marked.
local_at-capture :
    (idx : ℕ) (locals : List Local) (local : Local)
    → local_at idx locals ≡ some local
    → local_at idx (capture idx locals) ≡ some (record local { is_captured = true })
local_at-capture idx [] local e = absurd (ground arith)
local_at-capture idx (l ∷ locals) local e =
    let size = length-capture idx locals in
    elim (Bool-cases (idx == length locals)) [
      | inl here ↦
          let same : l ≡ local = ground (arith, e, here) in
          rw (size, here) (ap (λ (l : Local). some (record l { is_captured = true })) same)
      | inr other ↦
          let rest : local_at idx locals ≡ some local = ground (arith, e, other) in
          rw (size, other) (local_at-capture idx locals local rest)
    ]

bool_same_lem : (a b : Bool) → bool_same a b ≡ true → a ≡ b
bool_same_lem true b e = ground arith
bool_same_lem false b e = ground arith

same_upvalue_lem :
    (index : ℕ) (is_local : Bool) (upvalue : Upvalue)
    → same_upvalue index is_local upvalue ≡ true
    → upvalue ≡ record { index = index; is_local = is_local }
same_upvalue_lem index is_local upvalue e =
    let index_same : upvalue.index ≡ index = ground arith in
    let local_same : upvalue.is_local ≡ is_local =
      bool_same_lem upvalue.is_local is_local (ground arith) in
    rw (← index_same, ← local_same) refl

-- The position that the loop of `add_upvalue` finds, in a part of the upvalues.
get_elem?-find_upvalue :
    (index : ℕ) (is_local : Bool) (i n : ℕ) (upvalues : List Upvalue) (j : ℕ)
    → find_upvalue index is_local i (take n upvalues) ≡ some j
    → (k : ℕ) × (j ≡ i + k)
      × (get_elem? upvalues k ≡ some (record { index = index; is_local = is_local }))
get_elem?-find_upvalue index is_local i zero [] j e = absurd (ground arith)
get_elem?-find_upvalue index is_local i (suc n) [] j e = absurd (ground arith)
get_elem?-find_upvalue index is_local i zero (u ∷ us) j e = absurd (ground arith)
get_elem?-find_upvalue index is_local i (suc n) (u ∷ us) j e =
    elim (Bool-cases (same_upvalue index is_local u)) [
      | inl same ↦ (zero, ground arith, ap some (same_upvalue_lem index is_local u same))
      | inr other ↦
          let later : find_upvalue index is_local (i + 1) (take n us) ≡ some j = ground arith in
          let (k, at, here) = get_elem?-find_upvalue index is_local (i + 1) n us j later in
          (suc k, omega arith, here)
    ]

get_elem?-append_end {ℓ} :
    {A : Type ℓ} (xs : List A) (x : A) → get_elem? (xs ++ x ∷ []) (length xs) ≡ some x
get_elem?-append_end [] x = refl
get_elem?-append_end (y ∷ xs) x = get_elem?-append_end xs x

or_false : (a b : Bool) → (a || b) ≡ false → (a ≡ false) × (b ≡ false)
or_false true b e = absurd (ground arith)
or_false false b e = (refl, e)

module _ {F : Type 0} where
  -- The upvalue that is found or added, unless there are too many.
  get_elem?-add_upvalue :
      (index : ℕ) (is_local : Bool) (c : Compiler F)
      → c.obj_function.upvalue_count ≡ length c.upvalues
      → (add_upvalue index is_local c).2 ≡ false
      → get_elem? (add_upvalue index is_local c).1.upvalues (add_upvalue index is_local c).0
        ≡ some (record { index = index; is_local = is_local })
  unfolding add_upvalue
  get_elem?-add_upvalue index is_local c counted room =
      let count = c.obj_function.upvalue_count in
      elim (Option-cases (find_upvalue index is_local 0 (take count c.upvalues))) [
        | inr (j, e) ↦
            let (k, at, here) = get_elem?-find_upvalue index is_local 0 count c.upvalues j e in
            let same : j ≡ k = omega arith in rw (e, same) here
        | inl e ↦ elim (Bool-cases (count == max_upvalues)) [
          | inl full ↦ absurd (ground (arith, room, e, full))
          | inr free ↦ rw (e, free, counted) (get_elem?-append_end c.upvalues _)
        ]
      ]

  -- What the caller of `resolve_upvalue` may rely on.
  abbrev IsFound : List ℕ → Resolved F (Option (ℕ × Local)) → Type 0
  IsFound name r =
      (i : ℕ) (local : Local)
      → r.result ≡ some (i, local)
      → r.too_many ≡ false
      → Leads name r.compilers i

  from_local-IsFound :
      (name : List ℕ) (c d : Compiler F) (enclosing : List (Compiler F)) (idx : ℕ)
      (r : Resolved F (Option (ℕ × Local)))
      → from_local c d enclosing idx ≡ some r
      → resolve_local name d.locals ≡ some (some idx)
      → IsSound c
      → IsFound name r
  from_local-IsFound name c d enclosing idx r e found sound =
      let (local, at, same, inside) = local_at-resolve_local name d.locals idx found in
      let (local', _, made) = on_option-some (local_at idx d.locals) _ e in
      let result : add_to idx true local' c (capture_local idx d ∷ enclosing) false ≡ r =
        ground (arith, made) in
      subst (IsFound name) result λ i l is room.
        let first : (add_upvalue idx true c).0 ≡ i = ground (arith, is) in
        let free : (add_upvalue idx true c).2 ≡ false = ground (arith, room) in
        let entry = get_elem?-add_upvalue idx true c sound.counted free in
        to_local _ _ enclosing i idx (record local { is_captured = true }) (rw (← first) entry)
          (local_at-capture idx d.locals local at) same refl

  add_outer-IsFound :
      (name : List ℕ) (c : Compiler F) (outer : Resolved F (Option (ℕ × Local)))
      → IsSound c
      → IsFound name outer
      → IsFound name (add_outer c outer)
  add_outer-IsFound name c outer sound ih = elim (Option-cases outer.result) [
    | inl e ↦ rw (e, add_outer) λ i l is room. absurd (ground (arith, is))
    | inr ((j, local), e) ↦
        rw (e, add_outer)
          λ i l is room.
            let first : (add_upvalue j false c).0 ≡ i = ground (arith, is) in
            let (free, outer_free) = or_false (add_upvalue j false c).2 outer.too_many room in
            let entry = get_elem?-add_upvalue j false c sound.counted free in
            to_upvalue _ outer.compilers i j (rw (← first) entry) (ih j local e outer_free)
  ]

  from_outer-IsFound :
      (name : List ℕ) (c : Compiler F) (outer : Option (Resolved F (Option (ℕ × Local))))
      (r : Resolved F (Option (ℕ × Local)))
      → from_outer c outer ≡ some r
      → IsSound c
      → ((r' : Resolved F (Option (ℕ × Local))) → outer ≡ some r' → IsFound name r')
      → IsFound name r
  from_outer-IsFound name c none r e sound ih = absurd (ground arith)
  from_outer-IsFound name c (some outer) r e sound ih =
      let result : add_outer c outer ≡ r = ground arith in
      subst (IsFound name) result (add_outer-IsFound name c outer sound (ih outer refl))

  resolve_upvalue-IsFound :
      (name : List ℕ) (cs : List (Compiler F)) (r : Resolved F (Option (ℕ × Local)))
      → resolve_upvalue name cs ≡ some r
      → AllSound cs
      → IsFound name r
  unfolding resolve_upvalue
  resolve_upvalue-IsFound name [] r e all = cc
  resolve_upvalue-IsFound name (c ∷ []) r e all =
      let same : not_resolved (c ∷ []) ≡ r = ground arith in
      subst (IsFound name) same λ i l is room. absurd (ground (arith, is))
  resolve_upvalue-IsFound name (c ∷ d ∷ enclosing) r e (sound, all) =
      let ih : (r' : Resolved F (Option (ℕ × Local)))
          → resolve_upvalue name (d ∷ enclosing) ≡ some r'
          → IsFound name r' =
        λ r' same. resolve_upvalue-IsFound name (d ∷ enclosing) r' same all in
      let (found, resolved, way) = on_option-some (resolve_local name d.locals) _ e in
      elim found
          as (λ found.
            resolve_local name d.locals ≡ some found
            → on_option found (from_outer c (resolve_upvalue name (d ∷ enclosing)))
                (from_local c d enclosing)
              ≡ some r
            → IsFound name r) [
              | none ↦ λ _ way. from_outer-IsFound name c _ r way sound ih
              | some idx ↦
                  λ resolved way. from_local-IsFound name c d enclosing idx r way resolved sound
            ]
        resolved way

  -- In sound compilers, an upvalue that `resolve_upvalue` answers, without having met the limit, leads
  -- from compiler to compiler outwards to a local of the name, which is marked as captured.
  pub resolve_upvalue-Leads :
      (name : List ℕ) (cs : List (Compiler F)) (r : Resolved F (Option (ℕ × Local))) (i : ℕ)
      (local : Local)
      → AllSound cs
      → resolve_upvalue name cs ≡ some r
      → r.result ≡ some (i, local)
      → r.too_many ≡ false
      → Leads name r.compilers i
  resolve_upvalue-Leads name cs r i local all e is room =
      resolve_upvalue-IsFound name cs r e all i local is room
