-- ===== src/Parser/PoppedLocals.antt =====
-- Which locals the loop of `end_scope` of tx-runtime/include/tx/compiler_inl.hxx takes away.
use tx_lang_cxx.Prelude.{
  Option, none, ltb→lt, ◌≤◌, ℕ, zero, suc, ◌+◌, ◌<◌, ◌≡◌, refl, ap, ◌∙◌, Bool, true, false,
  Bool-cases, some, List, [], ◌∷◌, length, get_elem?, arith, inl, inr,
}
use mathlib.Core.Path.{subst}
use tx_lang_cxx.Parser.State.{Local}
use tx_lang_cxx.Parser.Scopes.{deeper, pop_locals}

head_lem :
    (l local : Local) (locals : List Local) (depth : ℕ) (b : Bool)
    → deeper l.depth depth ≡ b
    → get_elem? (l ∷ locals) 0 ≡ some local
    → deeper local.depth depth ≡ b
head_lem l local locals depth b e same = let here : l ≡ local = ground arith in rw (← here) e

-- One more local in front goes too.
first_lem :
    (depth : ℕ) (l : Local) (locals : List Local) (count : ℕ)
    → deeper l.depth depth ≡ true
    → ((i : ℕ) (local : Local)
        → i < count
        → get_elem? locals i ≡ some local
        → deeper local.depth depth ≡ true)
    → (i : ℕ) (local : Local) → i < count + 1
    → get_elem? (l ∷ locals) i ≡ some local
    → deeper local.depth depth ≡ true
first_lem depth l locals count goes ih zero local lt e = head_lem l local locals depth true goes e
first_lem depth l locals count goes ih (suc i) local lt e = ih i local (omega arith) e

get_elem?-suc :
    (l : Local) (locals : List Local) (i j : ℕ)
    → j ≡ suc i
    → get_elem? locals i ≡ get_elem? (l ∷ locals) j
get_elem?-suc l locals i j e = rw e refl

zero_left : (i : ℕ) → i ≡ 0 + i
zero_left i = omega arith

-- The span of the locals that go, by the test of the loop.
popped_span :
    (depth : ℕ) (locals : List Local)
    → let (count, rest) = pop_locals depth locals in
      ((i : ℕ) (local : Local)
        → i < count
        → get_elem? locals i ≡ some local
        → deeper local.depth depth ≡ true)
      × ((i : ℕ) → get_elem? rest i ≡ get_elem? locals (count + i))
      × (length locals ≡ count + length rest)
      × ((local : Local) → get_elem? rest 0 ≡ some local → deeper local.depth depth ≡ false)
unfolding pop_locals
popped_span depth [] =
    (λ i local lt. absurd (omega arith), λ i. refl, refl, λ local e. absurd (ground arith))
popped_span depth (l ∷ locals) = elim (Bool-cases (deeper l.depth depth)) [
  | inr stays ↦ rw stays (
    λ i local lt. absurd (omega arith),
    λ i. ap (get_elem? (l ∷ locals)) (zero_left i),
    omega arith,
    λ local same. head_lem l local locals depth false stays same,
  )
  | inl goes ↦
      let (ih_goes, ih_rest, ih_size, ih_stays) = popped_span depth locals in
      let count = (pop_locals depth locals).0 in
      rw goes (
        first_lem depth l locals count goes ih_goes,
        λ i. ih_rest i ∙ get_elem?-suc l locals (count + i) (count + 1 + i) (omega arith),
        omega (arith, ih_size),
        ih_stays,
      )
]

deeper_true :
    (o : Option ℕ) (depth : ℕ) → deeper o depth ≡ true → (d : ℕ) × (o ≡ some d) × (depth < d)
deeper_true none depth e = cc
deeper_true (some d) depth e = (d, refl, ltb→lt depth d e)

deeper_false : (o : Option ℕ) (depth d : ℕ) → deeper o depth ≡ false → o ≡ some d → d ≤ depth
deeper_false o depth d e same =
    let test : deeper (some d) depth ≡ false = subst (λ o. deeper o depth ≡ false) same e in
    ground arith

-- The locals that go are the first, as many as are counted. Each has been initialized, at a depth
-- greater than that of the scope that is left. The others stay in their order, and the first of them
-- is not initialized or at most at that depth.
pub pop_locals_lem :
    (depth : ℕ) (locals : List Local)
    → let (count, rest) = pop_locals depth locals in
      ((i : ℕ) (local : Local)
        → i < count
        → get_elem? locals i ≡ some local
        → (d : ℕ) × (local.depth ≡ some d) × (depth < d))
      × ((i : ℕ) → get_elem? rest i ≡ get_elem? locals (count + i))
      × (length locals ≡ count + length rest)
      × ((local : Local) (d : ℕ) → get_elem? rest 0 ≡ some local → local.depth ≡ some d → d ≤ depth)
pop_locals_lem depth locals =
    let (goes, kept, size, stays) = popped_span depth locals in
    (
      λ i local lt e. deeper_true local.depth depth (goes i local lt e),
      kept,
      size,
      λ local d e same. deeper_false local.depth depth d (stays local e) same,
    )
