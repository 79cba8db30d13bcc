-- ===== src/TypeInfo/Reflexive.antt =====
-- Every type is equal to itself, and every set of types may be assigned to itself, with functions
-- whose parameters are functions at any depth.
use tx_lang_cxx.Prelude.{
  Bool, true, ◌&&◌, ◌||◌, ◌≡◌, refl, sym, ap, ◌∙◌, ◌⊎◌, inl, inr, ◌==◌, ==_iff, arith,
}
use tx_lang_cxx.TypeInfo.{
  TypeInfo, none_type, any, boolean, nil, character, string, integer, float, function, TypeSet,
  no_types, with_type, TypeSetArray, no_sets, with_set, all_of, any_of, size, has_equal, info_equal,
  info_equal_from_right, all_contained, arrays_equal, arrays_equal_from_right, type_tag,
  check_assign, fits, assign_sets, set_equal,
}

-- A type stands in a set.
abbrev Mem : TypeInfo → TypeSet → Type 0
Mem t no_types = ⊥
Mem t (with_type u ts) = (t ≡ u) ⊎ Mem t ts

abbrev Sub : TypeSet → TypeSet → Type 0
Sub ts us = (t : TypeInfo) → Mem t ts → Mem t us

Sub-tail : (t : TypeInfo) (ts us : TypeSet) → Sub (with_type t ts) us → Sub ts us
Sub-tail t ts us sub u m = sub u (inr m)

left_true : (a b : Bool) → a ≡ true → (a || b) ≡ true
left_true a b e = ground arith

right_true : (a b : Bool) → b ≡ true → (a || b) ≡ true
right_true a b e = ground arith

both_true : (a b : Bool) → a ≡ true → b ≡ true → (a && b) ≡ true
both_true a b e f = ground arith

same_size : (ts : TypeSet) → (size ts == size ts) ≡ true
same_size ts = (==_iff (size ts) (size ts)).1 refl

any_of-Mem :
    (test : TypeInfo → Bool) (t : TypeInfo) (ts : TypeSet)
    → Mem t ts
    → test t ≡ true
    → any_of test ts ≡ true
any_of-Mem test t no_types m passes = elim m [ ]
any_of-Mem test t (with_type u ts) (inl e) passes = left_true _ _ (ap test (sym e) ∙ passes)
any_of-Mem test t (with_type u ts) (inr m) passes = right_true _ _ (any_of-Mem test t ts m passes)

has_equal-Mem :
    (t : TypeInfo) (ts : TypeSet) → Mem t ts → info_equal t t ≡ true → has_equal ts t ≡ true
unfolding has_equal
has_equal-Mem t no_types m same = elim m [ ]
has_equal-Mem t (with_type u ts) (inl e) same =
    left_true _ _ (ap (λ x. info_equal x t) (sym e) ∙ same)
has_equal-Mem t (with_type u ts) (inr m) same = right_true _ _ (has_equal-Mem t ts m same)

fits-Mem : (t : TypeInfo) (ts : TypeSet) → Mem t ts → check_assign t t ≡ true → fits ts t ≡ true
unfolding fits
fits-Mem t no_types m same = elim m [ ]
fits-Mem t (with_type u ts) (inl e) same = left_true _ _ (ap (λ x. check_assign x t) (sym e) ∙ same)
fits-Mem t (with_type u ts) (inr m) same = right_true _ _ (fits-Mem t ts m same)

mutual
  unfolding info_equal has_equal type_tag

  pub info_equal_refl :
      (t : TypeInfo) → (info_equal t t ≡ true) × (info_equal_from_right t t ≡ true)
  info_equal_refl (function ps r) = (
    both_true _ _ (arrays_equal_refl ps).0
        (both_true _ _ (same_size r) (all_contained_refl r r (λ _ m. m)).0),
    both_true _ _ (arrays_equal_refl ps).1
        (both_true _ _ (same_size r) (all_contained_refl r r (λ _ m. m)).1),
  )
  info_equal_refl none_type = (refl, refl)
  info_equal_refl any = (refl, refl)
  info_equal_refl nil = (refl, refl)
  info_equal_refl boolean = (refl, refl)
  info_equal_refl integer = (refl, refl)
  info_equal_refl float = (refl, refl)
  info_equal_refl character = (refl, refl)
  info_equal_refl string = (refl, refl)

  all_contained_refl :
      (ts us : TypeSet)
      → Sub ts us
      → (all_contained ts us ≡ true) × (all_of (has_equal us) ts ≡ true)
  all_contained_refl no_types us sub = (refl, refl)
  all_contained_refl (with_type t ts) us sub =
      let (left, right) = info_equal_refl t in
      let rest = all_contained_refl ts us (Sub-tail _ _ _ sub) in
      let here = sub t (inl refl) in
      (
        both_true _ _ (any_of-Mem (info_equal_from_right t) t us here right) rest.0,
        both_true _ _ (has_equal-Mem t us here left) rest.1,
      )

  arrays_equal_refl :
      (ps : TypeSetArray) → (arrays_equal ps ps ≡ true) × (arrays_equal_from_right ps ps ≡ true)
  arrays_equal_refl no_sets = (refl, refl)
  arrays_equal_refl (with_set s ss) =
      let all = all_contained_refl s s (λ _ m. m) in
      let rest = arrays_equal_refl ss in
      (
        both_true _ _ (both_true _ _ (same_size s) all.0) rest.0,
        both_true _ _ (both_true _ _ (same_size s) all.1) rest.1,
      )

check_assign_refl : (t : TypeInfo) → check_assign t t ≡ true
unfolding check_assign type_tag
check_assign_refl (function ps r) = left_true _ _ (info_equal_refl (function ps r)).0
check_assign_refl none_type = refl
check_assign_refl any = refl
check_assign_refl nil = refl
check_assign_refl boolean = refl
check_assign_refl integer = refl
check_assign_refl float = refl
check_assign_refl character = refl
check_assign_refl string = refl

fits-all : (ts us : TypeSet) → Sub us ts → all_of (fits ts) us ≡ true
fits-all ts no_types sub = refl
fits-all ts (with_type u us) sub =
    both_true _ _ (fits-Mem u ts (sub u (inl refl)) (check_assign_refl u))
      (fits-all ts us (Sub-tail _ _ _ sub))

-- Equality of sets of types and the check of an assignment hold between every set and itself.
pub assign_sets_refl :
    (types : TypeSet) → (set_equal types types ≡ true) × (assign_sets types types ≡ true)
unfolding assign_sets set_equal
assign_sets_refl types = (
  both_true _ _ (same_size types) (all_contained_refl types types (λ _ m. m)).0,
  fits-all types types (λ _ m. m),
)
