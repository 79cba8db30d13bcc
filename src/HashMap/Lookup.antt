-- ===== src/HashMap/Lookup.antt =====
-- What `get` returns: the value that is stored under the key.
use native.Mathlib.Decide.{ℕ_discrete}
use mathlib.Core.Path.{subst}
use tx_lang_cxx.Prelude.{
  ℕ, zero, suc, ◌*◌, ◌/◌, ◌≤◌, ◌<◌, true, false, ◌≡◌, ◌≢◌, refl, sym, ap, ◌∙◌, ◌⊎◌, inl, inr, ◌↔◌,
  none, some, List, [], ◌∷◌, length, set, ◌==◌, ==_iff, arith,
}
use tx_lang_cxx.HashMap.{Keys, Entry, HashMap, is_entry_empty, entry_at, get, empty_entry}
use tx_lang_cxx.HashMap.Good.{used, HasKey, Good, find_entry-Found}
use tx_lang_cxx.HashMap.Keep.{
  Stored, HasKey-set_ne, HasKey-set_at, entry_at-set_self, entry_at-set_ne,
}

module _ {K V : Type 0} (keys : Keys K V) where
  -- A map without storage, or with entries in order; `count` counts keys and tombstones, up to three
  -- quarters of the capacity.
  pub record IsValid (m : HashMap K V) : Type 0 where
    pub shape : (length m.entries ≡ 0) ⊎ Good keys m.entries
    pub counted : m.count ≡ used keys m.entries
    pub load : m.count ≤ length m.entries * 3 / 4

  -- not the key that marks empty entries
  abbrev pub IsReal : K → Type 0
  IsReal key = keys.equal key keys.empty_key ≡ false

  pub Stored-unique :
      (entries : List (Entry K V)) (key : K) (v w : V)
      → Good keys entries
      → Stored keys entries key v
      → Stored keys entries key w
      → v ≡ w
  Stored-unique entries key v w good (p, hp, ev) (q, hq, ew) =
      let same = good.unique p q key hp hq in
      sym ev ∙ ap (λ i. (entry_at keys entries i).second) same ∙ ew

  -- Without a used entry nothing is stored.
  pub used-Stored :
      (entries : List (Entry K V)) (key : K) (v : V)
      → used keys entries ≡ 0
      → Stored keys entries key v
      → ⊥
  used-Stored [] key v e (p, has, _) =
      let gone : is_entry_empty keys (empty_entry keys) ≡ true = (keys.equal_iff _ _).1 refl in
      let taken : is_entry_empty keys (empty_entry keys) ≡ false = has.0 in cc
  used-Stored (x ∷ entries) key v e (zero, has, _) = let taken = has.0 in ground arith
  used-Stored (x ∷ entries) key v e (suc p, has, same) =
      used-Stored entries key v (ground arith) (p, has, same)

  -- A lookup ends, with the value stored under the key, or without one if none is stored.
  pub get-Stored :
      (m : HashMap K V) (key : K)
      → IsValid m
      → IsReal key
      → ((get keys m key ≡ some none) × ((v : V) → Stored keys m.entries key v → ⊥))
        ⊎ ((v : V) × ((get keys m key ≡ some (some v)) × Stored keys m.entries key v))
  unfolding get
  get-Stored m key valid real = elim (ℕ_discrete m.count 0) [
    | yes bare ↦ inl (
      rw ((==_iff m.count 0).1 bare) refl,
      λ v. used-Stored m.entries key v (sym valid.counted ∙ bare),
    )
    | no some_used ↦ elim valid.shape [
      | inl flat ↦ absurd (omega (arith, valid.load))
      | inr good ↦
          let (i, f) =
            find_entry-Found keys m.entries key good (omega (arith, valid.load, valid.counted))
              real in
          let busy : (m.count == 0) ≡ false = ground arith in
          elim f.outcome [
            | inl has ↦ inr (
              (entry_at keys m.entries i).second,
              (rw (busy, f.found, has.0) refl, (i, has, refl)),
            )
            | inr (free, none_has) ↦
                inl (rw (busy, f.found, free) refl, λ v (p, has, _). none_has p has)
          ]
    ]
  ]

  -- A stored value is found.
  pub get-Stored_value :
      (m : HashMap K V) (key : K) (v : V)
      → IsValid m
      → IsReal key
      → Stored keys m.entries key v
      → get keys m key ≡ some (some v)
  get-Stored_value m key v valid real stored = elim (get-Stored m key valid real) [
    | inl (e, missing) ↦ absurd (missing v stored)
    | inr (w, (e, other)) ↦ elim valid.shape [
      | inl flat ↦
          absurd
            (used-Stored m.entries key v (sym valid.counted ∙ omega (arith, valid.load)) stored)
      | inr good ↦ e ∙ ap (λ x. some (some x)) (Stored-unique m.entries key w v good other stored)
    ]
  ]

  -- Two maps that store the same under a key give the same.
  pub get_same :
      (m m' : HashMap K V) (key : K)
      → IsValid m
      → IsValid m'
      → IsReal key
      → ((v : V) → Stored keys m.entries key v ↔ Stored keys m'.entries key v)
      → get keys m key ≡ get keys m' key
  get_same m m' key valid valid' real same = elim (get-Stored m key valid real) [
    | inl (e, missing) ↦ elim (get-Stored m' key valid' real) [
      | inl (e', _) ↦ e ∙ sym e'
      | inr (w, (e', stored)) ↦ absurd (missing w ((same w).1 stored))
    ]
    | inr (v, (e, stored)) ↦ sym (get-Stored_value m' key v valid' real ((same v).0 stored) ∙ sym e)
  ]

  pub Stored-set_self :
      (entries : List (Entry K V)) (key : K) (value : V) (i : ℕ)
      → IsReal key
      → i < length entries
      → Stored keys (set entries i (record { first = key; second = value })) key value
  Stored-set_self entries key value i real lt =
      let entry : Entry K V = record { first = key; second = value } in
      let here = entry_at-set_self keys entries i entry lt in
      (i, rw here (real, refl), ap (λ x. x.second) here)

  -- A write for one key leaves what is stored under the others.
  pub Stored-set_ne :
      (entries : List (Entry K V)) (entry : Entry K V) (i : ℕ) (key : K) (v : V)
      → i < length entries
      → (HasKey keys entries i key → ⊥)
      → ((is_entry_empty keys entry ≡ false) → entry.first ≢ key)
      → Stored keys entries key v ↔ Stored keys (set entries i entry) key v
  Stored-set_ne entries entry i key v lt before after = (
    λ (p, has, same).
        let away : i ≢ p = λ e. before (subst (λ x. HasKey keys entries x key) (sym e) has) in
        let kept = entry_at-set_ne keys entries i entry lt p away in
        (
          p,
          subst (λ x. (is_entry_empty keys x ≡ false) × (x.first ≡ key)) (sym kept) has,
          ap (λ x. x.second) kept ∙ same,
        ),
    λ (p, has, same).
        let away : i ≢ p = λ e.
          let at_i = HasKey-set_at keys entries i entry lt p key e has in after at_i.0 at_i.1 in
        let kept = entry_at-set_ne keys entries i entry lt p away in
        (
          p,
          HasKey-set_ne keys entries i entry lt p key away has,
          sym (ap (λ x. x.second) kept) ∙ same,
        ),
  )
