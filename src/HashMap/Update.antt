-- ===== src/HashMap/Update.antt =====
-- Lookups behind `set` and `erase`.
use native.Mathlib.Decide.{ℕ_discrete}
use tx_lang_cxx.Prelude.{
  ℕ, ◌+◌, ◌*◌, ◌/◌, ◌≤◌, ◌<◌, Bool, true, false, not, ◌&&◌, ◌≡◌, ◌≢◌, refl, sym, ◌∙◌, inl, inr, ◌↔◌,
  Option, none, some, List, length, set, length-set, ◌==◌, ==_iff, if◌then◌else◌, arith,
}
use tx_lang_cxx.HashMap.{
  Keys, Entry, HashMap, is_entry_empty, is_entry_tombstone, entry_at, get, set_grown, erase,
  tombstone_entry,
}
use tx_lang_cxx.HashMap.Probe.{is_virgin}
use tx_lang_cxx.HashMap.Good.{used, used-set, HasKey, Good, Found, find_entry-Found}
use tx_lang_cxx.HashMap.Keep.{Stored, Good-set, Good-erase, HasKey-set_ne, HasKey-set_at}
use tx_lang_cxx.HashMap.Lookup.{
  IsValid, IsReal, Stored-set_self, Stored-set_ne, get-Stored, get_same, get-Stored_value,
}

true_false : true ≢ false
true_false e = cc

value_missing {ℓ} : {A : Type ℓ} {a : A} → some (some a) ≢ some none
value_missing e = cc

module _ {K V : Type 0} (keys : Keys K V) where
  -- `set` ends: the new map is in order, gives the new value under the key and the old ones under the
  -- others, and the flag says whether the key was new.
  pub record Inserts (m : HashMap K V) (key : K) (value : V) (result : Option (Bool × HashMap K V))
      : Type 0 where
    pub is_new : Bool
    pub after : HashMap K V
    pub returns : result ≡ some (is_new, after)
    pub valid : IsValid keys after
    pub here : get keys after key ≡ some (some value)
    pub others : (q : K) → IsReal keys q → q ≢ key → get keys after q ≡ get keys m q
    pub new_iff : (is_new ≡ true) ↔ (get keys m key ≡ some none)

  pub record Erases (m : HashMap K V) (key : K) (result : Option (Bool × HashMap K V))
      : Type 0 where
    pub was_there : Bool
    pub after : HashMap K V
    pub returns : result ≡ some (was_there, after)
    pub valid : IsValid keys after
    pub here : get keys after key ≡ some none
    pub others : (q : K) → IsReal keys q → q ≢ key → get keys after q ≡ get keys m q
    pub there_iff : (was_there ≡ false) ↔ (get keys m key ≡ some none)

  Found-other :
      (entries : List (Entry K V)) (key q : K) (i : ℕ)
      → Found keys entries key i
      → q ≢ key
      → HasKey keys entries i q
      → ⊥
  Found-other entries key q i f away has = elim f.outcome [
    | inl here ↦ away (sym has.1 ∙ here.1)
    | inr (free, _) ↦ let taken = has.0 in absurd (true_false (sym free ∙ taken))
  ]

  -- What the search says of the lookup.
  get-Found :
      (m : HashMap K V) (key : K) (i : ℕ)
      → IsValid keys m
      → IsReal keys key
      → Found keys m.entries key i
      → (is_entry_empty keys (entry_at keys m.entries i) ≡ true) ↔ (get keys m key ≡ some none)
  get-Found m key i valid real f = elim f.outcome [
    | inl here ↦
        let hit =
          get-Stored_value keys m key (entry_at keys m.entries i).second valid real
            (i, here, refl) in
        (λ free. absurd (true_false (sym free ∙ here.0)), λ e. absurd (value_missing (sym hit ∙ e)))
    | inr (free, none_has) ↦ (
      λ _. elim (get-Stored keys m key valid real) [
        | inl (e, _) ↦ e
        | inr (v, (e, (p, has, same))) ↦ absurd (none_has p has)
      ],
      λ _. free,
    )
  ]

  module _ (m : HashMap K V) (key : K) (value : V) (valid : IsValid keys m)
      (good : Good keys m.entries) (real : IsReal keys key)
      (room : m.count + 1 ≤ length m.entries * 3 / 4) where
    set_grown_at :
        (i : ℕ) → Found keys m.entries key i → Inserts m key value (set_grown keys m key value)
    unfolding set_grown
    set_grown_at i f =
        let entry : Entry K V = record { first = key; second = value } in
        let entries = set m.entries i entry in
        let old = entry_at keys m.entries i in
        let is_new = is_entry_empty keys old in
        let count = if is_new && not (is_entry_tombstone keys old) then m.count + 1 else m.count in
        let after : HashMap K V = record { count = count; entries = entries } in
        let busy : is_virgin keys entry ≡ false = rw real refl in
        let counted : count ≡ used keys entries =
          ground (arith, used-set keys m.entries i entry f.inside, valid.counted, busy) in
        let size = length-set m.entries i entry in
        let kept : IsValid keys after = record {
          shape = inr (Good-set keys m.entries key value i good real f);
          counted = counted;
          load = ground (arith, size);
        } in
        record {
          is_new = is_new;
          after = after;
          returns = rw (set_grown, f.found) refl;
          valid = kept;
          here =
              get-Stored_value keys after key value kept real
                (Stored-set_self keys m.entries key value i real f.inside);
          others = λ q real' away. sym (
              get_same keys m after q valid kept real' (λ v.
                Stored-set_ne keys m.entries entry i q v f.inside
                  (Found-other m.entries key q i f away) (λ _ e. away (sym e))));
          new_iff = get-Found m key i valid real f;
        }

    pub set_grown-Inserts : Inserts m key value (set_grown keys m key value)
    set_grown-Inserts =
        let (i, f) = find_entry-Found keys m.entries key good (omega (arith, valid.counted)) real in
        set_grown_at i f

  erased :
      (entries : List (Entry K V)) (key : K) (i : ℕ) (v : V)
      → Good keys entries
      → i < length entries
      → HasKey keys entries i key
      → Stored keys (set entries i (tombstone_entry keys)) key v
      → ⊥
  erased entries key i v good lt here (p, has, _) =
      let entry = tombstone_entry keys in
      let gone : is_entry_empty keys entry ≡ true = (keys.equal_iff _ _).1 refl in
      elim (ℕ_discrete i p) [
        | yes e ↦ true_false (sym gone ∙ (HasKey-set_at keys entries i entry lt p key e has).0)
        | no away ↦
            away (good.unique i p key here (HasKey-set_ne keys entries i entry lt p key away has))
      ]

  module _ (m : HashMap K V) (key : K) (valid : IsValid keys m) (real : IsReal keys key) where
    -- Nothing is erased.
    stays :
        (result : Option (Bool × HashMap K V))
        → result ≡ some (false, m)
        → get keys m key ≡ some none
        → Erases m key result
    stays result e missing = record {
      was_there = false;
      after = m;
      returns = e;
      valid = valid;
      here = missing;
      others = λ q _ _. refl;
      there_iff = (λ _. missing, λ _. refl);
    }

    Erases-at :
        (i : ℕ)
        → (m.count == 0) ≡ false
        → Good keys m.entries
        → Found keys m.entries key i
        → HasKey keys m.entries i key
        → Erases m key (erase keys m key)
    unfolding erase
    Erases-at i some_used good f has =
        let entry = tombstone_entry keys in
        let after : HashMap K V = record { count = m.count; entries = set m.entries i entry } in
        let gone : is_entry_empty keys entry ≡ true = (keys.equal_iff _ _).1 refl in
        let hole : is_virgin keys entry ≡ false = rw keys.tombstone_agrees (ground arith) in
        let used_there : is_virgin keys (entry_at keys m.entries i) ≡ false = rw has.0 refl in
        let size = length-set m.entries i entry in
        let kept : IsValid keys after = record {
          shape = inr (Good-erase keys m.entries i good f.inside);
          counted =
              ground
                (arith, used-set keys m.entries i entry f.inside, valid.counted, hole, used_there);
          load = omega (arith, size, valid.load);
        } in
        let hit =
          get-Stored_value keys m key (entry_at keys m.entries i).second valid real
            (i, has, refl) in
        record {
          was_there = true;
          after = after;
          returns = rw (some_used, f.found, has.0) refl;
          valid = kept;
          here = elim (get-Stored keys after key kept real) [
            | inl (e, _) ↦ e
            | inr (v, (e, stored)) ↦ absurd (erased m.entries key i v good f.inside has stored)
          ];
          others = λ q real' away. sym (
              get_same keys m after q valid kept real' (λ v.
                Stored-set_ne keys m.entries entry i q v f.inside
                  (Found-other m.entries key q i f away)
                  (λ taken. absurd (true_false (sym gone ∙ taken)))));
          there_iff = (λ e. absurd (true_false e), λ e. absurd (value_missing (sym hit ∙ e)));
        }

    erase-Found :
        (i : ℕ)
        → (m.count == 0) ≡ false
        → Good keys m.entries
        → Found keys m.entries key i
        → Erases m key (erase keys m key)
    unfolding erase
    erase-Found i some_used good f = elim f.outcome [
      | inl has ↦ Erases-at i some_used good f has
      | inr (free, none_has) ↦
          stays (erase keys m key) (rw (some_used, f.found, free) refl)
            ((get-Found m key i valid real f).0 free)
    ]

    -- `erase` ends: the new map is in order, has nothing under the key and the old values under the
    -- others, and the flag says whether the key was there.
    pub erase-Erases : Erases m key (erase keys m key)
    unfolding erase get
    erase-Erases = elim (ℕ_discrete m.count 0) [
      | yes bare ↦
          let none_used = (==_iff m.count 0).1 bare in
          stays (erase keys m key) (rw none_used refl) (rw none_used refl)
      | no some_used ↦ elim valid.shape [
        | inl flat ↦ absurd (omega (arith, valid.load))
        | inr good ↦
            let (i, f) =
              find_entry-Found keys m.entries key good (omega (arith, valid.load, valid.counted))
                real in
            erase-Found i (ground arith) good f
      ]
    ]
