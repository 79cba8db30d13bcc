-- ===== src/HashMap/Keep.antt =====
-- The writes of an entry keep the invariant, and change what is stored under one key.
use native.Mathlib.Decide.{ℕ_discrete}
use mathlib.Core.Path.{subst}
use tx_lang_cxx.Prelude.{
  ℕ, ◌-◌, ◌<◌, bit_and, true, false, ◌≡◌, ◌≢◌, refl, sym, ◌∙◌, inl, inr, List, length, set,
  length-set, get_or-set_self, get_or-set_ne, arith,
}
use tx_lang_cxx.HashMap.{Keys, Entry, is_entry_empty, entry_at, tombstone_entry, empty_entry}
use tx_lang_cxx.HashMap.Probe.{is_virgin, Reach, Reach-kept}
use tx_lang_cxx.HashMap.Good.{home, HasKey, Good, Found}

module _ {K V : Type 0} (keys : Keys K V) where
  -- The value that is stored under a key.
  abbrev pub Stored : List (Entry K V) → K → V → Type 0
  Stored entries key value =
      (p : ℕ) × HasKey keys entries p key × ((entry_at keys entries p).second ≡ value)

  module _ (entries : List (Entry K V)) (i : ℕ) (entry : Entry K V) (lt : i < length entries) where
    pub entry_at-set_self : entry_at keys (set entries i entry) i ≡ entry
    entry_at-set_self = get_or-set_self entries i entry (empty_entry keys) lt

    pub entry_at-set_ne :
        (j : ℕ) → i ≢ j → entry_at keys (set entries i entry) j ≡ entry_at keys entries j
    entry_at-set_ne j away = get_or-set_ne entries i j entry (empty_entry keys) away

    -- A write of an entry that is in use or a tombstone keeps the ways of the search.
    Reach-set :
        is_virgin keys entry ≡ false
        → (n index r : ℕ) → Reach keys entries n index r
        → Reach keys (set entries i entry) n index r
    Reach-set busy n index r reach =
        Reach-kept keys entries (set entries i entry) n index r (sym (length-set entries i entry))
          (λ j was. elim (ℕ_discrete i j) [
            | yes e ↦
                subst (λ x. is_virgin keys x ≡ false)
                  (sym (
                    subst (λ x. entry_at keys (set entries i entry) x ≡ entry) e entry_at-set_self))
                  busy
            | no away ↦ subst (λ x. is_virgin keys x ≡ false) (sym (entry_at-set_ne j away)) was
          ])
          reach

    Ways-set :
        is_virgin keys entry ≡ false
        → (p : ℕ) (key : K) → (n : ℕ) × Reach keys entries n (home keys entries key) p
        → (n : ℕ) × Reach keys (set entries i entry) n (home keys (set entries i entry) key) p
    Ways-set busy p key (n, reach) = (
      n,
      subst (λ l. Reach keys (set entries i entry) n (bit_and (keys.hash key) (l - 1)) p)
          (sym (length-set entries i entry)) (Reach-set busy n (home keys entries key) p reach),
    )

    pub HasKey-set_ne :
        (p : ℕ) (key : K)
        → i ≢ p
        → HasKey keys (set entries i entry) p key
        → HasKey keys entries p key
    HasKey-set_ne p key away has =
        subst (λ x. (is_entry_empty keys x ≡ false) × (x.first ≡ key)) (entry_at-set_ne p away) has

    HasKey-set_self :
        (key : K)
        → HasKey keys (set entries i entry) i key
        → (is_entry_empty keys entry ≡ false) × (entry.first ≡ key)
    HasKey-set_self key has =
        subst (λ x. (is_entry_empty keys x ≡ false) × (x.first ≡ key)) entry_at-set_self has

    pub HasKey-set_at :
        (p : ℕ) (key : K)
        → i ≡ p
        → HasKey keys (set entries i entry) p key
        → (is_entry_empty keys entry ≡ false) × (entry.first ≡ key)
    HasKey-set_at p key e has =
        HasKey-set_self key (subst (λ x. HasKey keys (set entries i entry) x key) (sym e) has)

  -- The entry of a key is written where the search for it ended.
  pub Good-set :
      (entries : List (Entry K V)) (key : K) (value : V) (i : ℕ)
      → Good keys entries
      → keys.equal key keys.empty_key ≡ false
      → Found keys entries key i
      → Good keys (set entries i (record { first = key; second = value }))
  Good-set entries key value i good real f =
      let entry : Entry K V = record { first = key; second = value } in
      let busy : is_virgin keys entry ≡ false = rw real refl in
      let other : (q : ℕ) → i ≢ q → HasKey keys (set entries i entry) q key → ⊥ = λ q away has.
        let old = HasKey-set_ne entries i entry f.inside q key away has in
        elim f.outcome [
          | inl here ↦ away (good.unique i q key here old)
          | inr (free, none_has) ↦ none_has q old
        ] in
      record {
        exponent = good.exponent;
        size = length-set entries i entry ∙ good.size;
        unique = λ p q k hp hq. elim (ℕ_discrete i p) [
          | yes ip ↦ elim (ℕ_discrete i q) [
            | yes iq ↦ sym ip ∙ iq
            | no nq ↦
                let same = (HasKey-set_at entries i entry f.inside p k ip hp).1 in
                absurd
                  (other q nq (subst (λ x. HasKey keys (set entries i entry) q x) (sym same) hq))
          ]
          | no np ↦ elim (ℕ_discrete i q) [
            | yes iq ↦
                let same = (HasKey-set_at entries i entry f.inside q k iq hq).1 in
                absurd
                  (other p np (subst (λ x. HasKey keys (set entries i entry) p x) (sym same) hp))
            | no nq ↦
                good.unique p q k (HasKey-set_ne entries i entry f.inside p k np hp)
                  (HasKey-set_ne entries i entry f.inside q k nq hq)
          ]
        ];
        reachable = λ p k hp. elim (ℕ_discrete i p) [
          | yes ip ↦
              let same = (HasKey-set_at entries i entry f.inside p k ip hp).1 in
              let way = Ways-set entries i entry f.inside busy i key f.reach in
              subst
                (λ x.
                  (n : ℕ) × Reach keys (set entries i entry) n (home keys (set entries i entry) k)
                    x)
                ip
                (subst
                  (λ x.
                    (n : ℕ) × Reach keys (set entries i entry) n (home keys (set entries i entry) x)
                      i)
                  same way)
          | no np ↦
              Ways-set entries i entry f.inside busy p k
                (good.reachable p k (HasKey-set_ne entries i entry f.inside p k np hp))
        ];
      }

  tombstone-busy : is_virgin keys (tombstone_entry keys) ≡ false
  tombstone-busy = rw keys.tombstone_agrees (ground arith)

  -- A tombstone may be written over any entry.
  pub Good-erase :
      (entries : List (Entry K V)) (i : ℕ)
      → Good keys entries
      → i < length entries
      → Good keys (set entries i (tombstone_entry keys))
  Good-erase entries i good inside =
      let entry = tombstone_entry keys in
      let gone : is_entry_empty keys entry ≡ true = (keys.equal_iff _ _).1 refl in
      let away : (p : ℕ) (k : K) → HasKey keys (set entries i entry) p k → i ≢ p =
        λ p k has e. let taken = (HasKey-set_at entries i entry inside p k e has).0 in cc in
      let old = λ (p : ℕ) (k : K) (has : HasKey keys (set entries i entry) p k).
        HasKey-set_ne entries i entry inside p k (away p k has) has in
      record {
        exponent = good.exponent;
        size = length-set entries i entry ∙ good.size;
        unique = λ p q k hp hq. good.unique p q k (old p k hp) (old q k hq);
        reachable = λ p k hp.
            Ways-set entries i entry inside tombstone-busy p k (good.reachable p k (old p k hp));
      }
