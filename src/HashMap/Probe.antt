-- ===== src/HashMap/Probe.antt =====
-- The probing of `find_in_bucket_impl`.
use native.Mathlib.Decide.{dec_lt, ℕ_discrete}
use native.Mathlib.Nat.{mod-eq_of_lt, mod_self}
use mathlib.Core.Path.{subst}
use mathlib.Core.Option.{some-injective}
use tx_lang_cxx.Prelude.Bits.{bit_and-mask}
use tx_lang_cxx.Prelude.{
  ℕ, zero, suc, ◌+◌, ◌-◌, ◌%◌, ◌^◌, ◌≤◌, ◌<◌, bit_and, Bool, true, false, not, ◌&&◌, ◌≡◌, ◌≢◌, sym,
  ap, ◌∙◌, ◌⊎◌, inl, inr, Option, none, some, List, length, arith,
}
use tx_lang_cxx.HashMap.{
  Keys, Entry, or_else, is_entry_empty, is_entry_tombstone, entry_at, find_loop,
}

module _ {K V : Type 0} (keys : Keys K V) where
  -- no key, and no tombstone
  abbrev pub is_virgin : Entry K V → Bool
  is_virgin entry = is_entry_empty keys entry && not (is_entry_tombstone keys entry)

  module _ (entries : List (Entry K V)) where
    abbrev pub next_of : ℕ → ℕ
    next_of index = bit_and (index + 1) (length entries - 1)

    -- Probing comes from one index to another, past entries that are in use or tombstones.
    abbrev pub Reach : ℕ → ℕ → ℕ → Type 0
    Reach zero index p = index ≡ p
    Reach (suc n) index p =
        (is_virgin (entry_at keys entries index) ≡ false) × Reach n (next_of index) p

    pub next_cases :
        (k index : ℕ)
        → length entries ≡ 2 ^ k
        → index < length entries
        → ((index + 1 < length entries) × (next_of index ≡ index + 1))
          ⊎ ((index + 1 ≡ length entries) × (next_of index ≡ 0))
    next_cases k index size lt =
        let next : next_of index ≡ (index + 1) % length entries =
          rw size (bit_and-mask k (index + 1)) in
        elim (dec_lt (index + 1) (length entries)) [
          | yes inner ↦ inl (inner, next ∙ mod-eq_of_lt inner)
          | no last ↦
              let wrap : index + 1 ≡ length entries = omega arith in
              inr (wrap, next ∙ ap (λ i. i % length entries) wrap ∙ mod_self (length entries))
        ]

    -- A step comes closer to an entry.
    next_near :
        (k fuel index p : ℕ)
        → length entries ≡ 2 ^ k
        → index < length entries
        → p < length entries
        → ((index ≤ p) × (p < index + suc fuel))
          ⊎ ((p < index) × (length entries + p < index + suc fuel))
        → index ≢ p
        → (next_of index < length entries)
          × (((next_of index ≤ p) × (p < next_of index + fuel))
              ⊎ ((p < next_of index) × (length entries + p < next_of index + fuel)))
    next_near k fuel index p size lt inside near away = elim (next_cases k index size lt) [
      | inl (inner, next) ↦ (omega arith, ground arith)
      | inr (last, next) ↦ (omega arith, ground arith)
    ]

    -- The search ends if there is a free entry, `p`.
    pub find_loop-ends :
        (k fuel : ℕ) (func : Entry K V → Bool) (index p : ℕ) (tombstone : Option ℕ)
        → length entries ≡ 2 ^ k
        → index < length entries
        → p < length entries
        → is_virgin (entry_at keys entries p) ≡ true
        → ((index ≤ p) × (p < index + fuel)) ⊎ ((p < index) × (length entries + p < index + fuel))
        → find_loop keys fuel entries func index tombstone ≢ none
    unfolding find_loop
    find_loop-ends k zero func index p tombstone size lt inside free near = absurd (omega arith)
    find_loop-ends k (suc fuel) func index p tombstone size lt inside free near =
        elim (ℕ_discrete index p) [
          | yes here ↦
              let free' : is_virgin (entry_at keys entries index) ≡ true = rw here free in
              ground arith
          | no away ↦
              let closer = next_near k fuel index p size lt inside near away in
              ground (
                arith,
                find_loop-ends k fuel func (next_of index) p (some (or_else tombstone index)) size
                    closer.0 inside free closer.1,
                find_loop-ends k fuel func (next_of index) p tombstone size closer.0 inside free
                    closer.1,
              )
        ]

    find_loop-zero :
        (func : Entry K V → Bool) (index r : ℕ) (tombstone : Option ℕ)
        → find_loop keys zero entries func index tombstone ≢ some r
    unfolding find_loop
    find_loop-zero func index r tombstone e = cc

    -- One round of the search.
    find_loop-round :
        (fuel : ℕ) (func : Entry K V → Bool) (index r : ℕ) (tombstone : Option ℕ)
        → find_loop keys (suc fuel) entries func index tombstone ≡ some r
        → (r ≡ or_else tombstone index)
          ⊎ ((r ≡ index)
              ⊎ ((is_virgin (entry_at keys entries index) ≡ false)
                  × ((find_loop keys fuel entries func
                          (next_of index)
                          (some (or_else tombstone index))
                        ≡ some r)
                      ⊎ (find_loop keys fuel entries func (next_of index) tombstone ≡ some r))))
    unfolding find_loop
    find_loop-round fuel func index r tombstone e = ground arith

    step_back :
        (index r : ℕ)
        → is_virgin (entry_at keys entries index) ≡ false
        → (n : ℕ) × Reach n (next_of index) r
        → (n : ℕ) × Reach n index r
    step_back index r used (n, reach) = (suc n, (used, reach))

    start_or_tombstone :
        (index r : ℕ) (tombstone : Option ℕ)
        → r ≡ or_else tombstone index
        → (tombstone ≡ some r) ⊎ ((n : ℕ) × Reach n index r)
    start_or_tombstone index r none e = inr (0, sym e)
    start_or_tombstone index r (some t) e = inl (ap some (sym e))

    -- Where the search ends: behind probing, or at the tombstone it started with.
    pub find_loop-Reach :
        (fuel : ℕ) (func : Entry K V → Bool) (index r : ℕ) (tombstone : Option ℕ)
        → find_loop keys fuel entries func index tombstone ≡ some r
        → (tombstone ≡ some r) ⊎ ((n : ℕ) × Reach n index r)
    find_loop-Reach zero func index r tombstone e = absurd (find_loop-zero func index r tombstone e)
    find_loop-Reach (suc fuel) func index r tombstone e =
        elim (find_loop-round fuel func index r tombstone e) [
          | inl start ↦ start_or_tombstone index r tombstone start
          | inr (inl here) ↦ inr (0, sym here)
          | inr (inr (used, inl marked)) ↦
              elim (find_loop-Reach fuel func (next_of index) r (some (or_else tombstone index))
                marked) [
                  | inl start ↦
                      start_or_tombstone index r tombstone (some-injective r _ (sym start))
                  | inr reach ↦ inr (step_back index r used reach)
                ]
          | inr (inr (used, inr on)) ↦
              elim (find_loop-Reach fuel func (next_of index) r tombstone on) [
                | inl start ↦ inl start
                | inr reach ↦ inr (step_back index r used reach)
              ]
        ]

    -- What the search finds: an entry without a key, or one that passes.
    pub find_loop-found :
        (fuel : ℕ) (func : Entry K V → Bool) (index r : ℕ) (tombstone : Option ℕ)
        → find_loop keys fuel entries func index tombstone ≡ some r
        → (tombstone ≡ some r)
          ⊎ ((is_entry_empty keys (entry_at keys entries r) ≡ true)
              ⊎ (func (entry_at keys entries r) ≡ true))
    unfolding find_loop
    find_loop-found zero func index r tombstone e = cc
    find_loop-found (suc fuel) func index r none e = ground (
      arith,
      find_loop-found fuel func (next_of index) r (some index),
      find_loop-found fuel func (next_of index) r none,
    )
    find_loop-found (suc fuel) func index r (some t) e =
        ground (arith, find_loop-found fuel func (next_of index) r (some t))

    -- The one entry that passes is found, if probing comes to it.
    pub find_loop-hit :
        (fuel n : ℕ) (func : Entry K V → Bool) (index p r : ℕ) (tombstone : Option ℕ)
        → Reach n index p
        → is_entry_empty keys (entry_at keys entries p) ≡ false
        → func (entry_at keys entries p) ≡ true
        → ((i : ℕ)
            → is_entry_empty keys (entry_at keys entries i) ≡ false
            → func (entry_at keys entries i) ≡ true
            → i ≡ p)
        → find_loop keys fuel entries func index tombstone ≡ some r
        → r ≡ p
    unfolding find_loop
    find_loop-hit zero n func index p r tombstone reach used passes one e = cc
    find_loop-hit (suc fuel) zero func index p r tombstone reach used passes one e = ground (
      arith,
      ap (λ i. is_entry_empty keys (entry_at keys entries i)) reach,
      ap (λ i. func (entry_at keys entries i)) reach,
    )
    find_loop-hit (suc fuel) (suc n) func index p r tombstone (go, reach) used passes one e =
        ground (
          arith,
          one index,
          find_loop-hit fuel n func (next_of index) p r (some (or_else tombstone index)) reach used
              passes one,
          find_loop-hit fuel n func (next_of index) p r tombstone reach used passes one,
        )

    -- Probing from inside stays inside.
    pub Reach-inside :
        (k n index r : ℕ)
        → length entries ≡ 2 ^ k
        → index < length entries
        → Reach n index r
        → r < length entries
    Reach-inside k zero index r size lt reach = omega arith
    Reach-inside k (suc n) index r size lt (used, reach) =
        Reach-inside k n (next_of index) r size
          (elim (next_cases k index size lt) [
            | inl (inner, next) ↦ omega arith
            | inr (last, next) ↦ omega arith
          ])
          reach

  -- A change that leaves no entry free keeps the probing.
  pub Reach-kept :
      (old new : List (Entry K V)) (n index r : ℕ)
      → length old ≡ length new
      → ((i : ℕ)
          → is_virgin (entry_at keys old i) ≡ false
          → is_virgin (entry_at keys new i) ≡ false)
      → Reach old n index r
      → Reach new n index r
  Reach-kept old new zero index r same kept reach = reach
  Reach-kept old new (suc n) index r same kept (used, reach) = (
    kept index used,
    Reach-kept old new n (next_of new index) r same kept
        (subst (λ l. Reach old n (bit_and (index + 1) (l - 1)) r) same reach),
  )
