-- ===== src/HashMap/Good.antt =====
-- The invariant of the entries of a hash map, and what `find_entry` returns under it.
use mathlib.Core.Path.{subst}
use tx_lang_cxx.Prelude.Bits.{bit_and-mask, pow_pos}
use native.Mathlib.Nat.{mod-lt}
use tx_lang_cxx.Prelude.{
  ℕ, zero, suc, ◌+◌, ◌-◌, ◌%◌, ◌^◌, ◌<◌, bit_and, Bool, true, false, Bool-cases, ◌≡◌, ◌≢◌, sym, ◌⊎◌,
  inl, inr, Option-cases, none, some, List, [], ◌∷◌, length, set, if◌then◌else◌, arith,
}
use tx_lang_cxx.HashMap.{Keys, Entry, is_entry_empty, entry_at, find_in_bucket_impl, find_entry}
use tx_lang_cxx.HashMap.Probe.{
  is_virgin, Reach, Reach-inside, find_loop-ends, find_loop-found, find_loop-Reach, find_loop-hit,
}

none_ne : {i : ℕ} → none ≢ some i
none_ne e = cc

module _ {K V : Type 0} (keys : Keys K V) where
  -- the entries that are not free: keys and tombstones
  abbrev pub used : List (Entry K V) → ℕ
  used [] = 0
  used (entry ∷ entries) = (if is_virgin keys entry then 0 else 1) + used entries

  pub used-free :
      (entries : List (Entry K V))
      → used entries < length entries
      → (p : ℕ) × (p < length entries) × (is_virgin keys (entry_at keys entries p) ≡ true)
  used-free [] lt = absurd (omega arith)
  used-free (entry ∷ entries) lt = elim (Bool-cases (is_virgin keys entry)) [
    | inl free ↦ (0, omega arith, free)
    | inr busy ↦
        let (p, inside, free) = used-free entries (ground arith) in (suc p, omega arith, free)
  ]

  pub used-set :
      (entries : List (Entry K V)) (i : ℕ) (entry : Entry K V)
      → i < length entries
      → used (set entries i entry) + (if is_virgin keys (entry_at keys entries i) then 0 else 1)
        ≡ used entries + (if is_virgin keys entry then 0 else 1)
  used-set [] i entry lt = absurd (omega arith)
  used-set (e ∷ entries) zero entry lt = omega arith
  used-set (e ∷ entries) (suc i) entry lt = omega (arith, used-set entries i entry (omega arith))

  -- where the search for a key starts
  abbrev pub home : List (Entry K V) → K → ℕ
  home entries key = bit_and (keys.hash key) (length entries - 1)

  abbrev pub HasKey : List (Entry K V) → ℕ → K → Type 0
  HasKey entries p key =
      (is_entry_empty keys (entry_at keys entries p) ≡ false)
      × ((entry_at keys entries p).first ≡ key)

  -- A capacity that is a power of two, no key twice, and every key where its search comes by.
  pub record Good (entries : List (Entry K V)) : Type 0 where
    pub exponent : ℕ
    pub size : length entries ≡ 2 ^ exponent
    pub unique : (p q : ℕ) (key : K) → HasKey entries p key → HasKey entries q key → p ≡ q
    pub reachable :
        (p : ℕ) (key : K)
        → HasKey entries p key
        → (n : ℕ) × Reach keys entries n (home entries key) p

  -- The entry of a key, or the one that is to take it.
  pub record Found (entries : List (Entry K V)) (key : K) (i : ℕ) : Type 0 where
    pub found : find_entry keys entries key ≡ some i
    pub inside : i < length entries
    pub reach : (n : ℕ) × Reach keys entries n (home entries key) i
    pub outcome :
        HasKey entries i key
        ⊎ ((is_entry_empty keys (entry_at keys entries i) ≡ true)
            × ((p : ℕ) → HasKey entries p key → ⊥))

  home-inside :
      (entries : List (Entry K V)) (k : ℕ) (key : K)
      → length entries ≡ 2 ^ k
      → home entries key < length entries
  home-inside entries k key size =
      let masked : home entries key ≡ keys.hash key % 2 ^ k =
        rw size (bit_and-mask k (keys.hash key)) in
      let small : keys.hash key % 2 ^ k < 2 ^ k = mod-lt (keys.hash key) (pow_pos k) in omega arith

  HasKey-passes :
      (entries : List (Entry K V)) (p : ℕ) (key : K)
      → HasKey entries p key
      → keys.equal (entry_at keys entries p).first key ≡ true
  HasKey-passes entries p key has = (keys.equal_iff _ key).1 has.1

  passes-HasKey :
      (entries : List (Entry K V)) (p : ℕ) (key : K)
      → keys.equal key keys.empty_key ≡ false
      → keys.equal (entry_at keys entries p).first key ≡ true
      → HasKey entries p key
  passes-HasKey entries p key real passes =
      let same = (keys.equal_iff _ key).0 passes in
      (subst (λ k. keys.equal k keys.empty_key ≡ false) (sym same) real, same)

  Found-at :
      (entries : List (Entry K V)) (key : K)
      → Good entries
      → keys.equal key keys.empty_key ≡ false
      → (i : ℕ) → find_entry keys entries key ≡ some i
      → Found entries key i
  unfolding find_entry find_in_bucket_impl
  Found-at entries key good real i e =
      let func : Entry K V → Bool = λ entry. keys.equal entry.first key in
      let fuel = length entries in
      let start = home entries key in
      let way : (n : ℕ) × Reach keys entries n start i =
        elim (find_loop-Reach keys entries fuel func start i none e) [
          | inl never ↦ absurd (none_ne never)
          | inr way ↦ way
        ] in
      let hit : (p : ℕ) → HasKey entries p key → i ≡ p = λ p has.
        let (n, reach) = good.reachable p key has in
        find_loop-hit keys entries fuel n func start p i none reach has.0
          (HasKey-passes entries p key has)
          (λ j real' passes. good.unique j p key (real', (keys.equal_iff _ key).0 passes) has) e in
      record {
        found = e;
        inside =
            Reach-inside keys entries good.exponent way.0 start i good.size
              (home-inside entries good.exponent key good.size) way.1;
        reach = way;
        outcome = elim (find_loop-found keys entries fuel func start i none e) [
          | inl never ↦ absurd (none_ne never)
          | inr (inr passes) ↦ inl (passes-HasKey entries i key real passes)
          | inr (inl free) ↦ inr (
            free,
            λ p has.
                let same = hit p has in
                let taken : is_entry_empty keys (entry_at keys entries i) ≡ false =
                  subst (λ j. is_entry_empty keys (entry_at keys entries j) ≡ false) (sym same)
                    has.0 in
                cc,
          )
        ];
      }

  -- The search ends as soon as one entry is free.
  pub find_entry-Found :
      (entries : List (Entry K V)) (key : K)
      → Good entries
      → used entries < length entries
      → keys.equal key keys.empty_key ≡ false
      → (i : ℕ) × Found entries key i
  unfolding find_entry find_in_bucket_impl
  find_entry-Found entries key good space real =
      let (p, inside, free) = used-free entries space in
      let here = home-inside entries good.exponent key good.size in
      let func : Entry K V → Bool = λ entry. keys.equal entry.first key in
      let ends =
        find_loop-ends keys entries good.exponent (length entries) func (home entries key) p none
          good.size here inside free (omega arith) in
      elim (Option-cases (find_entry keys entries key)) [
        | inl e ↦ absurd (ends e)
        | inr (i, e) ↦ (i, Found-at entries key good real i e)
      ]
