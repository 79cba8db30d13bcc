-- ===== src/HashMap/Insert.antt =====
-- `set` of a hash map, with the growth before it.
use mathlib.Core.Path.{subst}
use tx_lang_cxx.Prelude.{
  ℕ, zero, suc, ◌+◌, ◌*◌, ◌/◌, ◌^◌, ◌≤◌, Bool, true, false, Bool-cases, ◌≡◌, refl, sym, ◌∙◌, ◌⊎◌,
  inl, inr, Option, some, List, [], ◌∷◌, length, replicate, length-replicate, get_or-replicate, ltb,
  arith,
}
use tx_lang_cxx.HashMap.{
  Keys, Entry, HashMap, grow_capacity, is_entry_empty, entry_at, get, set_grown, insert,
  rehash_impl, empty_entry,
}
use tx_lang_cxx.HashMap.Probe.{is_virgin}
use tx_lang_cxx.HashMap.Good.{used, HasKey, Good}
use tx_lang_cxx.HashMap.Lookup.{IsValid, IsReal, get_same}
use native.Mathlib.Nat.{pow-suc}
use tx_lang_cxx.HashMap.Rehash.{Moved, IsClean, IsApart, rehash_loop-Moved}
use tx_lang_cxx.HashMap.Lookup.{used-Stored}
use tx_lang_cxx.HashMap.Update.{Inserts, set_grown-Inserts}

grow_capacity-power :
    (capacity : ℕ)
    → (capacity ≡ 0) ⊎ ((k : ℕ) × (capacity ≡ 2 ^ k))
    → (k : ℕ) × (grow_capacity capacity ≡ 2 ^ k)
unfolding grow_capacity
grow_capacity-power capacity h = elim (Bool-cases (ltb capacity 8)) [
  | inl small ↦ (3, rw small refl)
  | inr large ↦ elim h [
    | inl zero_size ↦ absurd (ground arith)
    | inr (k, e) ↦ (suc k, rw (large, pow-suc, e) (omega arith))
  ]
]

grow_capacity-room :
    (capacity count : ℕ) → count ≤ capacity * 3 / 4 → count + 1 ≤ grow_capacity capacity * 3 / 4
unfolding grow_capacity
grow_capacity-room capacity count load = elim (Bool-cases (ltb capacity 8)) [
  | inl small ↦ rw small (ground arith)
  | inr large ↦ rw large (ground arith)
]

module _ {K V : Type 0} (keys : Keys K V) where
  abbrev fresh : ℕ → List (Entry K V)
  fresh n = replicate n (empty_entry keys)

  fresh-empty : (n p : ℕ) → entry_at keys (fresh n) p ≡ empty_entry keys
  fresh-empty n p = get_or-replicate n p (empty_entry keys)

  empty_is_empty : is_entry_empty keys (empty_entry keys) ≡ true
  empty_is_empty = (keys.equal_iff _ _).1 refl

  empty-IsVirgin : is_virgin keys (empty_entry keys) ≡ true
  empty-IsVirgin = rw (empty_is_empty, keys.empty_differs) refl

  used-fresh : (n : ℕ) → used keys (fresh n) ≡ 0
  used-fresh zero = refl
  used-fresh (suc n) = ground (arith, empty-IsVirgin, used-fresh n)

  fresh-HasKey : (n p : ℕ) (key : K) → HasKey keys (fresh n) p key → ⊥
  fresh-HasKey n p key has =
      let taken : is_entry_empty keys (empty_entry keys) ≡ false =
        subst (λ x. is_entry_empty keys x ≡ false) (fresh-empty n p) has.0 in
      let gone = empty_is_empty in cc

  fresh-Good : (n k : ℕ) → n ≡ 2 ^ k → Good keys (fresh n)
  fresh-Good n k e = record {
    exponent = k;
    size = length-replicate n (empty_entry keys) ∙ e;
    unique = λ p q key hp hq. absurd (fresh-HasKey n p key hp);
    reachable = λ p key hp. absurd (fresh-HasKey n p key hp);
  }

  -- No key stands twice in a map in order.
  pub once :
      (entries : List (Entry K V)) (p q : ℕ) (key : K)
      → (length entries ≡ 0) ⊎ Good keys entries
      → HasKey keys entries p key
      → HasKey keys entries q key
      → p ≡ q
  once [] p q key shape hp hq = absurd (fresh-HasKey 0 p key hp)
  once (x ∷ entries) p q key shape hp hq = elim shape [
    | inl flat ↦ absurd (omega arith)
    | inr good ↦ good.unique p q key hp hq
  ]

  module _ (m : HashMap K V) (new_cap k : ℕ) (valid : IsValid keys m) (power : new_cap ≡ 2 ^ k)
      (room : m.count + 1 ≤ new_cap * 3 / 4) where
    abbrev blank : HashMap K V
    blank = record { count = 0; entries = fresh new_cap }

    rehash_impl-Moved : Moved keys blank m.entries (rehash_impl keys m new_cap)
    unfolding rehash_impl
    rehash_impl-Moved =
        let size = length-replicate new_cap (empty_entry keys) in
        let bare = used-fresh new_cap in
        let clean : IsClean keys (fresh new_cap) =
          λ p _. rw (fresh-empty new_cap p) empty-IsVirgin in
        let apart : IsApart keys m.entries (fresh new_cap) = (
          λ p q key hp hq. once m.entries p q key valid.shape hp hq,
          λ p q key hp hq. fresh-HasKey new_cap q key hq,
        ) in
        rehash_loop-Moved keys m.entries blank (fresh-Good new_cap k power) (sym bare) clean apart
          (omega (arith, bare, size, valid.counted, room))

    Moved-IsValid :
        (r : Moved keys blank m.entries (rehash_impl keys m new_cap))
        → IsValid keys r.after × (r.after.count + 1 ≤ length r.after.entries * 3 / 4)
    Moved-IsValid r =
        let size = length-replicate new_cap (empty_entry keys) in
        let bare = used-fresh new_cap in
        let cap : length r.after.entries ≡ new_cap = r.size ∙ size in
        let count : r.after.count ≤ m.count =
          omega (arith, r.counted, r.few, bare, valid.counted) in
        (
          record {
            shape = inr r.good;
            counted = r.counted;
            load = omega (arith, cap, count, room);
          },
          omega (arith, cap, count, room),
        )

    Moved-get :
        (r : Moved keys blank m.entries (rehash_impl keys m new_cap)) (q : K)
        → IsReal keys q
        → get keys r.after q ≡ get keys m q
    Moved-get r q real = get_same keys r.after m q (Moved-IsValid r).0 valid real (λ v. (
      λ s. elim ((r.same q v).0 s) [
        | inl a ↦ absurd (used-Stored keys (fresh new_cap) q v (used-fresh new_cap) a)
        | inr b ↦ b
      ],
      λ s. (r.same q v).1 (inr s),
    ))

  -- A rehash into a capacity that has room for one more entry ends, with a map in order that gives
  -- what the old one gives.
  pub rehash_impl_lem :
      (m : HashMap K V) (new_cap k : ℕ)
      → IsValid keys m
      → new_cap ≡ 2 ^ k
      → m.count + 1 ≤ new_cap * 3 / 4
      → (m' : HashMap K V) × (rehash_impl keys m new_cap ≡ some m')
        × IsValid keys m'
        × ((q : K) → IsReal keys q → get keys m' q ≡ get keys m q)
  rehash_impl_lem m new_cap k valid power room =
      let r = rehash_impl-Moved m new_cap k valid power room in
      (
        r.after,
        r.returns,
        (Moved-IsValid m new_cap k valid power room r).0,
        Moved-get m new_cap k valid power room r,
      )

  -- The shape of a valid map gives its capacity.
  capacity_cases :
      (m : HashMap K V)
      → IsValid keys m
      → (length m.entries ≡ 0) ⊎ ((k : ℕ) × (length m.entries ≡ 2 ^ k))
  capacity_cases m valid = elim valid.shape [
    | inl e ↦ inl e
    | inr good ↦ inr (good.exponent, good.size)
  ]

  module _ (m : HashMap K V) (key : K) (value : V) (valid : IsValid keys m)
      (real : IsReal keys key) where
    through :
        (m' : HashMap K V) (result result' : Option (Bool × HashMap K V))
        → ((q : K) → IsReal keys q → get keys m' q ≡ get keys m q)
        → result' ≡ result
        → Inserts keys m' key value result
        → Inserts keys m key value result'
    through m' result result' same e r = record {
      is_new = r.is_new;
      after = r.after;
      returns = e ∙ r.returns;
      valid = r.valid;
      here = r.here;
      others = λ q real' away. r.others q real' away ∙ same q real';
      new_iff = (λ n. sym (same key real) ∙ r.new_iff.0 n, λ n. r.new_iff.1 (same key real ∙ n));
    }

    grown-Inserts :
        (new_cap k : ℕ)
        → new_cap ≡ grow_capacity (length m.entries)
        → new_cap ≡ 2 ^ k
        → m.count + 1 ≤ new_cap * 3 / 4
        → ltb (length m.entries * 3 / 4) (m.count + 1) ≡ true
        → Inserts keys m key value (insert keys m key value)
    unfolding insert
    grown-Inserts new_cap k e power room full =
        let r = rehash_impl-Moved m new_cap k valid power room in
        let (valid', room') = Moved-IsValid m new_cap k valid power room r in
        through r.after (set_grown keys r.after key value) _
          (Moved-get m new_cap k valid power room r) (rw (full, sym e, r.returns) refl)
          (set_grown-Inserts keys r.after key value valid' r.good real room')

    -- `set` on a map in order ends, whether it grows the map or not: the new map is in order, gives the
    -- value under the key, and what it gave before under every other key; the flag is true exactly if
    -- the key had no value.
    pub insert-Inserts : Inserts keys m key value (insert keys m key value)
    unfolding insert
    insert-Inserts = elim (Bool-cases (ltb (length m.entries * 3 / 4) (m.count + 1))) [
      | inl full ↦
          let (k, power) = grow_capacity-power (length m.entries) (capacity_cases m valid) in
          grown-Inserts (grow_capacity (length m.entries)) k refl power
            (grow_capacity-room (length m.entries) m.count valid.load) full
      | inr space ↦ elim valid.shape [
        | inl flat ↦ absurd (ground (arith, flat))
        | inr good ↦
            through m (set_grown keys m key value) _ (λ q _. refl) (rw space refl)
              (set_grown-Inserts keys m key value valid good real (ground arith))
      ]
    ]
