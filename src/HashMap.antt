-- ===== src/HashMap.antt =====
-- The class template `HashMap` of tx-runtime/include/tx/hash_map.hxx: a table with open addressing,
-- linear probing and tombstones. The template's parameters are the fields of `Keys`. A reference to
-- an entry is its index, and `capacity` is the length of the array; the load factor of three
-- quarters is exact on the capacities, which are powers of two.
pub mod Probe
pub mod Good
pub mod Keep
pub mod Lookup
pub mod Rehash
pub mod Update
pub mod Insert
pub mod Union
use tx_lang_cxx.Prelude.{
  ℕ, zero, suc, ◌+◌, ◌-◌, ◌*◌, ◌/◌, bit_and, Bool, true, false, not, ◌&&◌, ◌≡◌, ◌↔◌, Option, none,
  some, List, [], ◌∷◌, length, get_or, set, replicate, ltb, ◌==◌, if◌then◌else◌,
}

-- `KeyEqual`, `Hash`, and the constants that mark entries without a key.
pub record Keys (K V : Type 0) : Type 0 where
  pub equal : K → K → Bool
  pub hash : K → ℕ
  pub empty_key : K
  pub empty_value : V
  pub tombstone_value : V
  pub is_tombstone_value : V → Bool
  pub equal_iff : (a b : K) → (equal a b ≡ true) ↔ (a ≡ b)
  pub empty_differs : is_tombstone_value empty_value ≡ false
  pub tombstone_agrees : is_tombstone_value tombstone_value ≡ true

pub record Entry (K V : Type 0) : Type 0 where
  pub first : K
  pub second : V

pub record HashMap (K V : Type 0) : Type 0 where
  pub count : ℕ
  pub entries : List (Entry K V)

abbrev pub or_else : Option ℕ → ℕ → ℕ
or_else none index = index
or_else (some t) index = t

-- `grow_capacity` of memory_inl.hxx
unfoldable pub grow_capacity : ℕ → ℕ
grow_capacity capacity = if ltb capacity 8 then 8 else capacity * 2

module _ {K V : Type 0} (keys : Keys K V) where
  abbrev pub empty_entry : Entry K V
  empty_entry = record { first = keys.empty_key; second = keys.empty_value }

  abbrev pub tombstone_entry : Entry K V
  tombstone_entry = record { first = keys.empty_key; second = keys.tombstone_value }

  abbrev pub is_entry_empty : Entry K V → Bool
  is_entry_empty entry = keys.equal entry.first keys.empty_key

  abbrev pub is_entry_tombstone : Entry K V → Bool
  is_entry_tombstone entry = keys.is_tombstone_value entry.second

  abbrev pub entry_at : List (Entry K V) → ℕ → Entry K V
  entry_at entries index = get_or entries index empty_entry

  -- The loop of `find_in_bucket_impl`, with the first tombstone met.
  unfoldable pub find_loop : ℕ → List (Entry K V) → (Entry K V → Bool) → ℕ → Option ℕ → Option ℕ
  find_loop zero entries func index tombstone = none
  find_loop (suc fuel) entries func index tombstone =
      let entry = entry_at entries index in
      let next = bit_and (index + 1) (length entries - 1) in
      let marked = find_loop fuel entries func next (some (or_else tombstone index)) in
      let on = find_loop fuel entries func next tombstone in
      if is_entry_empty entry
      then (if not (is_entry_tombstone entry) then some (or_else tombstone index) else marked)
      else if func entry
      then some index
      else on

  -- As many rounds as entries are enough.
  unfoldable pub find_in_bucket_impl : List (Entry K V) → ℕ → (Entry K V → Bool) → Option ℕ
  find_in_bucket_impl entries hash func =
      find_loop (length entries) entries func (bit_and hash (length entries - 1)) none

  unfoldable pub find_entry : List (Entry K V) → K → Option ℕ
  find_entry entries key =
      find_in_bucket_impl entries (keys.hash key) (λ entry. keys.equal entry.first key)

  -- `none` outside where the search does not end; inside it is the null pointer.
  unfoldable pub get : HashMap K V → K → Option (Option V)
  get m key = if m.count == 0 then some none else elim (find_entry m.entries key) [
    | none ↦ none
    | some i ↦
        some (
          if is_entry_empty (entry_at m.entries i)
          then none
          else some (entry_at m.entries i).second)
  ]

  -- the loop of `rehash_impl` over the old entries
  unfoldable pub rehash_loop : List (Entry K V) → HashMap K V → Option (HashMap K V)
  rehash_loop [] m = some m
  rehash_loop (src ∷ old) m =
      let skipped = rehash_loop old m in
      let moved : Option (HashMap K V) = elim (find_entry m.entries src.first) [
        | none ↦ none
        | some dest ↦
            rehash_loop old (record { count = m.count + 1; entries = set m.entries dest src })
      ] in
      if is_entry_empty src then skipped else moved

  unfoldable pub rehash_impl : HashMap K V → ℕ → Option (HashMap K V)
  rehash_impl m new_cap =
      rehash_loop m.entries (record { count = 0; entries = replicate new_cap empty_entry })

  -- the rest of `set`, behind the growth
  unfoldable pub set_grown : HashMap K V → K → V → Option (Bool × HashMap K V)
  set_grown m key value = elim (find_entry m.entries key) [
    | none ↦ none
    | some i ↦
        let entry = entry_at m.entries i in
        let is_new_key = is_entry_empty entry in
        some (
          is_new_key,
          record {
            count = if is_new_key && not (is_entry_tombstone entry) then m.count + 1 else m.count;
            entries = set m.entries i (record { first = key; second = value });
          },
        )
  ]

  -- `HashMap::set`
  unfoldable pub insert : HashMap K V → K → V → Option (Bool × HashMap K V)
  insert m key value =
      let grown : Option (Bool × HashMap K V) =
        elim (rehash_impl m (grow_capacity (length m.entries))) [
          | none ↦ none
          | some m' ↦ set_grown m' key value
        ] in
      if ltb (length m.entries * 3 / 4) (m.count + 1) then grown else set_grown m key value

  unfoldable pub erase : HashMap K V → K → Option (Bool × HashMap K V)
  erase m key = if m.count == 0 then some (false, m) else elim (find_entry m.entries key) [
    | none ↦ none
    | some i ↦ some (
        if is_entry_empty (entry_at m.entries i)
        then (false, m)
        else (true, record m { entries = set m.entries i tombstone_entry }))
  ]

  -- `clear` destroys the entries and forgets the capacity.
  unfoldable pub clear : HashMap K V → HashMap K V
  clear m = record { count = 0; entries = [] }

  -- the loop of `add_all_from` over the entries of the other map
  unfoldable pub add_entries : List (Entry K V) → HashMap K V → Option (HashMap K V)
  add_entries [] m = some m
  add_entries (entry ∷ from) m =
      let skipped = add_entries from m in
      let added : Option (HashMap K V) = elim (insert m entry.first entry.second) [
        | none ↦ none
        | some (_, m') ↦ add_entries from m'
      ] in
      if not (is_entry_empty entry) then added else skipped

  unfoldable pub add_all_from : HashMap K V → HashMap K V → Option (HashMap K V)
  add_all_from m from = add_entries from.entries m

  -- The entry that passes a test among those of a hash, if there is one.
  unfoldable pub find_in_bucket : HashMap K V → ℕ → (Entry K V → Bool) → Option (Option ℕ)
  find_in_bucket m hash func =
      if m.count == 0 then some none else elim (find_in_bucket_impl m.entries hash func) [
        | none ↦ none
        | some i ↦ some (if is_entry_empty (entry_at m.entries i) then none else some i)
      ]

  -- `HashSet::add` of hash_set.hxx, whose values are all the empty one
  unfoldable pub add_to_set : HashMap K V → K → Option (Bool × HashMap K V)
  add_to_set m val = insert m val keys.empty_value
