-- ===== src/Tests/Hashing.antt =====
-- Hash maps.
use mathlib.Core.Path.{subst}
use tx_lang_cxx.Prelude.{
  ℕ, zero, suc, bit_and, ◌≡◌, refl, sym, ◌∙◌, ◌⊎◌, inr, none, some, [], ◌∷◌, ◌==◌, ==_iff, arith,
}
use tx_lang_cxx.HashMap.{Keys, Entry, HashMap, get, insert, erase, rehash_impl, add_all_from}
use tx_lang_cxx.HashMap.Good.{HasKey, Good}
use tx_lang_cxx.HashMap.Keep.{Stored}
use tx_lang_cxx.HashMap.Lookup.{IsValid, IsReal, get-Stored}
use tx_lang_cxx.HashMap.Update.{Inserts, Erases, erase-Erases}
use tx_lang_cxx.HashMap.Insert.{insert-Inserts, rehash_impl_lem}
use tx_lang_cxx.HashMap.Union.{get-add_all_from}

-- numbers other than 0 as keys
abbrev number_keys : Keys ℕ ℕ
number_keys = record {
  equal = λ a b. a == b;
  hash = λ a. a;
  empty_key = 0;
  empty_value = 0;
  tombstone_value = 1;
  is_tombstone_value = λ v. v == 1;
  equal_iff = ==_iff;
  empty_differs = refl;
  tombstone_agrees = refl;
}

abbrev entry_of : ℕ → ℕ → Entry ℕ ℕ
entry_of key value = record { first = key; second = value }

-- full for its capacity of two
abbrev one_five : HashMap ℕ ℕ
one_five = record { count = 1; entries = entry_of 0 0 ∷ entry_of 5 50 ∷ [] }

one_five-HasKey : (p key : ℕ) → HasKey number_keys one_five.entries p key → (p ≡ 1) × (5 ≡ key)
one_five-HasKey zero key (taken, _) = cc
one_five-HasKey (suc zero) key (_, e) = (refl, e)
one_five-HasKey (suc (suc p)) key (taken, _) = cc

one_five-Good : Good number_keys one_five.entries
one_five-Good = record {
  exponent = 1;
  size = refl;
  unique = λ p q key hp hq. (one_five-HasKey p key hp).0 ∙ sym (one_five-HasKey q key hq).0;
  reachable = λ p key hp.
      let (at_one, five) = one_five-HasKey p key hp in
      (0, subst (λ k. bit_and k 1 ≡ p) five (sym at_one));
}

one_five-IsValid : IsValid number_keys one_five
one_five-IsValid = record { shape = inr one_five-Good; counted = refl; load = omega arith }

insert-Inserts_example : Inserts number_keys one_five 7 70 (insert number_keys one_five 7 70)
insert-Inserts_example = insert-Inserts number_keys one_five 7 70 one_five-IsValid refl

erase-Erases_example : Erases number_keys one_five 5 (erase number_keys one_five 5)
erase-Erases_example = erase-Erases number_keys one_five 5 one_five-IsValid refl

get-Stored_example :
    ((get number_keys one_five 5 ≡ some none)
      × ((v : ℕ) → Stored number_keys one_five.entries 5 v → ⊥))
    ⊎ ((v : ℕ) × ((get number_keys one_five 5 ≡ some (some v))
          × Stored number_keys one_five.entries 5 v))
get-Stored_example = get-Stored number_keys one_five 5 one_five-IsValid refl

rehash_impl_lem_example :
    (m' : HashMap ℕ ℕ) × (rehash_impl number_keys one_five 4 ≡ some m')
    × IsValid number_keys m'
    × ((q : ℕ) → IsReal number_keys q → get number_keys m' q ≡ get number_keys one_five q)
rehash_impl_lem_example =
    rehash_impl_lem number_keys one_five 4 2 one_five-IsValid refl (omega arith)

get-add_all_from_example :
    (after : HashMap ℕ ℕ) × (add_all_from number_keys one_five one_five ≡ some after)
    × IsValid number_keys after
    × ((q : ℕ)
        → IsReal number_keys q
        → get number_keys after q ≡ (elim (get number_keys one_five q) [
          | some none ↦ get number_keys one_five q
          | found ↦ found
        ]))
get-add_all_from_example =
    get-add_all_from number_keys one_five one_five one_five-IsValid one_five-IsValid
