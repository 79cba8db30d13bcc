-- ===== src/HashMap/Union.antt =====
-- `add_all_from` of a hash map: the union, in which the other map wins.
use mathlib.Core.Path.{subst}
use tx_lang_cxx.Prelude.{
  ℕ, zero, suc, true, false, Bool-cases, ◌≡◌, ◌≢◌, refl, sym, ap, ◌∙◌, inl, inr, Option, none, some,
  List, [], ◌∷◌, arith,
}
use tx_lang_cxx.HashMap.{Keys, Entry, HashMap, is_entry_empty, get, insert}
use tx_lang_cxx.HashMap.Good.{HasKey}
use tx_lang_cxx.HashMap.Keep.{Stored}
use tx_lang_cxx.HashMap.Lookup.{IsValid, IsReal, get-Stored}
use tx_lang_cxx.HashMap.{add_entries, add_all_from}
use tx_lang_cxx.HashMap.Lookup.{used-Stored}
use tx_lang_cxx.HashMap.Update.{Inserts}
use tx_lang_cxx.HashMap.Insert.{once, insert-Inserts}

suc_inj : {p q : ℕ} → suc p ≡ suc q → p ≡ q
suc_inj e = omega arith

absurd_suc : {p : ℕ} → suc p ≢ zero
absurd_suc e = omega arith

true_false : true ≢ false
true_false e = cc

module _ {K V : Type 0} (keys : Keys K V) where
  -- A map in order that gives what the entries store, and elsewhere what another map gives.
  record Adds (m : HashMap K V) (from : List (Entry K V)) (result : Option (HashMap K V))
      : Type 0 where
    after : HashMap K V
    returns : result ≡ some after
    valid : IsValid keys after
    stored :
        (q : K) (v : V) → IsReal keys q → Stored keys from q v → get keys after q ≡ some (some v)
    others :
        (q : K)
        → IsReal keys q
        → ((v : V) → Stored keys from q v → ⊥)
        → get keys after q ≡ get keys m q

  abbrev IsOnce : List (Entry K V) → Type 0
  IsOnce from = (p q : ℕ) (key : K) → HasKey keys from p key → HasKey keys from q key → p ≡ q

  skip_entry :
      (entry : Entry K V) (from : List (Entry K V)) (m : HashMap K V)
      (result result' : Option (HashMap K V))
      → is_entry_empty keys entry ≡ true
      → result' ≡ result
      → Adds m from result
      → Adds m (entry ∷ from) result'
  skip_entry entry from m result result' free e r = record {
    after = r.after;
    returns = e ∙ r.returns;
    valid = r.valid;
    stored = λ q v real s. r.stored q v real (behind q v s);
    others = λ q real missing. r.others q real (λ v (p, has, same). missing v (suc p, has, same));
  }
    where
      behind : (q : K) (v : V) → Stored keys (entry ∷ from) q v → Stored keys from q v
      behind q v (zero, has, same) = absurd (true_false (sym free ∙ has.0))
      behind q v (suc p, has, same) = (p, has, same)

  add_entry :
      (entry : Entry K V) (from : List (Entry K V)) (m : HashMap K V)
      (result result' : Option (HashMap K V))
      → is_entry_empty keys entry ≡ false
      → IsOnce (entry ∷ from)
      → (i : Inserts keys m entry.first entry.second (insert keys m entry.first entry.second))
      → result' ≡ result
      → Adds i.after from result
      → Adds m (entry ∷ from) result'
  add_entry entry from m result result' taken one i e r = record {
    after = r.after;
    returns = e ∙ r.returns;
    valid = r.valid;
    stored = found;
    others = λ q real missing.
        r.others q real (λ v (p, has, same). missing v (suc p, has, same))
        ∙ i.others q real (λ same. missing entry.second (zero, (taken, sym same), refl));
  }
    where
      found :
          (q : K) (v : V)
          → IsReal keys q
          → Stored keys (entry ∷ from) q v
          → get keys r.after q ≡ some (some v)
      found q v real (zero, has, same) =
          let alone : (w : V) → Stored keys from q w → ⊥ =
            λ w (p, has', _). absurd_suc (one (suc p) zero q has' has) in
          let here : get keys i.after q ≡ some (some v) =
            subst (λ k. get keys i.after k ≡ some (some v)) has.1
              (i.here ∙ ap (λ x. some (some x)) same) in
          r.others q real alone ∙ here
      found q v real (suc p, has, same) = r.stored q v real (p, has, same)

  add_entries-Adds :
      (from : List (Entry K V)) (m : HashMap K V)
      → IsValid keys m
      → IsOnce from
      → Adds m from (add_entries keys from m)
  unfolding add_entries
  add_entries-Adds [] m valid one = record {
    after = m;
    returns = refl;
    valid = valid;
    stored = λ q v real s. absurd (used-Stored keys [] q v refl s);
    others = λ q real _. refl;
  }
  add_entries-Adds (entry ∷ from) m valid one = elim (Bool-cases (is_entry_empty keys entry)) [
    | inl free ↦
        skip_entry entry from m (add_entries keys from m) _ free (rw free refl)
          (add_entries-Adds from m valid (λ p q key hp hq. suc_inj (one (suc p) (suc q) key hp hq)))
    | inr taken ↦
        let i = insert-Inserts keys m entry.first entry.second valid taken in
        add_entry entry from m (add_entries keys from i.after) _ taken one i
          (rw (taken, i.returns) refl)
          (add_entries-Adds from i.after i.valid
            (λ p q key hp hq. suc_inj (one (suc p) (suc q) key hp hq)))
  ]

  -- `add_all_from` on maps in order ends, with a map in order: under each key it gives the value of
  -- the other map, and what was there before if the other map has none.
  pub get-add_all_from :
      (m from : HashMap K V)
      → IsValid keys m
      → IsValid keys from
      → (after : HashMap K V) × (add_all_from keys m from ≡ some after)
        × IsValid keys after
        × ((q : K)
            → IsReal keys q
            → get keys after q
              ≡ (elim (get keys from q) [ some none ↦ get keys m q | found ↦ found ]))
  unfolding add_all_from
  get-add_all_from m from valid valid' =
      let r =
        add_entries-Adds from.entries m valid
          (λ p q key hp hq. once keys from.entries p q key valid'.shape hp hq) in
      (
        r.after,
        r.returns,
        r.valid,
        λ q real. elim (get-Stored keys from q valid' real) [
          | inl (e, missing) ↦ rw e (r.others q real missing)
          | inr (v, (e, s)) ↦ rw e (r.stored q v real s)
        ],
      )
