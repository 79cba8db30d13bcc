-- ===== src/HashMap/Rehash.antt =====
-- The loop of `rehash_impl` keeps what is stored.
use native.Mathlib.Decide.{ℕ_discrete}
use mathlib.Core.Path.{subst}
use tx_lang_cxx.Prelude.{
  ℕ, zero, suc, ◌+◌, ◌≤◌, ◌<◌, true, false, Bool-cases, ◌≡◌, ◌≢◌, refl, sym, ap, ◌∙◌, ◌⊎◌, inl, inr,
  ◌↔◌, Option, some, List, [], ◌∷◌, length, set, length-set, arith,
}
use tx_lang_cxx.HashMap.{Keys, Entry, HashMap, is_entry_empty, entry_at, rehash_loop}
use tx_lang_cxx.HashMap.Probe.{is_virgin}
use tx_lang_cxx.HashMap.Good.{used, used-set, HasKey, Good, find_entry-Found}
use tx_lang_cxx.HashMap.Keep.{
  Stored, Good-set, HasKey-set_ne, HasKey-set_at, entry_at-set_self, entry_at-set_ne,
}
use tx_lang_cxx.HashMap.Lookup.{used-Stored}

true_false : true ≢ false
true_false e = cc

suc_inj : {p q : ℕ} → suc p ≡ suc q → p ≡ q
suc_inj e = omega arith

absurd_suc : {p : ℕ} → zero ≢ suc p
absurd_suc e = omega arith

module _ {K V : Type 0} (keys : Keys K V) where
  -- A map without tombstones, with what it counts, which has taken what a list of entries stores.
  pub record Moved (m : HashMap K V) (old : List (Entry K V)) (result : Option (HashMap K V))
      : Type 0 where
    pub after : HashMap K V
    pub returns : result ≡ some after
    pub good : Good keys after.entries
    pub counted : after.count ≡ used keys after.entries
    pub size : length after.entries ≡ length m.entries
    pub few : used keys after.entries ≤ used keys m.entries + used keys old
    pub same :
        (q : K) (v : V)
        → Stored keys after.entries q v ↔ (Stored keys m.entries q v ⊎ Stored keys old q v)

  abbrev pub IsClean : List (Entry K V) → Type 0
  IsClean entries =
      (p : ℕ)
      → is_entry_empty keys (entry_at keys entries p) ≡ true
      → is_virgin keys (entry_at keys entries p) ≡ true

  -- No key of one list twice, and none in both.
  abbrev pub IsApart : List (Entry K V) → List (Entry K V) → Type 0
  IsApart old entries =
      ((p q : ℕ) (key : K) → HasKey keys old p key → HasKey keys old q key → p ≡ q)
      × ((p q : ℕ) (key : K) → HasKey keys old p key → HasKey keys entries q key → ⊥)

  Stored-cons :
      (src : Entry K V) (old : List (Entry K V)) (q : K) (v : V)
      → Stored keys (src ∷ old) q v ↔ (
          ((is_entry_empty keys src ≡ false) × (src.first ≡ q) × (src.second ≡ v))
          ⊎ Stored keys old q v)
  Stored-cons src old q v = (
    λ (p, has, e). head_or_tail p has e,
    λ s. elim s [
      | inl (real, key, value) ↦ (0, (real, key), value)
      | inr (p, has, e) ↦ (suc p, has, e)
    ],
  )
    where
      head_or_tail :
          (p : ℕ)
          → HasKey keys (src ∷ old) p q
          → (entry_at keys (src ∷ old) p).second ≡ v
          → ((is_entry_empty keys src ≡ false) × (src.first ≡ q) × (src.second ≡ v))
            ⊎ Stored keys old q v
      head_or_tail zero has e = inl (has.0, has.1, e)
      head_or_tail (suc p) has e = inr (p, has, e)

  -- The head of the list is written to a free entry.
  module _ (src : Entry K V) (old entries : List (Entry K V)) (i : ℕ)
      (real : is_entry_empty keys src ≡ false) (lt : i < length entries)
      (free : is_entry_empty keys (entry_at keys entries i) ≡ true) where
    moved-IsClean : IsClean entries → IsClean (set entries i src)
    moved-IsClean clean p empty = elim (ℕ_discrete i p) [
      | yes e ↦
          let here =
            subst (λ x. entry_at keys (set entries i src) x ≡ src) e
              (entry_at-set_self keys entries i src lt) in
          absurd (true_false (sym empty ∙ ap (λ x. is_entry_empty keys x) here ∙ real))
      | no away ↦
          let kept = entry_at-set_ne keys entries i src lt p away in
          ap (λ x. is_virgin keys x) kept
          ∙ clean p (sym (ap (λ x. is_entry_empty keys x) kept) ∙ empty)
    ]

    moved-IsApart : IsApart (src ∷ old) entries → IsApart old (set entries i src)
    moved-IsApart (once, apart) = (
      λ p q key hp hq. suc_inj (once (suc p) (suc q) key hp hq),
      λ p q key hp hq. elim (ℕ_discrete i q) [
        | yes e ↦
            let at_i = HasKey-set_at keys entries i src lt q key e hq in
            absurd_suc (once zero (suc p) key at_i hp)
        | no away ↦ apart (suc p) q key hp (HasKey-set_ne keys entries i src lt q key away hq)
      ],
    )

    moved-Stored :
        (q : K) (v : V)
        → Stored keys (set entries i src) q v ↔ (
            Stored keys entries q v
            ⊎ ((is_entry_empty keys src ≡ false) × (src.first ≡ q) × (src.second ≡ v)))
    moved-Stored q v = (
      λ (p, has, e). elim (ℕ_discrete i p) [
        | yes same ↦
            let here =
              subst (λ x. entry_at keys (set entries i src) x ≡ src) same
                (entry_at-set_self keys entries i src lt) in
            let key = (HasKey-set_at keys entries i src lt p q same has).1 in
            inr (real, key, sym (ap (λ x. x.second) here) ∙ e)
        | no away ↦
            let kept = entry_at-set_ne keys entries i src lt p away in
            inl (
              p,
              HasKey-set_ne keys entries i src lt p q away has,
              sym (ap (λ x. x.second) kept) ∙ e,
            )
      ],
      λ s. elim s [
        | inl (p, has, e) ↦
            let away : i ≢ p = λ same. true_false (
              sym free
              ∙ subst (λ x. is_entry_empty keys (entry_at keys entries x) ≡ false) (sym same)
                  has.0) in
            let kept = entry_at-set_ne keys entries i src lt p away in
            (
              p,
              subst (λ x. (is_entry_empty keys x ≡ false) × (x.first ≡ q)) (sym kept) has,
              ap (λ x. x.second) kept ∙ e,
            )
        | inr (_, key, value) ↦
            let here = entry_at-set_self keys entries i src lt in
            (
              i,
              subst (λ x. (is_entry_empty keys x ≡ false) × (x.first ≡ q)) (sym here) (real, key),
              ap (λ x. x.second) here ∙ value,
            )
      ],
    )

  -- What is behind the head has been moved.
  module _ (src : Entry K V) (old : List (Entry K V)) (m : HashMap K V) where
    skip_head :
        (result result' : Option (HashMap K V))
        → is_entry_empty keys src ≡ true
        → result' ≡ result
        → Moved m old result
        → Moved m (src ∷ old) result'
    skip_head result result' free e r = record {
      after = r.after;
      returns = e ∙ r.returns;
      good = r.good;
      counted = r.counted;
      size = r.size;
      few = omega (arith, r.few);
      same = λ q v. (
        λ s. elim ((r.same q v).0 s) [
          | inl a ↦ inl a
          | inr b ↦ inr ((Stored-cons src old q v).1 (inr b))
        ],
        λ s. elim s [
          | inl a ↦ (r.same q v).1 (inl a)
          | inr b ↦ elim ((Stored-cons src old q v).0 b) [
            | inl (real, _, _) ↦ absurd (true_false (sym free ∙ real))
            | inr c ↦ (r.same q v).1 (inr c)
          ]
        ],
      );
    }

    move_head :
        (result result' : Option (HashMap K V)) (i : ℕ)
        → is_entry_empty keys src ≡ false
        → i < length m.entries
        → is_entry_empty keys (entry_at keys m.entries i) ≡ true
        → result' ≡ result
        → used keys (set m.entries i src) ≡ used keys m.entries + 1
        → Moved (record { count = m.count + 1; entries = set m.entries i src }) old result
        → Moved m (src ∷ old) result'
    move_head result result' i real lt free e one r = record {
      after = r.after;
      returns = e ∙ r.returns;
      good = r.good;
      counted = r.counted;
      size = r.size ∙ length-set m.entries i src;
      few = ground (arith, r.few);
      same = λ q v. (
        λ s. elim ((r.same q v).0 s) [
          | inl a ↦ elim ((moved-Stored src old m.entries i real lt free q v).0 a) [
            | inl b ↦ inl b
            | inr c ↦ inr ((Stored-cons src old q v).1 (inl c))
          ]
          | inr b ↦ inr ((Stored-cons src old q v).1 (inr b))
        ],
        λ s. elim s [
          | inl a ↦
              (r.same q v).1 (inl ((moved-Stored src old m.entries i real lt free q v).1 (inl a)))
          | inr b ↦ elim ((Stored-cons src old q v).0 b) [
            | inl c ↦
                (r.same q v).1 (inl ((moved-Stored src old m.entries i real lt free q v).1 (inr c)))
            | inr c ↦ (r.same q v).1 (inr c)
          ]
        ],
      );
    }

  -- The loop ends, if there is a free entry more than there are entries to move.
  pub rehash_loop-Moved :
      (old : List (Entry K V)) (m : HashMap K V)
      → Good keys m.entries
      → m.count ≡ used keys m.entries
      → IsClean m.entries
      → IsApart old m.entries
      → used keys m.entries + used keys old < length m.entries
      → Moved m old (rehash_loop keys old m)
  unfolding rehash_loop
  rehash_loop-Moved [] m good counted clean apart space = record {
    after = m;
    returns = refl;
    good = good;
    counted = counted;
    size = refl;
    few = omega arith;
    same = λ q v.
        (λ s. inl s, λ s. elim s [ inl a ↦ a | inr b ↦ absurd (used-Stored keys [] q v refl b) ]);
  }
  rehash_loop-Moved (src ∷ old) m good counted clean apart space =
      elim (Bool-cases (is_entry_empty keys src)) [
        | inl free ↦
            let apart' : IsApart old m.entries = (
              λ p q key hp hq. suc_inj (apart.0 (suc p) (suc q) key hp hq),
              λ p q key hp hq. apart.1 (suc p) q key hp hq,
            ) in
            skip_head src old m (rehash_loop keys old m) _ free (rw free refl)
              (rehash_loop-Moved old m good counted clean apart' (omega arith))
        | inr real ↦
            let (i, f) = find_entry-Found keys m.entries src.first good (omega arith) real in
            elim f.outcome [
              | inl here ↦ absurd (apart.1 zero i src.first (real, refl) here)
              | inr (free, _) ↦
                  let m₁ : HashMap K V = record {
                    count = m.count + 1;
                    entries = set m.entries i src;
                  } in
                  let busy : is_virgin keys src ≡ false = rw real refl in
                  let hole = clean i free in
                  let one : used keys (set m.entries i src) ≡ used keys m.entries + 1 =
                    ground (arith, used-set keys m.entries i src f.inside, busy, hole) in
                  let size = length-set m.entries i src in
                  let rest =
                    rehash_loop-Moved old m₁
                      (Good-set keys m.entries src.first src.second i good real f)
                      (ground (arith, one))
                      (moved-IsClean src old m.entries i real f.inside free clean)
                      (moved-IsApart src old m.entries i real f.inside free apart)
                      (ground (arith, one, size, busy, space)) in
                  move_head src old m (rehash_loop keys old m₁) _ i real f.inside free
                    (rw (real, f.found) refl) one rest
            ]
      ]
