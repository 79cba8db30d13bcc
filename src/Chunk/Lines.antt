-- ===== src/Chunk/Lines.antt =====
-- The table of lines: `get_line` finds by bisection the entry that a scan from the left finds, and
-- the bytes that `write_bytes` and `write_instruction` append belong to the line they were given.
use native.Mathlib.Decide.{ℕ_discrete, dec_lt}
use tx_lang_cxx.Prelude.{
  ℕ, zero, suc, ◌+◌, ◌-◌, ◌≤◌, ◌<◌, ◌≡◌, ◌≢◌, refl, sym, ap, ◌∙◌, ltb, if◌then◌else◌, [], ◌∷◌,
  Option, none, some, List, length, get_or, get_elem?-get_or, arith,
}
use tx_lang_cxx.Chunk.{LineStart, Chunk, midpoint, get_line_loop, get_line}

-- The line of the last entry that starts at or before the instruction, by a scan from the left.
unfoldable pub line_of : List LineStart → ℕ → Option ℕ
line_of [] instruction = none
line_of (l ∷ ls) instruction =
    if ltb instruction l.offset
    then none
    else elim (line_of ls instruction) [ some line ↦ some line | none ↦ some l.line ]

-- Offsets do not fall, from `lo` on.
abbrev pub IsSorted : ℕ → List LineStart → Type 0
IsSorted lo [] = Unit {0}
IsSorted lo (l ∷ ls) = (lo ≤ l.offset) × IsSorted l.offset ls

abbrev pub dummy : LineStart
dummy = record { offset = 0; line = 0 }

abbrev pub entry : List LineStart → ℕ → LineStart
entry ls i = get_or ls i dummy

-- An entry starts no later than the next.
IsSorted-lower :
    (lo i : ℕ) (ls : List LineStart) → IsSorted lo ls → i < length ls → lo ≤ (entry ls i).offset
IsSorted-lower lo i [] s h = absurd (omega arith)
IsSorted-lower lo zero (l ∷ ls) s h = s.0
IsSorted-lower lo (suc i) (l ∷ ls) s h =
    omega (arith, s.0, IsSorted-lower l.offset i ls s.1 (omega arith))

line_of-none :
    (lo instruction : ℕ) (ls : List LineStart)
    → IsSorted lo ls
    → instruction < lo
    → line_of ls instruction ≡ none
unfolding line_of
line_of-none lo instruction [] s h = refl
line_of-none lo instruction (l ∷ ls) s h = ground arith

-- An entry at or before the instruction, with the next entry behind it, is the one sought.
line_of-entry :
    (lo instruction i : ℕ) (ls : List LineStart)
    → IsSorted lo ls
    → i < length ls
    → (entry ls i).offset ≤ instruction
    → (suc i < length ls → instruction < (entry ls (suc i)).offset)
    → line_of ls instruction ≡ some (entry ls i).line
unfolding line_of
line_of-entry lo instruction i [] s lt here next = absurd (omega arith)
line_of-entry lo instruction zero (l ∷ []) s lt here next = ground arith
line_of-entry lo instruction zero (l ∷ m ∷ ls) s lt here next =
    let n = next (omega arith) in ground arith
line_of-entry lo instruction (suc i) (l ∷ ls) s lt here next =
    let below = IsSorted-lower l.offset i ls s.1 (omega arith) in
    let rest =
      line_of-entry l.offset instruction i ls s.1 (omega arith) here (λ h. next (omega arith)) in
    ground arith

-- The loop between `start` and `end` finds it, given more fuel than rounds.
get_line_loop_lem :
    (fuel lo instruction start end : ℕ) (ls : List LineStart)
    → IsSorted lo ls
    → start ≤ end
    → end < length ls
    → end < start + fuel
    → (entry ls start).offset ≤ instruction
    → (suc end < length ls → instruction < (entry ls (suc end)).offset)
    → get_line_loop fuel ls instruction start end ≡ line_of ls instruction
unfolding get_line_loop
get_line_loop_lem zero lo instruction start end ls s le lt fuel_left here next =
    absurd (omega arith)
get_line_loop_lem (suc fuel) lo instruction start end ls s le lt fuel_left here next =
    let mid = midpoint start end in
    let lower : start ≤ mid = ground arith in
    let upper : mid ≤ end = ground arith in
    let found = get_elem?-get_or ls mid dummy (omega arith) in
    elim (dec_lt instruction (entry ls mid).offset) [
      | yes before ↦
          let after_start : start ≢ mid =
            λ e. absurd (omega (arith, ap (λ i. (entry ls i).offset) e)) in
          let back : suc (mid - 1) ≡ mid = omega arith in
          let left =
            get_line_loop_lem fuel lo instruction start (mid - 1) ls s (omega arith) (omega arith)
              (omega arith) here (λ h. rw back before) in
          rw found (ground (arith, left))
      | no reached ↦ elim (ℕ_discrete mid (length ls - 1)) [
        | yes last ↦
            let hit =
              line_of-entry lo instruction mid ls s (omega arith) (omega arith)
                (λ h. absurd (omega arith)) in
            rw found (ground (arith, hit))
        | no inner ↦
            let found' = get_elem?-get_or ls (mid + 1) dummy (omega arith) in
            let one : mid + 1 ≡ suc mid = omega arith in
            elim (dec_lt instruction (entry ls (mid + 1)).offset) [
              | yes between ↦
                  let hit =
                    line_of-entry lo instruction mid ls s (omega arith) (omega arith)
                      (λ h. rw (← one) between) in
                  rw (found, found') (ground (arith, hit))
              | no beyond ↦
                  let inside : mid ≢ end = λ e. absurd (
                    omega (
                      arith,
                      next (omega arith),
                      ap (λ i. (entry ls i).offset) (one ∙ ap suc e),
                    )) in
                  let right =
                    get_line_loop_lem fuel lo instruction (mid + 1) end ls s (omega arith) lt
                      (omega arith) (omega arith) next in
                  rw (found, found') (ground (arith, right))
            ]
      ]
    ]

line_of_some :
    (instruction : ℕ) (ls : List LineStart)
    → 0 < length ls
    → (entry ls 0).offset ≤ instruction
    → line_of ls instruction ≢ none
unfolding line_of
line_of_some instruction [] lt here = absurd (omega arith)
line_of_some instruction (l ∷ ls) lt here = ground arith

-- On a table whose offsets do not fall and whose first entry starts at or before the instruction,
-- `get_line` ends, and it returns the line of the last entry that starts at or before the
-- instruction.
pub get_line_lem :
    {F : Type 0} (c : Chunk F) (instruction : ℕ)
    → IsSorted 0 c.lines
    → 0 < length c.lines
    → (entry c.lines 0).offset ≤ instruction
    → (get_line c instruction ≡ line_of c.lines instruction) × (get_line c instruction ≢ none)
unfolding get_line
get_line_lem c instruction s some_line here =
    let n = length c.lines - 1 in
    let found =
      get_line_loop_lem (length c.lines + 1) 0 instruction 0 n c.lines s (omega arith) (omega arith)
        (omega arith) here (λ h. absurd (omega arith)) in
    (found, λ e. line_of_some instruction c.lines some_line here (sym found ∙ e))
