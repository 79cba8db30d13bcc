-- ===== src/Chunk/Writes.antt =====
-- What the writes of a chunk do to its table of lines.
use tx_lang_cxx.Prelude.{
  ℕ, zero, suc, ◌+◌, ◌≤◌, ◌<◌, ◌≡◌, refl, sym, true, Bool-cases, ltb, ltb→lt, ==_iff, if◌then◌else◌,
  [], ◌∷◌, ◌++◌, some, List, length, length-append, length-replicate, arith, inl, inr,
}
use tx_lang_cxx.OpCode.{OpCode, to_underlying}
use tx_lang_cxx.Chunk.{
  LineStart, Chunk, last_line, same_line, write_line, write_bytes, write_instruction,
  append_multibyte_operand, get_line,
}
use tx_lang_cxx.Chunk.Operands.{length-write_multibyte_operand}
use tx_lang_cxx.Chunk.Lines.{line_of, IsSorted, entry, get_line_lem}

-- No entry starts behind `n`.
abbrev pub AllUpTo : ℕ → List LineStart → Type 0
AllUpTo n [] = Unit {0}
AllUpTo n (l ∷ ls) = (l.offset ≤ n) × AllUpTo n ls

-- The table that the writes of a chunk keep: offsets do not fall, the first is 0, none is behind the
-- code, and there is one as soon as there is code.
pub record IsTraced {F : Type 0} (c : Chunk F) : Type 0 where
  pub sorted : IsSorted 0 c.lines
  pub within : AllUpTo (length c.code) c.lines
  pub starts : (entry c.lines 0).offset ≡ 0
  pub covered : 0 < length c.code → 0 < length c.lines

AllUpTo-mono : (n m : ℕ) (ls : List LineStart) → n ≤ m → AllUpTo n ls → AllUpTo m ls
AllUpTo-mono n m [] le h = tt
AllUpTo-mono n m (l ∷ ls) le h = (omega arith, AllUpTo-mono n m ls le h.1)

line_of_cons :
    (instruction : ℕ) {line : ℕ} (l : LineStart) (ls : List LineStart)
    → line_of ls instruction ≡ some line
    → l.offset ≤ instruction
    → line_of (l ∷ ls) instruction ≡ some line
unfolding line_of
line_of_cons instruction l ls found le = ground arith

module _ (n line : ℕ) where
  abbrev added : List LineStart
  added = record { offset = n; line = line } ∷ []

  AllUpTo-append : (ls : List LineStart) → AllUpTo n ls → AllUpTo n (ls ++ added)
  AllUpTo-append [] h = (omega arith, tt)
  AllUpTo-append (l ∷ ls) h = (h.0, AllUpTo-append ls h.1)

  IsSorted-append :
      (lo : ℕ) (ls : List LineStart)
      → IsSorted lo ls
      → AllUpTo n ls
      → lo ≤ n
      → IsSorted lo (ls ++ added)
  IsSorted-append lo [] s h le = (le, tt)
  IsSorted-append lo (l ∷ ls) s h le = (s.0, IsSorted-append l.offset ls s.1 h.1 h.0)

  line_of-append :
      (instruction : ℕ) (ls : List LineStart)
      → AllUpTo n ls
      → line_of (ls ++ added) instruction
        ≡ (if ltb instruction n then line_of ls instruction else some line)
  unfolding line_of
  line_of-append instruction [] h = ground arith
  line_of-append instruction (l ∷ ls) h =
      let rest = line_of-append instruction ls h.1 in let here = h.0 in ground arith

  -- From the end of the code on the last entry counts.
  line_of_last :
      (instruction : ℕ) (ls : List LineStart)
      → AllUpTo n ls
      → n ≤ instruction
      → same_line (last_line ls) line ≡ true
      → line_of ls instruction ≡ some line
  unfolding line_of
  line_of_last instruction [] h le same = cc
  line_of_last instruction (l ∷ []) h le same = ground arith
  line_of_last instruction (l ∷ m ∷ ls) h le same =
      line_of_cons instruction l (m ∷ ls) (line_of_last instruction (m ∷ ls) h.1 le same)
        (omega (arith, h.0))

some_of_same :
    (line : ℕ) (ls : List LineStart) → same_line (last_line ls) line ≡ true → 0 < length ls
some_of_same line [] same = cc
some_of_same line (l ∷ ls) same = omega arith

starts-append :
    (n line : ℕ) (ls : List LineStart)
    → (entry ls 0).offset ≡ 0
    → (0 < n → 0 < length ls)
    → (entry (ls ++ record { offset = n; line = line } ∷ []) 0).offset ≡ 0
starts-append zero line [] starts covered = refl
starts-append (suc n) line [] starts covered = absurd (omega (arith, covered (omega arith)))
starts-append n line (l ∷ ls) starts covered = starts

last_line-append : (ls : List LineStart) (l : LineStart) → last_line (ls ++ l ∷ []) ≡ some l
last_line-append [] l = refl
last_line-append (m ∷ []) l = refl
last_line-append (m ∷ k ∷ ls) l = last_line-append (k ∷ ls) l

module _ {F : Type 0} where
  -- `write_line` keeps the code, and from its end on the line is the one given.
  write_line_lem :
      (c : Chunk F) (line instruction : ℕ)
      → IsTraced c
      → ((write_line c line).code ≡ c.code)
        × (line_of (write_line c line).lines instruction
            ≡ (if ltb instruction (length c.code) then line_of c.lines instruction else some line))
        × IsTraced (write_line c line)
        × (0 < length (write_line c line).lines)
  unfolding write_line
  write_line_lem c line instruction t = elim (Bool-cases (same_line (last_line c.lines) line)) [
    | inl same ↦
        let here = line_of_last (length c.code) line instruction c.lines t.within in
        rw same (refl, ground (arith, here), t, some_of_same line c.lines same)
    | inr new ↦ rw new (
      refl,
      line_of-append (length c.code) line instruction c.lines t.within,
      record {
        sorted = IsSorted-append (length c.code) line 0 c.lines t.sorted t.within (omega arith);
        within = AllUpTo-append (length c.code) line c.lines t.within;
        starts = starts-append (length c.code) line c.lines t.starts t.covered;
        covered = λ h. omega (arith, length-append {0} c.lines);
      },
      omega (arith, length-append {0} c.lines),
    )
  ]

  -- The entry that `write_line` leaves is for its line, so a second call does nothing.
  pub same-write_line :
      (c : Chunk F) (line : ℕ) → same_line (last_line (write_line c line).lines) line ≡ true
  unfolding write_line
  same-write_line c line = elim (Bool-cases (same_line (last_line c.lines) line)) [
    | inl same ↦ rw same same
    | inr new ↦ rw (new, last_line-append) ((==_iff line line).1 refl)
  ]

  pub write_line_idle :
      (c : Chunk F) (line : ℕ) → same_line (last_line c.lines) line ≡ true → write_line c line ≡ c
  unfolding write_line
  write_line_idle c line same = rw same

  -- On a traced table with an entry the bisection is the scan.
  get_line-line_of :
      (c : Chunk F) (instruction : ℕ)
      → IsTraced c
      → 0 < length c.lines
      → get_line c instruction ≡ line_of c.lines instruction
  get_line-line_of c instruction t some_line =
      (get_line_lem c instruction t.sorted some_line (omega (arith, t.starts))).0

  -- A chunk that has the table of `write_line` and no less code than before.
  module _ (c d : Chunk F) (line : ℕ) (t : IsTraced c) (table : d.lines ≡ (write_line c line).lines)
      (more : length c.code ≤ length d.code) where
    traced : IsTraced d
    traced =
        let (code, _, u, some_line) = write_line_lem c line 0 t in
        record {
          sorted = rw table u.sorted;
          within = rw table (AllUpTo-mono _ _ _ (rw code more) u.within);
          starts = rw table u.starts;
          covered = λ _. rw table some_line;
        }

    reads :
        (instruction : ℕ)
        → get_line d instruction
          ≡ (if ltb instruction (length c.code) then get_line c instruction else some line)
    reads instruction =
        let (code, found, u, some_line) = write_line_lem c line instruction t in
        let new = get_line-line_of d instruction traced (rw table some_line) in
        elim (Bool-cases (ltb instruction (length c.code))) [
          | inl before ↦
              let old =
                get_line-line_of c instruction t (t.covered (omega (arith, ltb→lt _ _ before))) in
              rw (new, table, found, before) (sym old)
          | inr behind ↦ rw (new, table, found, behind)
        ]

  -- After `write_bytes` every byte of the chunk has its line: those that were there before keep
  -- theirs, and those behind them have the line that was given. The table stays in order, and the
  -- code grows by the bytes.
  pub get_line-write_bytes :
      (c : Chunk F) (line : ℕ) (bytes : List ℕ)
      → IsTraced c
      → ((write_bytes c line bytes).code ≡ c.code ++ bytes)
        × IsTraced (write_bytes c line bytes)
        × ((instruction : ℕ)
            → get_line (write_bytes c line bytes) instruction
              ≡ (if ltb instruction (length c.code) then get_line c instruction else some line))
  unfolding write_bytes
  get_line-write_bytes c line bytes t =
      let code = (write_line_lem c line 0 t).0 in
      let d = write_bytes c line bytes in
      let more : length c.code ≤ length d.code = rw (length-append, code) (omega arith) in
      (rw code, traced c d line t refl more, reads c d line t refl more)

  -- `write_instruction` does the same for an opcode and its operand: the code grows by one byte and
  -- the operand's, the bytes that were there keep their lines, and the new ones have the line given.
  pub get_line-write_instruction :
      (c : Chunk F) (n line operand : ℕ) (opc : OpCode)
      → IsTraced c
      → (length (write_instruction c n line opc operand).code ≡ length c.code + 1 + n)
        × IsTraced (write_instruction c n line opc operand)
        × ((instruction : ℕ)
            → get_line (write_instruction c n line opc operand) instruction
              ≡ (if ltb instruction (length c.code) then get_line c instruction else some line))
  unfolding write_instruction
  get_line-write_instruction c n line operand opc t =
      let code = (write_line_lem c line 0 t).0 in
      let c' = write_line c line in
      let opened : Chunk F = record c' { code = c'.code ++ to_underlying opc ∷ [] } in
      let idle = write_line_idle opened line (same-write_line c line) in
      let d = write_instruction c n line opc operand in
      let size : length d.code ≡ length c.code + 1 + n =
        rw
          (
            length-write_multibyte_operand, idle, length-append, length-append, code,
            length-replicate,
          )
          (omega arith) in
      let table : d.lines ≡ c'.lines = rw idle in
      let more : length c.code ≤ length d.code = omega arith in
      (size, traced c d line t table more, reads c d line t table more)

  -- The member `write_multibyte_operand` keeps the table in order too, and the code grows by `n`.
  pub append_multibyte_operand-IsTraced :
      (c : Chunk F) (n line operand : ℕ)
      → IsTraced c
      → (length (append_multibyte_operand c n line operand).code ≡ length c.code + n)
        × IsTraced (append_multibyte_operand c n line operand)
  unfolding append_multibyte_operand
  append_multibyte_operand-IsTraced c n line operand t =
      let code = (write_line_lem c line 0 t).0 in
      let d = append_multibyte_operand c n line operand in
      let size : length d.code ≡ length c.code + n =
        rw (length-write_multibyte_operand, length-append, code, length-replicate) (omega arith) in
      let more : length c.code ≤ length d.code = omega arith in (size, traced c d line t refl more)

  -- A change of bytes that adds none keeps the table.
  pub IsTraced-same_length :
      (c : Chunk F) (code : List ℕ)
      → length code ≡ length c.code
      → IsTraced c
      → IsTraced (record c { code = code })
  IsTraced-same_length c code same t = record {
    sorted = t.sorted;
    within = rw same t.within;
    starts = t.starts;
    covered = λ h. t.covered (omega arith);
  }

module _ {F : Type 0} where
  write_line-constants : (c : Chunk F) (line : ℕ) → (write_line c line).constants ≡ c.constants
  unfolding write_line
  write_line-constants c line = ground arith

  -- Writes of code leave the constants.
  pub write_instruction-constants :
      (c : Chunk F) (n line operand : ℕ) (opc : OpCode)
      → (write_instruction c n line opc operand).constants ≡ c.constants
  unfolding write_instruction
  write_instruction-constants c n line operand opc = rw (write_line-constants, write_line-constants)

  pub append_multibyte_operand-constants :
      (c : Chunk F) (n line operand : ℕ)
      → (append_multibyte_operand c n line operand).constants ≡ c.constants
  unfolding append_multibyte_operand
  append_multibyte_operand-constants c n line operand = write_line-constants c line

  pub write_bytes-constants :
      (c : Chunk F) (line : ℕ) (bytes : List ℕ) → (write_bytes c line bytes).constants ≡ c.constants
  unfolding write_bytes
  write_bytes-constants c line bytes = write_line-constants c line
