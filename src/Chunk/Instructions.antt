-- ===== src/Chunk/Instructions.antt =====
-- An instruction reads back as it was written: `write_instruction` of tx-runtime/include/tx/chunk.hxx
-- against the reads of the virtual machine.
use tx_lang_cxx.Prelude.{
  ℕ, zero, suc, ◌+◌, ◌*◌, ◌^◌, ◌≤◌, ◌<◌, ◌≡◌, refl, ◌∙◌, some, List, [], ◌∷◌, ◌++◌, length, get_or,
  replicate, length-append, length-replicate, inl, arith,
}
use mathlib.Core.Path.{subst}
use tx_lang_cxx.OpCode.{OpCode, to_underlying}
use tx_lang_cxx.Chunk.{
  Chunk, write_line, append_multibyte_operand, write_instruction, read_multibyte_operand,
}
use tx_lang_cxx.Chunk.Operands.{read-write_multibyte_operand}

module _ {ℓ} {A : Type ℓ} where
  pub get_or-append_left :
      (xs ys : List A) (i : ℕ) (d : A) → i < length xs → get_or (xs ++ ys) i d ≡ get_or xs i d
  get_or-append_left [] ys i d h = absurd (omega arith)
  get_or-append_left (x ∷ xs) ys zero d h = refl
  get_or-append_left (x ∷ xs) ys (suc i) d h = get_or-append_left xs ys i d (omega arith)

  pub get_or-append_here : (xs ys : List A) (y d : A) → get_or (xs ++ y ∷ ys) (length xs) d ≡ y
  get_or-append_here [] ys y d = refl
  get_or-append_here (x ∷ xs) ys y d = get_or-append_here xs ys y d

module _ {F : Type 0} where
  write_line-code : (c : Chunk F) (line : ℕ) → (write_line c line).code ≡ c.code
  unfolding write_line
  write_line-code c line = ground arith

  -- An operand that is appended reads back, and the bytes before stay.
  pub read-append_multibyte_operand :
      (c : Chunk F) (n line operand : ℕ)
      → n ≤ 3
      → operand < 2 ^ (n * 8)
      → let code = (append_multibyte_operand c n line operand).code in
        (length code ≡ length c.code + n)
        × (read_multibyte_operand n code (length c.code) ≡ some operand)
        × ((j : ℕ) → j < length c.code → get_or code j 0 ≡ get_or c.code j 0)
  unfolding append_multibyte_operand
  read-append_multibyte_operand c n line operand small fits =
      let ends = replicate n (to_underlying OpCode.end) in
      let size : length (c.code ++ ends) ≡ length c.code + n =
        rw (length-append, length-replicate) refl in
      let (reads, same, outside) =
        read-write_multibyte_operand n (length c.code) operand (c.code ++ ends) small (omega arith)
          fits in
      rw (write_line-code c line)
        (same ∙ size, reads, λ j lt. outside j (inl lt) ∙ get_or-append_left c.code ends j 0 lt)

  -- The code grows by the opcode, which stands where the code ended, and by its operand, which reads
  -- back if it fits into its at most three bytes. The bytes before stay.
  pub read-write_instruction :
      (c : Chunk F) (n line operand : ℕ) (opc : OpCode)
      → n ≤ 3
      → operand < 2 ^ (n * 8)
      → let code = (write_instruction c n line opc operand).code in
        (length code ≡ length c.code + 1 + n)
        × (get_or code (length c.code) 0 ≡ to_underlying opc)
        × (read_multibyte_operand n code (length c.code + 1) ≡ some operand)
        × ((j : ℕ) → j < length c.code → get_or code j 0 ≡ get_or c.code j 0)
  unfolding write_instruction
  read-write_instruction c n line operand opc small fits =
      let start = c.code ++ to_underlying opc ∷ [] in
      let c' : Chunk F = record (write_line c line) { code = start } in
      let here : length start ≡ length c.code + 1 = rw length-append refl in
      let (size, reads, kept) = read-append_multibyte_operand c' n line operand small fits in
      let code = (append_multibyte_operand c' n line operand).code in
      rw (write_line-code c line) (
        omega (arith, size, here),
        kept (length c.code) (omega arith) ∙ get_or-append_here c.code [] (to_underlying opc) 0,
        subst (λ ptr. read_multibyte_operand n code ptr ≡ some operand) here reads,
        λ j lt. kept j (omega arith) ∙ get_or-append_left c.code _ j 0 lt,
      )
