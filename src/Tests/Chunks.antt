-- ===== src/Tests/Chunks.antt =====
-- Chunks: operands, the table of lines, and writes.
use tx_lang_cxx.Prelude.{
  ℕ, ◌+◌, ◌≤◌, ◌<◌, ◌≡◌, ◌≢◌, refl, ◌⊎◌, if◌then◌else◌, none, some, List, [], ◌∷◌, ◌++◌, length,
  get_or, ltb, replicate, arith,
}
use tx_lang_cxx.OpCode
use tx_lang_cxx.OpCode.{to_underlying}
use tx_lang_cxx.Chunk.{
  Chunk, write_multibyte_operand, read_multibyte_operand, write_bytes, write_instruction, get_line,
}
use tx_lang_cxx.Chunk.Operands.{read-write_multibyte_operand}
use tx_lang_cxx.Chunk.Instructions.{read-write_instruction}
use tx_lang_cxx.Chunk.Lines.{line_of, get_line_lem}
use tx_lang_cxx.Chunk.Writes.{IsTraced, get_line-write_bytes, get_line-write_instruction}

abbrev six_bytes : List ℕ
six_bytes = replicate 6 7

read-write_multibyte_operand_example :
    (read_multibyte_operand 3 (write_multibyte_operand 3 six_bytes 1 0x1_02_03) 1 ≡ some 0x1_02_03)
    × (length (write_multibyte_operand 3 six_bytes 1 0x1_02_03) ≡ length six_bytes)
    × ((j : ℕ)
        → (j < 1) ⊎ (1 + 3 ≤ j)
        → get_or (write_multibyte_operand 3 six_bytes 1 0x1_02_03) j 0 ≡ get_or six_bytes j 0)
read-write_multibyte_operand_example =
    read-write_multibyte_operand 3 1 0x1_02_03 six_bytes (omega arith) (omega arith) (omega arith)

-- three lines, two of them empty in between
abbrev traced_chunk : Chunk ℕ
traced_chunk = record {
  code = 30 ∷ 31 ∷ 32 ∷ 33 ∷ [];
  lines =
      record { offset = 0; line = 1 }
      ∷ record { offset = 2; line = 5 }
      ∷ record { offset = 3; line = 6 }
      ∷ [];
  constants = [];
}

traced_chunk-IsTraced : IsTraced traced_chunk
traced_chunk-IsTraced = record {
  sorted = (omega arith, (omega arith, (omega arith, tt)));
  within = (omega arith, (omega arith, (omega arith, tt)));
  starts = refl;
  covered = λ _. omega arith;
}

get_line_lem_example :
    (get_line traced_chunk 2 ≡ line_of traced_chunk.lines 2) × (get_line traced_chunk 2 ≢ none)
get_line_lem_example =
    get_line_lem traced_chunk 2 traced_chunk-IsTraced.sorted (omega arith) (omega arith)

get_line-write_bytes_example :
    ((write_bytes traced_chunk 9 (1 ∷ 2 ∷ [])).code ≡ traced_chunk.code ++ 1 ∷ 2 ∷ [])
    × IsTraced (write_bytes traced_chunk 9 (1 ∷ 2 ∷ []))
    × ((instruction : ℕ)
        → get_line (write_bytes traced_chunk 9 (1 ∷ 2 ∷ [])) instruction
          ≡ (if ltb instruction 4 then get_line traced_chunk instruction else some 9))
get_line-write_bytes_example =
    get_line-write_bytes traced_chunk 9 (1 ∷ 2 ∷ []) traced_chunk-IsTraced

get_line-write_instruction_example :
    (length (write_instruction traced_chunk 2 6 OpCode.jump 300).code ≡ 4 + 1 + 2)
    × IsTraced (write_instruction traced_chunk 2 6 OpCode.jump 300)
    × ((instruction : ℕ)
        → get_line (write_instruction traced_chunk 2 6 OpCode.jump 300) instruction
          ≡ (if ltb instruction 4 then get_line traced_chunk instruction else some 6))
get_line-write_instruction_example =
    get_line-write_instruction traced_chunk 2 6 300 OpCode.jump traced_chunk-IsTraced

read-write_instruction_example :
    let code = (write_instruction traced_chunk 2 6 OpCode.jump 300).code in
    (length code ≡ 4 + 1 + 2)
    × (get_or code 4 0 ≡ to_underlying OpCode.jump)
    × (read_multibyte_operand 2 code 5 ≡ some 300)
    × ((j : ℕ) → j < 4 → get_or code j 0 ≡ get_or traced_chunk.code j 0)
read-write_instruction_example =
    read-write_instruction traced_chunk 2 6 300 OpCode.jump (omega arith) (omega arith)
