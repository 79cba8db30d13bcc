-- ===== src/Parser/Closures.antt =====
-- The upvalues that the compiler writes behind a closure, as the virtual machine reads them:
-- `emit_closure` of tx-runtime/include/tx/compiler_inl.hxx against `read_closure_operand` of chunk.hxx.
use tx_lang_cxx.Prelude.{
  ℕ, zero, suc, ◌+◌, ◌-◌, ◌*◌, ◌/◌, ◌^◌, ◌≤◌, ◌<◌, ◌≡◌, refl, ◌∙◌, Bool, true, false, not, some,
  List, [], ◌∷◌, ◌++◌, length, get_or, get_elem?-get_or, lt→ltb, le→leb, length-append, bit_and,
  ◌==◌, if◌then◌else◌, arith,
}
use mathlib.Core.Path.{subst}
use native.Mathlib.Nat.{pow-suc}
use tx_lang_cxx.Chunk.{
  Chunk, write_bytes, write_line, append_multibyte_operand, read_multibyte_operand,
  read_closure_operand,
}
use tx_lang_cxx.Chunk.Instructions.{
  read-append_multibyte_operand, get_or-append_left, get_or-append_here,
}
use tx_lang_cxx.Scanner.State.{ok}
use tx_lang_cxx.Parser.State.{Upvalue, Compiler, Parser, set_chunk, gets, update_compiler, ◌>>=◌}
use tx_lang_cxx.Parser.Emit.{
  byte_length, byte_length_loop, upvalue_flags, emit_bytes, emit_upvalue, code_size,
}

flags_lem :
    (is_local : Bool) (n : ℕ)
    → 1 ≤ n
    → n ≤ 3
    → (bit_and (upvalue_flags is_local n) 0x7f ≡ n)
      × (not (bit_and (upvalue_flags is_local n) 0x80 == 0) ≡ is_local)
flags_lem is_local zero low high = absurd (omega arith)
flags_lem true (suc zero) low high = (refl, refl)
flags_lem false (suc zero) low high = (refl, refl)
flags_lem true (suc (suc zero)) low high = (refl, refl)
flags_lem false (suc (suc zero)) low high = (refl, refl)
flags_lem true (suc (suc (suc zero))) low high = (refl, refl)
flags_lem false (suc (suc (suc zero))) low high = (refl, refl)
flags_lem is_local (suc (suc (suc (suc n)))) low high = absurd (omega arith)

sub_zero : (n : ℕ) → n - 0 ≡ n
sub_zero n = omega arith

self : (n : ℕ) → n - n ≡ 0
self n = omega arith

pow_suc : (n : ℕ) → 2 ^ (suc n * 8) ≡ 256 * 2 ^ (n * 8)
pow_suc n =
    let size : suc n * 8 ≡ suc (suc (suc (suc (suc (suc (suc (suc (n * 8)))))))) = omega arith in
    rw size (simp pow-suc (omega arith))

byte_length_loop-zero : (fuel result : ℕ) → byte_length_loop fuel zero result ≡ result
unfolding byte_length_loop
byte_length_loop-zero zero result = refl
byte_length_loop-zero (suc fuel) result = refl

byte_length_loop_step :
    (fuel idx result : ℕ)
    → 0 < idx
    → byte_length_loop (suc fuel) idx result ≡ byte_length_loop fuel (idx / 256) (result + 1)
unfolding byte_length_loop
byte_length_loop_step fuel idx result more = ground arith

-- The loop counts the bytes of an index of at most `n` bytes.
byte_length_loop_lem :
    (fuel n idx result : ℕ)
    → n ≤ fuel
    → idx < 2 ^ (n * 8)
    → let all = byte_length_loop fuel idx result in
      (result ≤ all) × (all ≤ result + n) × (idx < 2 ^ ((all - result) * 8))
unfolding byte_length_loop
byte_length_loop_lem fuel n zero result le small =
    let none_left : 0 < 2 ^ ((result - result) * 8) = rw (self result) (omega arith) in
    rw (byte_length_loop-zero fuel result) (omega arith, omega arith, none_left)
byte_length_loop_lem fuel zero (suc k) result le small = absurd (omega arith)
byte_length_loop_lem zero (suc n) (suc k) result le small = absurd (omega arith)
byte_length_loop_lem (suc fuel) (suc n) (suc k) result le small =
    let (low, high, fits) =
      byte_length_loop_lem fuel n (suc k / 256) (result + 1) (omega arith)
        (omega (arith, pow_suc n)) in
    let all = byte_length_loop fuel (suc k / 256) (result + 1) in
    let one : all - result ≡ suc (all - (result + 1)) = omega arith in
    let all_fits : suc k < 2 ^ ((all - result) * 8) =
      rw one (omega (arith, pow_suc (all - (result + 1)))) in
    rw (byte_length_loop_step fuel (suc k) result (omega arith))
      (omega arith, omega arith, all_fits)

-- An index of no bytes is written in one.
at_least_one :
    (n idx : ℕ)
    → n ≤ 3
    → idx < 2 ^ (n * 8)
    → let all = if n == 0 then 1 else n in (1 ≤ all) × (all ≤ 3) × (idx < 2 ^ (all * 8))
at_least_one zero idx le small = (omega arith, omega arith, omega arith)
at_least_one (suc zero) idx le small = (omega arith, omega arith, small)
at_least_one (suc (suc zero)) idx le small = (omega arith, omega arith, small)
at_least_one (suc (suc (suc zero))) idx le small = (omega arith, omega arith, small)
at_least_one (suc (suc (suc (suc n)))) idx le small = absurd (omega arith)

byte_length_lem :
    (idx : ℕ)
    → idx < 16777216
    → (1 ≤ byte_length idx) × (byte_length idx ≤ 3) × (idx < 2 ^ (byte_length idx * 8))
unfolding byte_length
byte_length_lem idx small =
    let (low, high, fits) = byte_length_loop_lem 8 3 idx 0 (omega arith) (omega arith) in
    at_least_one (byte_length_loop 8 idx 0) idx high
      (subst (λ m. idx < 2 ^ (m * 8)) (sub_zero (byte_length_loop 8 idx 0)) fits)

module _ {F : Type 0} where
  write_bytes-code :
      (c : Chunk F) (line : ℕ) (bytes : List ℕ) → (write_bytes c line bytes).code ≡ c.code ++ bytes
  unfolding write_bytes write_line
  write_bytes-code c line bytes = ground arith

  -- An upvalue whose index fits into three bytes is written behind the code, and nothing else of the
  -- parser changes. There the machine reads whether it is a local, its index and the number of the
  -- bytes written. The code before it stays, and no error is reported.
  pub read_closure_operand-emit_upvalue :
      (p : Parser F) (c : Compiler F) (cs : List (Compiler F)) (upvalue : Upvalue)
      → p.compilers ≡ c ∷ cs
      → upvalue.index < 16777216
      → let n = byte_length upvalue.index in
        let line = p.previous.line in
        let flagged =
          write_bytes c.obj_function.chunk line (upvalue_flags upvalue.is_local n ∷ []) in
        let chunk = append_multibyte_operand flagged n line upvalue.index in
        (emit_upvalue upvalue p ≡ ok (tt, record p { compilers = set_chunk chunk c ∷ cs }))
        × (read_closure_operand chunk.code (code_size c)
            ≡ some (upvalue.is_local, upvalue.index, 1 + n))
        × (length chunk.code ≡ code_size c + (1 + n))
        × ((j : ℕ) → j < code_size c → get_or chunk.code j 0 ≡ get_or c.obj_function.chunk.code j 0)
  unfolding emit_upvalue emit_bytes ◌>>=◌ gets update_compiler read_closure_operand
  read_closure_operand-emit_upvalue p c cs upvalue e small =
      let n = byte_length upvalue.index in
      let line = p.previous.line in
      let flags = upvalue_flags upvalue.is_local n in
      let flagged = write_bytes c.obj_function.chunk line (flags ∷ []) in
      let (low, high, fits) = byte_length_lem upvalue.index small in
      let (size, reads, kept) =
        read-append_multibyte_operand flagged n line upvalue.index high fits in
      let before = write_bytes-code c.obj_function.chunk line (flags ∷ []) in
      let here : length flagged.code ≡ code_size c + 1 = rw (before, length-append) refl in
      let kept_before : (j : ℕ)
          → j < code_size c
          → get_or flagged.code j 0 ≡ get_or c.obj_function.chunk.code j 0 =
        λ j lt. rw before (get_or-append_left c.obj_function.chunk.code (flags ∷ []) j 0 lt) in
      let chunk = append_multibyte_operand flagged n line upvalue.index in
      let flags_here : get_or chunk.code (code_size c) 0 ≡ flags =
        kept (code_size c) (omega arith)
        ∙ rw before (get_or-append_here c.obj_function.chunk.code [] flags 0) in
      let (length_reads, local_reads) = flags_lem upvalue.is_local n low high in
      let index_reads : read_multibyte_operand n chunk.code (code_size c + 1) ≡ some upvalue.index =
        subst (λ ptr. read_multibyte_operand n chunk.code ptr ≡ some upvalue.index) here reads in
      let closure_reads : read_closure_operand chunk.code (code_size c)
          ≡ some (upvalue.is_local, upvalue.index, 1 + n) =
        rw
          (
            get_elem?-get_or chunk.code (code_size c) 0 (omega arith),
            flags_here,
            length_reads,
            local_reads,
            le→leb _ _ low,
            le→leb _ _ high,
            index_reads,
          )
          refl in
      (
        rw (lt→ltb _ _ small, le→leb _ _ high, e) refl,
        closure_reads,
        omega (arith, size, here),
        λ j lt. kept j (omega arith) ∙ kept_before j lt,
      )
