-- ===== src/Parser/Sound.antt =====
-- The invariant of a compiler, and of the parser's stack of compilers and its objects.
pub mod Changes
pub mod Resolve
pub mod Whole
use tx_lang_cxx.Prelude.{
  ℕ, zero, suc, ◌+◌, ◌-◌, ◌≤◌, ◌<◌, ◌≡◌, refl, ap, ◌∙◌, Bool, true, false, Option, none, some, List,
  [], ◌∷◌, ◌++◌, length, get_elem?, length-append, length-set, arith, leb, ltb, ◌==◌, if◌then◌else◌,
}
use tx_lang_cxx.Prelude.Int.{ℤ, pos, negsuc, pos_part, ◌+ℤ◌}
use tx_lang_cxx.OpCode.{OpCode}
use tx_lang_cxx.Value.{Value}
use tx_lang_cxx.TypeInfo.{TypeSet}
use tx_lang_cxx.Chunk.{
  Chunk, add_constant, write_instruction, write_bytes, append_multibyte_operand,
  write_multibyte_operand,
}
use tx_lang_cxx.Chunk.Operands.{length-write_multibyte_operand}
use tx_lang_cxx.Chunk.Writes.{
  IsTraced, get_line-write_instruction, get_line-write_bytes, append_multibyte_operand-IsTraced,
  IsTraced-same_length, write_instruction-constants, write_bytes-constants,
  append_multibyte_operand-constants,
}
use tx_lang_cxx.Parser.State.{
  Local, Loop, Upvalue, FunctionType, ObjFunction, Compiler, Object, Parser, max_locals,
  max_upvalues, set_chunk,
}
use tx_lang_cxx.Parser.Emit.{
  get_opcode_stack_effect, raise_slots, add_instruction, insert_constant, write_jump,
}
use tx_lang_cxx.Parser.Scopes.{new_compiler, pop_locals, close_scope, push_loop}
use tx_lang_cxx.Parser.Loops.{write_opcode, pop_loop}
use tx_lang_cxx.Parser.Variables.{capture, capture_local, push_upvalue, push_local}
use tx_lang_cxx.Parser.Globals.{initialize_back}
use tx_lang_cxx.Parser.Types.{ParametersAndReturn}
use tx_lang_cxx.Parser.Grammar.{add_loop_types, set_signature}

-- Each index that is remembered for a value is that of the value among the constants.
abbrev pub AllIndexed : {F : Type 0} → List (Value F) → List (Value F × ℕ) → Type 0
AllIndexed constants [] = Unit {0}
AllIndexed constants ((value, idx) ∷ indices) =
    (get_elem? constants idx ≡ some value) × AllIndexed constants indices

-- Loops start inside the code.
abbrev pub AllStarted : ℕ → List Loop → Type 0
AllStarted size [] = Unit {0}
AllStarted size (loop ∷ loops) = (loop.start ≤ size) × AllStarted size loops

pub record IsSound {F : Type 0} (c : Compiler F) : Type 0 where
  pub slots : pos_part c.num_slots ≤ c.obj_function.max_slots
  pub counted : c.obj_function.upvalue_count ≡ length c.upvalues
  pub upvalues_fit : length c.upvalues ≤ max_upvalues
  pub locals_fit : length c.locals ≤ max_locals
  pub traced : IsTraced c.obj_function.chunk
  pub indexed : AllIndexed c.obj_function.chunk.constants c.constant_indices
  pub started : AllStarted (length c.obj_function.chunk.code) c.loops

AllStarted-mono : (n m : ℕ) (loops : List Loop) → n ≤ m → AllStarted n loops → AllStarted m loops
AllStarted-mono n m [] le h = tt
AllStarted-mono n m (loop ∷ loops) le h = (omega arith, AllStarted-mono n m loops le h.1)

raise_slots_lem : (max_slots : ℕ) (n : ℤ) → pos_part n ≤ raise_slots max_slots n
raise_slots_lem max_slots (pos n) = ground arith
raise_slots_lem max_slots (negsuc n) = omega arith

get_elem?-append_some {ℓ} :
    {A : Type ℓ} (xs ys : List A) (i : ℕ) (a : A)
    → get_elem? xs i ≡ some a
    → get_elem? (xs ++ ys) i ≡ some a
get_elem?-append_some [] ys i a h = cc
get_elem?-append_some (x ∷ xs) ys zero a h = h
get_elem?-append_some (x ∷ xs) ys (suc i) a h = get_elem?-append_some xs ys i a h

get_elem?-append_last {ℓ} :
    {A : Type ℓ} (xs : List A) (a : A)
    → get_elem? (xs ++ a ∷ []) (length (xs ++ a ∷ []) - 1) ≡ some a
get_elem?-append_last [] a = refl
get_elem?-append_last (x ∷ xs) a =
    let size = length-append xs (a ∷ []) in
    let e : length ((x ∷ xs) ++ a ∷ []) - 1 ≡ suc (length (xs ++ a ∷ []) - 1) =
      omega (arith, size) in
    rw e (get_elem?-append_last xs a)

module _ {F : Type 0} where
  -- A compiler with the same counts, and a chunk that has the same constants and no less code.
  module _ (c : Compiler F) (chunk : Chunk F) (sound : IsSound c)
      (same : chunk.constants ≡ c.obj_function.chunk.constants)
      (more : length c.obj_function.chunk.code ≤ length chunk.code) (traced : IsTraced chunk) where
    set_chunk-IsSound : IsSound (set_chunk chunk c)
    set_chunk-IsSound = record {
      slots = sound.slots;
      counted = sound.counted;
      upvalues_fit = sound.upvalues_fit;
      locals_fit = sound.locals_fit;
      traced = traced;
      indexed = rw same sound.indexed;
      started = AllStarted-mono _ _ c.loops more sound.started;
    }

  pub add_instruction-IsSound :
      (n line operand : ℕ) (opc : OpCode) (c : Compiler F)
      → IsSound c
      → IsSound (add_instruction n line opc operand c)
  unfolding add_instruction
  add_instruction-IsSound n line operand opc c sound =
      let chunk = c.obj_function.chunk in
      let (size, traced, _) = get_line-write_instruction chunk n line operand opc sound.traced in
      let d = write_instruction chunk n line opc operand in
      let more : length chunk.code ≤ length d.code = omega arith in
      let moved =
        set_chunk-IsSound c d sound (write_instruction-constants chunk n line operand opc) more
          traced in
      record {
        slots =
            raise_slots_lem c.obj_function.max_slots
              (c.num_slots +ℤ get_opcode_stack_effect opc operand);
        counted = moved.counted;
        upvalues_fit = moved.upvalues_fit;
        locals_fit = moved.locals_fit;
        traced = traced;
        indexed = moved.indexed;
        started = moved.started;
      }

  pub write_bytes-IsSound :
      (line : ℕ) (bytes : List ℕ) (c : Compiler F)
      → IsSound c
      → IsSound (set_chunk (write_bytes c.obj_function.chunk line bytes) c)
  write_bytes-IsSound line bytes c sound =
      let chunk = c.obj_function.chunk in
      let (code, traced, _) = get_line-write_bytes chunk line bytes sound.traced in
      let more : length chunk.code ≤ length (write_bytes chunk line bytes).code =
        rw (code, length-append) (omega arith) in
      set_chunk-IsSound c _ sound (write_bytes-constants chunk line bytes) more traced

  pub append_multibyte_operand-IsSound :
      (n line operand : ℕ) (c : Compiler F)
      → IsSound c
      → IsSound (set_chunk (append_multibyte_operand c.obj_function.chunk n line operand) c)
  append_multibyte_operand-IsSound n line operand c sound =
      let chunk = c.obj_function.chunk in
      let (size, traced) = append_multibyte_operand-IsTraced chunk n line operand sound.traced in
      let d = append_multibyte_operand chunk n line operand in
      let more : length chunk.code ≤ length d.code = omega arith in
      set_chunk-IsSound c d sound (append_multibyte_operand-constants chunk n line operand) more
        traced

  same_length-IsSound :
      (code : List ℕ) (c : Compiler F)
      → length code ≡ length c.obj_function.chunk.code
      → IsSound c
      → IsSound (set_chunk (record c.obj_function.chunk { code = code }) c)
  same_length-IsSound code c same sound =
      let chunk = c.obj_function.chunk in
      set_chunk-IsSound c (record chunk { code = code }) sound refl (omega arith)
        (IsTraced-same_length chunk code same sound.traced)

  pub write_jump-IsSound :
      (offset distance : ℕ) (c : Compiler F) → IsSound c → IsSound (write_jump offset distance c)
  unfolding write_jump
  write_jump-IsSound offset distance c sound =
      same_length-IsSound _ c (length-write_multibyte_operand 2 offset distance _) sound

  pub write_opcode-IsSound :
      (i : ℕ) (opc : OpCode) (c : Compiler F) → IsSound c → IsSound (write_opcode i opc c)
  unfolding write_opcode
  write_opcode-IsSound i opc c sound = same_length-IsSound _ c (length-set _ i _) sound

  AllIndexed-append :
      (constants more : List (Value F)) (indices : List (Value F × ℕ))
      → AllIndexed constants indices
      → AllIndexed (constants ++ more) indices
  AllIndexed-append constants more [] h = tt
  AllIndexed-append constants more ((value, idx) ∷ indices) h = (
    get_elem?-append_some constants more idx value h.0,
    AllIndexed-append constants more indices h.1,
  )

  pub insert_constant-IsSound :
      (value : Value F) (c : Compiler F) → IsSound c → IsSound (insert_constant value c)
  unfolding insert_constant add_constant
  insert_constant-IsSound value c sound =
      let constants = c.obj_function.chunk.constants in
      record {
        slots = sound.slots;
        counted = sound.counted;
        upvalues_fit = sound.upvalues_fit;
        locals_fit = sound.locals_fit;
        traced = record {
          sorted = sound.traced.sorted;
          within = sound.traced.within;
          starts = sound.traced.starts;
          covered = sound.traced.covered;
        };
        indexed = (
          get_elem?-append_last constants value,
          AllIndexed-append constants (value ∷ []) c.constant_indices sound.indexed,
        );
        started = sound.started;
      }
