-- ===== src/Parser/Scopes.antt =====
-- Compilers and scopes: `begin_compiler` to `begin_loop` of tx-runtime/include/tx/compiler_inl.hxx.
use tx_lang_cxx.Prelude.{
  ℕ, ◌+◌, ◌-◌, Bool, true, false, Option, none, some, List, [], ◌∷◌, ◌++◌, length, ltb, ◌==◌,
  if◌then◌else◌,
}
use tx_lang_cxx.Prelude.Int.{pos}
use tx_lang_cxx.OpCode.{OpCode}
use tx_lang_cxx.Chunk.{Chunk}
use tx_lang_cxx.TypeInfo.{no_types, no_sets}
use tx_lang_cxx.Scanner.Keyword.{bytes_eq}
use tx_lang_cxx.Parser.State.{
  Local, FunctionType, Compiler, Object, Action, pure, invalid, with_compiler, update,
  update_compiler, ◌>>=◌, ◌>>◌, when,
}
use tx_lang_cxx.Parser.Emit.{emit_opcode, emit_var_length_instruction, code_size}

-- `identifiers_equal`
abbrev pub identifiers_equal : List ℕ → List ℕ → Bool
identifiers_equal lhs rhs = bytes_eq lhs rhs

module _ {F : Type 0} where
  abbrev pub empty_chunk : Chunk F
  empty_chunk = record { code = []; lines = []; constants = [] }

  -- The array of locals is still empty when its size is taken for the slots to reserve.
  abbrev pub new_compiler : FunctionType → Option (List ℕ) → Compiler F
  new_compiler type name_opt = record {
    obj_function = record {
      arity = 0;
      upvalue_count = 0;
      max_slots = 0;
      chunk = empty_chunk;
      name = elim type [ FunctionType.script ↦ none | FunctionType.function ↦ name_opt ];
    };
    type_info = record { parameter_types = no_sets; return_type = no_types };
    function_type = type;
    constant_indices = [];
    locals =
        record {
          name = [];
          depth = some 0;
          is_captured = false;
          is_const = true;
          type_set = no_types;
        }
        ∷ [];
    upvalues = [];
    scope_depth = 0;
    num_slots = pos 0;
    loops = [];
  }

  unfoldable pub begin_compiler : FunctionType → Option (List ℕ) → Action F (Unit {0})
  begin_compiler type name_opt =
      update λ p. record p { compilers = new_compiler type name_opt ∷ p.compilers }

  -- `current_compiler = current_compiler->enclosing`: the compiler that ends, and the address of its
  -- function
  unfoldable pub pop_compiler : Action F (Compiler F × ℕ)
  pop_compiler p = elim p.compilers [
    | [] ↦ invalid p
    | c ∷ enclosing ↦
        pure (c, length p.objects)
          (record p {
            compilers = enclosing;
            objects = p.objects ++ Object.obj_function c.obj_function ∷ [];
          })
  ]

  unfoldable pub end_compiler : Action F (Compiler F × ℕ)
  unfolding pop_compiler
  end_compiler = do emit_opcode OpCode.return; pop_compiler

  unfoldable pub begin_scope : Action F (Unit {0})
  begin_scope = update_compiler λ c. record c { scope_depth = c.scope_depth + 1 }

-- `depth > scope_depth`
abbrev pub deeper : Option ℕ → ℕ → Bool
deeper none scope_depth = false
deeper (some depth) scope_depth = ltb scope_depth depth

-- The loop of `end_scope`: how many locals go, and those that stay.
unfoldable pub pop_locals : ℕ → List Local → ℕ × List Local
pop_locals scope_depth [] = (0, [])
pop_locals scope_depth (local ∷ locals) =
    let (count, rest) = pop_locals scope_depth locals in
    if deeper local.depth scope_depth then (count + 1, rest) else (0, local ∷ locals)

module _ {F : Type 0} where
  unfoldable pub close_scope : Compiler F → Compiler F
  close_scope c = record c {
    scope_depth = c.scope_depth - 1;
    locals = (pop_locals (c.scope_depth - 1) c.locals).1;
  }

  -- A scope has been opened before.
  unfoldable pub end_scope : Action F (Unit {0})
  end_scope = do
    depth ← with_compiler (λ c. c.scope_depth)
    if depth == 0 then invalid else do
      scope_local_count ← with_compiler (λ c. (pop_locals (c.scope_depth - 1) c.locals).0)
      update_compiler close_scope
      when (ltb 0 scope_local_count)
          (emit_var_length_instruction OpCode.end_scope scope_local_count)

  unfoldable pub push_loop : Bool → Compiler F → Compiler F
  push_loop is_loop_expr c = record c {
    loops =
        record {
          start = code_size c;
          scope_depth = c.scope_depth;
          is_loop_expr = is_loop_expr;
          type_set = no_types;
        }
        ∷ c.loops;
  }

  -- `begin_loop`, with the start of the loop
  unfoldable pub begin_loop : Bool → Action F ℕ
  begin_loop is_loop_expr = do update_compiler (push_loop is_loop_expr); with_compiler code_size
