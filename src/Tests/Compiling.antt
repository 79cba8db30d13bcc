-- ===== src/Tests/Compiling.antt =====
-- The compiler on a small program.
use tx_lang_cxx.Prelude.{
  ℕ, ◌+◌, ◌≤◌, ◌<◌, ◌≡◌, ◌⊎◌, get_or, if◌then◌else◌, ◌↔◌, refl, Bool, true, false, Option, none,
  some, List, [], ◌∷◌, length, ◌==◌, arith,
}
use tx_lang_cxx.TokenType.{TokenType}
use tx_lang_cxx.Parser.Sound.Changes.{new_compiler-IsSound}
use tx_lang_cxx.Scanner.State.{Literal, Outcome, ok, undefined, stuck}
use tx_lang_cxx.Chunk.{Chunk, write_bytes, append_multibyte_operand, read_closure_operand}
use tx_lang_cxx.OpCode
use tx_lang_cxx.OpCode.{OpCode, to_underlying}
use tx_lang_cxx.Vm
use tx_lang_cxx.Vm.{jump, jump_if_false}
use tx_lang_cxx.Parser.State.{
  Machine, Upvalue, Compiler, Parser, FunctionType, VmOptions, set_chunk,
}
use tx_lang_cxx.Parser.Scopes.{new_compiler, empty_chunk}
use tx_lang_cxx.Parser.Emit.{
  code_size, write_jump, add_instruction, byte_length, emit_upvalue, upvalue_flags, emit_loop,
  patch_jump,
}
use tx_lang_cxx.Parser.Compile.{statements, compile, new_parser}
use tx_lang_cxx.Parser.Sound.Whole.{
  AllMade, IsSoundParser, compile-AllMade, statements-IsSoundParser,
}
use tx_lang_cxx.Parser.Errors.{IsConsistent, compile-IsConsistent}
use tx_lang_cxx.Parser.Closures.{read_closure_operand-emit_upvalue}
use tx_lang_cxx.Parser.Jumps.{jump-patch_jump, loop-emit_loop}

abbrev machine : Machine ℕ
machine = record {
  float_equal = λ a b. a == b;
  parse_float = λ text. record { ptr = length text; value = none };
}

abbrev options : VmOptions
options = record {
  allow_global_redefinition = false;
  allow_end_compile_with_undefined_global = false;
}

-- `fn f(a:Int)Int{a*2}var x=f(3);while x<9{x=x+1;}`
abbrev source : List ℕ
source =
    b'f' ∷ b'n' ∷ b' ' ∷ b'f' ∷ b'(' ∷ b'a' ∷ b':' ∷ b'I' ∷ b'n' ∷ b't' ∷ b')' ∷ b'I' ∷ b'n' ∷ b't'
    ∷ b'{' ∷ b'a' ∷ b'*' ∷ b'2' ∷ b'}' ∷ b'v' ∷ b'a' ∷ b'r' ∷ b' ' ∷ b'x' ∷ b'=' ∷ b'f' ∷ b'('
    ∷ b'3' ∷ b')' ∷ b';' ∷ b'w' ∷ b'h' ∷ b'i' ∷ b'l' ∷ b'e' ∷ b' ' ∷ b'x' ∷ b'<' ∷ b'9' ∷ b'{'
    ∷ b'x' ∷ b'=' ∷ b'x' ∷ b'+' ∷ b'1' ∷ b';' ∷ b'}' ∷ []

abbrev state_of : {A : Type 0} → Outcome (A × Parser ℕ) → Parser ℕ
state_of (ok (result, p)) = p
state_of undefined = new_parser options
state_of stuck = new_parser options

abbrev after : Parser ℕ
after = state_of (compile machine 40 source (new_parser options))

-- the parser before the first statement of the source
abbrev opened : Parser ℕ
opened = record (new_parser options) {
  scanner = record { source = source; start = 0; current = 2; line = 1; str_interp_braces = [] };
  current = record {
    type = TokenType.fn_kw;
    lexeme = b'f' ∷ b'n' ∷ [];
    line = 1;
    value = Literal.val_none;
  };
  compilers = new_compiler FunctionType.script none ∷ [];
}

-- behind the last statement, where the compiler of the script still stands
abbrev parsed : Parser ℕ
parsed = state_of (statements machine 40 opened)

compile_source :
    (compile machine 40 source (new_parser options) ≡ ok (some 3, after))
    × (statements machine 40 opened ≡ ok (tt, parsed))
    × (length parsed.compilers ≡ 1)
unfolding tx_lang_cxx.Parser.State.gets tx_lang_cxx.Parser.State.lift
    tx_lang_cxx.Parser.State.with_compiler tx_lang_cxx.Parser.State.update
    tx_lang_cxx.Parser.State.update_compiler tx_lang_cxx.Parser.State.◌>>=◌
    tx_lang_cxx.Parser.Tokens.token_number tx_lang_cxx.Parser.Tokens.check
    tx_lang_cxx.Parser.Tokens.set_cut_short tx_lang_cxx.Parser.Tokens.shift
    tx_lang_cxx.Parser.Tokens.scan tx_lang_cxx.Parser.Tokens.advance tx_lang_cxx.Parser.Tokens.match
    tx_lang_cxx.Parser.Tokens.consume tx_lang_cxx.Parser.Emit.as_opcode
    tx_lang_cxx.Parser.Emit.add_instruction tx_lang_cxx.Parser.Emit.emit_instruction
    tx_lang_cxx.Parser.Emit.emit_opcode tx_lang_cxx.Parser.Emit.emit_var_length_instruction
    tx_lang_cxx.Parser.Emit.insert_constant tx_lang_cxx.Parser.Emit.add_constant
    tx_lang_cxx.Parser.Emit.emit_constant tx_lang_cxx.Parser.Emit.emit_upvalues
    tx_lang_cxx.Parser.Emit.emit_closure tx_lang_cxx.Parser.Emit.emit_jump
    tx_lang_cxx.Parser.Emit.emit_loop tx_lang_cxx.Parser.Emit.write_jump
    tx_lang_cxx.Parser.Emit.patch_jump tx_lang_cxx.Parser.Scopes.begin_compiler
    tx_lang_cxx.Parser.Scopes.end_compiler tx_lang_cxx.Parser.Scopes.begin_scope
    tx_lang_cxx.Parser.Scopes.pop_locals tx_lang_cxx.Parser.Scopes.close_scope
    tx_lang_cxx.Parser.Scopes.end_scope tx_lang_cxx.Parser.Scopes.push_loop
    tx_lang_cxx.Parser.Scopes.begin_loop tx_lang_cxx.Parser.Loops.patch_at
    tx_lang_cxx.Parser.Loops.patch_loop tx_lang_cxx.Parser.Loops.patch_jumps_in_innermost_loop
    tx_lang_cxx.Parser.Loops.end_loop tx_lang_cxx.Parser.Variables.resolve_local
    tx_lang_cxx.Parser.Variables.resolve_upvalue tx_lang_cxx.Parser.Variables.resolve_current
    tx_lang_cxx.Parser.Variables.push_local tx_lang_cxx.Parser.Variables.add_local
    tx_lang_cxx.Parser.Variables.declare_local_variable tx_lang_cxx.Parser.Globals.push_object
    tx_lang_cxx.Parser.Globals.make_string tx_lang_cxx.Parser.Globals.push_global
    tx_lang_cxx.Parser.Globals.add_global tx_lang_cxx.Parser.Globals.define_at
    tx_lang_cxx.Parser.Globals.initialize_back tx_lang_cxx.Parser.Globals.define_variable
    tx_lang_cxx.Parser.Globals.resolve_global tx_lang_cxx.Parser.Globals.declare_global_variable
    tx_lang_cxx.Parser.Globals.declare_variable tx_lang_cxx.Parser.Types.type_list_loop
    tx_lang_cxx.Parser.Types.parameter_list_and_return_type tx_lang_cxx.Parser.Rules.next_precedence
    tx_lang_cxx.Parser.Rules.binds tx_lang_cxx.Parser.Rules.get_rule
    tx_lang_cxx.Parser.Rules.is_block_expr tx_lang_cxx.Parser.Steps.binary_opcode
    tx_lang_cxx.Parser.Steps.literal_value tx_lang_cxx.Parser.Steps.global_variable
    tx_lang_cxx.Parser.Steps.declare_parameters tx_lang_cxx.Parser.Steps.check_globals
    tx_lang_cxx.Parser.Steps.literal tx_lang_cxx.Parser.Steps.resolve_variable
    tx_lang_cxx.Parser.Steps.after_statement tx_lang_cxx.Parser.Grammar.set_signature
    tx_lang_cxx.Parser.Grammar.fn_statement tx_lang_cxx.Parser.Grammar.statement
    tx_lang_cxx.Parser.Compile.set_source tx_lang_cxx.Parser.Compile.compile
    tx_lang_cxx.Scanner.State.advance tx_lang_cxx.Scanner.State.peek tx_lang_cxx.Scanner.State.match
    tx_lang_cxx.Scanner.State.skip_whitespace_loop tx_lang_cxx.Scanner.State.skip_whitespace
    tx_lang_cxx.Scanner.State.advance_while tx_lang_cxx.Scanner.Number.without_underscores
    tx_lang_cxx.Scanner.Number.digit_value tx_lang_cxx.Scanner.Number.digits_value
    tx_lang_cxx.Scanner.Number.from_chars tx_lang_cxx.Scanner.Number.is_digit_or_underscore
    tx_lang_cxx.Scanner.Number.skip_digits tx_lang_cxx.Scanner.Number.literal_token
    tx_lang_cxx.Scanner.Number.fraction tx_lang_cxx.Scanner.Number.match_exponent
    tx_lang_cxx.Scanner.Number.number_token tx_lang_cxx.Scanner.Number.number
    tx_lang_cxx.Scanner.Scan.is_identifier_char tx_lang_cxx.Scanner.Scan.identifier
    tx_lang_cxx.Scanner.Scan.operator tx_lang_cxx.Scanner.Scan.close_brace
    tx_lang_cxx.Scanner.Scan.dispatch tx_lang_cxx.Scanner.Scan.scan_token
    tx_lang_cxx.Scanner.Keyword.identifier_type tx_lang_cxx.Chunk.write_multibyte_operand
    tx_lang_cxx.Chunk.add_constant tx_lang_cxx.Chunk.write_instruction
    tx_lang_cxx.OpCode.get_byte_count_following_opcode tx_lang_cxx.TypeInfo.type_tag
    tx_lang_cxx.TypeInfo.info_equal tx_lang_cxx.TypeInfo.contains tx_lang_cxx.TypeInfo.add
    tx_lang_cxx.TypeInfo.move_all_from tx_lang_cxx.TypeInfo.params_from_right
    tx_lang_cxx.TypeInfo.assign_sets tx_lang_cxx.Value.equal
    tx_lang_cxx.TypeInfo.Check.type_check_comparison tx_lang_cxx.TypeInfo.Check.arithmetic_right
    tx_lang_cxx.TypeInfo.Check.arithmetic_left tx_lang_cxx.TypeInfo.Check.type_check_arithmetic
    tx_lang_cxx.TypeInfo.Check.type_check_binary tx_lang_cxx.TypeInfo.Check.call_info
    tx_lang_cxx.TypeInfo.Check.type_check_call
compile_source = (refl, refl, refl)

compile-AllMade_example : AllMade after.objects
compile-AllMade_example =
    compile-AllMade machine 40 source (new_parser options) after (some 3) refl tt compile_source.0

statements-IsSoundParser_example : IsSoundParser parsed
statements-IsSoundParser_example =
    statements-IsSoundParser machine 40 opened parsed
      (record {
        compilers_sound = (new_compiler-IsSound FunctionType.script none, tt);
        functions_made = tt;
      })
      compile_source.1

new_parser-IsConsistent : IsConsistent (new_parser {F = ℕ} options)
new_parser-IsConsistent = record { panics = λ h. h; reports = ground arith }

abbrev returned : Option ℕ
returned = some 3

compile-IsConsistent_example :
    IsConsistent after × ((returned ≡ none) ↔ (0 < length after.diagnostics))
compile-IsConsistent_example =
    compile-IsConsistent machine 40 source (new_parser options) after (some 3)
      new_parser-IsConsistent compile_source.0

-- a compiler that has written five bytes, with the placeholder of a jump at 2
abbrev compiler : Compiler ℕ
compiler =
    set_chunk (record empty_chunk { code = 0 ∷ 30 ∷ 0 ∷ 0 ∷ 1 ∷ [] })
      (new_compiler FunctionType.script none)

abbrev parser : Parser ℕ
parser = record (new_parser options) { compilers = compiler ∷ [] }

abbrev patched : Compiler ℕ
patched = write_jump 2 1 compiler

jump-patch_jump_example :
    (patch_jump 2 parser ≡ ok (tt, record parser { compilers = patched ∷ [] }))
    × (jump patched.obj_function.chunk.code 2 ≡ some 5)
    × ((falsey : Bool)
        → jump_if_false falsey patched.obj_function.chunk.code 2 ≡ some (if falsey then 5 else 4))
    × (length patched.obj_function.chunk.code ≡ 5)
    × ((j : ℕ)
        → (j < 2) ⊎ (4 ≤ j)
        → get_or patched.obj_function.chunk.code j 0 ≡ get_or compiler.obj_function.chunk.code j 0)
jump-patch_jump_example = jump-patch_jump parser compiler [] refl 2 (omega arith) (omega arith)

abbrev closed : Compiler ℕ
closed = add_instruction 2 parser.previous.line OpCode.loop 7 compiler

loop-emit_loop_example :
    (emit_loop 1 parser ≡ ok (tt, record parser { compilers = closed ∷ [] }))
    × (get_or closed.obj_function.chunk.code 5 0 ≡ to_underlying OpCode.loop)
    × (Vm.loop closed.obj_function.chunk.code 6 ≡ some 1)
    × (length closed.obj_function.chunk.code ≡ 8)
    × ((j : ℕ)
        → j < 5
        → get_or closed.obj_function.chunk.code j 0 ≡ get_or compiler.obj_function.chunk.code j 0)
loop-emit_loop_example = loop-emit_loop parser compiler [] refl 1 (omega arith) (omega arith)

-- the upvalue 300 that is a local, whose two bytes follow the flags
abbrev captured : Upvalue
captured = record { index = 300; is_local = true }

abbrev flagged : Chunk ℕ
flagged =
    write_bytes compiler.obj_function.chunk parser.previous.line
      (upvalue_flags true (byte_length 300) ∷ [])

abbrev listed : Chunk ℕ
listed = append_multibyte_operand flagged (byte_length 300) parser.previous.line 300

read_closure_operand-emit_upvalue_example :
    (emit_upvalue captured parser
      ≡ ok (tt, record parser { compilers = set_chunk listed compiler ∷ [] }))
    × (read_closure_operand listed.code 5 ≡ some (true, 300, 1 + byte_length 300))
    × (length listed.code ≡ 5 + (1 + byte_length 300))
    × ((j : ℕ) → j < 5 → get_or listed.code j 0 ≡ get_or compiler.obj_function.chunk.code j 0)
read_closure_operand-emit_upvalue_example =
    read_closure_operand-emit_upvalue parser compiler [] captured refl (omega arith)
