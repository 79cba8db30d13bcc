-- ===== src/Parser/Sound/Whole.antt =====
-- The invariant of the whole parser, of its compilers and of the functions that are objects, through
-- `compile` of tx-runtime/include/tx/compiler_inl.hxx.
use Prim.Native.String.{String}
use tx_lang_cxx.Prelude.{
  ℕ, ◌+◌, ◌≤◌, ◌≡◌, refl, Bool, true, false, Option-cases, Option, List, [], ◌∷◌, ◌++◌, length,
  arith, inl, inr, ◌==◌, if◌then◌else◌,
}
use mathlib.Core.Path.{subst}
use tx_lang_cxx.TypeInfo.{TypeSet}
use tx_lang_cxx.Value.{Value}
use tx_lang_cxx.OpCode.{OpCode}
use tx_lang_cxx.Scanner.State.{Scanner, Token, Outcome, ok, undefined, stuck}
use tx_lang_cxx.Chunk.Writes.{IsTraced}
use tx_lang_cxx.Parser.State.{
  Machine, Global, Upvalue, FunctionType, Compiler, Object, Parser, max_locals, max_upvalues,
  update_compiler, lift, with_compiler, gets, invalid, pure, update, when, ◌>>=◌,
}
use tx_lang_cxx.Parser.Tokens.{
  report, error, error_at, set_cut_short, shift, leave_panic_mode, scan,
}
use tx_lang_cxx.Parser.Emit.{emit_instruction, emit_bytes, emit_upvalue}
use tx_lang_cxx.Parser.Scopes.{begin_compiler, pop_compiler, begin_scope}
use tx_lang_cxx.Parser.Variables.{resolve_upvalue, resolve_current, push_local, add_local}
use tx_lang_cxx.Parser.Globals.{push_object, push_global, define_at}
use tx_lang_cxx.Parser.Compile.{set_source, statements, compile}
use tx_lang_cxx.Parser.Keeps.{Keeps, After, keeps_rules, Keeps-bind, Keeps-when, Keeps-pure}
use tx_lang_cxx.Parser.Invariant.{Invariant}
use tx_lang_cxx.Parser.Invariant.OfCompile.{compile-Keeps, statements-Keeps}
use tx_lang_cxx.Parser.Sound.{
  IsSound, add_instruction-IsSound, write_bytes-IsSound, append_multibyte_operand-IsSound,
  write_jump-IsSound, write_opcode-IsSound, insert_constant-IsSound,
}
use tx_lang_cxx.Parser.Sound.Changes.{
  new_compiler-IsSound, scope_depth-IsSound, close_scope-IsSound, push_loop-IsSound,
  pop_loop-IsSound, add_loop_types-IsSound, initialize_back-IsSound, set_signature-IsSound,
  push_local-IsSound,
}
use tx_lang_cxx.Parser.Sound.Resolve.{AllSound, resolve_upvalue-AllSound}

module _ {F : Type 0} where
  abbrev pub AllMade : List (Object F) → Type 0
  AllMade [] = Unit {0}
  AllMade (Object.obj_string bytes ∷ objects) = AllMade objects
  AllMade (Object.obj_function f ∷ objects) =
      (f.upvalue_count ≤ max_upvalues) × IsTraced f.chunk × AllMade objects

  pub record IsSoundParser (p : Parser F) : Type 0 where
    pub compilers_sound : AllSound p.compilers
    pub functions_made : AllMade p.objects

  AllMade-append :
      (objects : List (Object F)) (object : Object F)
      → AllMade objects
      → AllMade (object ∷ [])
      → AllMade (objects ++ object ∷ [])
  AllMade-append [] object all one = one
  AllMade-append (Object.obj_string bytes ∷ objects) object all one =
      AllMade-append objects object all one
  AllMade-append (Object.obj_function f ∷ objects) object all one =
      (all.0, all.1, AllMade-append objects object all.2 one)

  -- A change of the current compiler that keeps its invariant.
  changed :
      (change : Compiler F → Compiler F) (p : Parser F) (cs : List (Compiler F))
      → ((c : Compiler F) → IsSound c → IsSound (change c))
      → AllSound cs
      → AllMade p.objects
      → After IsSoundParser (elim cs as (λ _. Outcome (Unit {0} × Parser F)) [
        | [] ↦ undefined
        | c ∷ enclosing ↦ ok (tt, record p { compilers = change c ∷ enclosing })
      ])
  changed change p [] keep all traced = tt
  changed change p (c ∷ enclosing) keep all traced = record {
    compilers_sound = (keep c all.0, all.1);
    functions_made = traced;
  }

  update_compiler-Keeps :
      (change : Compiler F → Compiler F)
      → ((c : Compiler F) → IsSound c → IsSound (change c))
      → Keeps IsSoundParser (update_compiler change)
  unfolding update_compiler
  update_compiler-Keeps change keep = record {
    at = λ p h. changed change p p.compilers keep h.compilers_sound h.functions_made;
  }

  -- An update that leaves the compilers and the objects.
  same :
      (p q : Parser F)
      → q.compilers ≡ p.compilers
      → q.objects ≡ p.objects
      → IsSoundParser p
      → IsSoundParser q
  same p q e f h = record {
    compilers_sound = rw e h.compilers_sound;
    functions_made = rw f h.functions_made;
  }

  reported :
      (b : Bool) (token : Token F) (message : String) (p : Parser F)
      → IsSoundParser p
      → IsSoundParser (if b then p else report token message p)
  reported true token message p h = h
  reported false token message p h = same p (report token message p) refl refl h

  error_at-Keeps :
      (token : Token F) (message : String) → Keeps IsSoundParser (error_at token message)
  unfolding error_at update
  error_at-Keeps token message = record { at = λ p h. reported p.panic_mode token message p h }

  leaves :
      (change : Parser F → Parser F)
      → ((p : Parser F) → (change p).compilers ≡ p.compilers)
      → ((p : Parser F) → (change p).objects ≡ p.objects)
      → Keeps IsSoundParser (update change)
  unfolding update
  leaves change e f = record { at = λ p h. same p (change p) (e p) (f p) h }

  set_cut_short-Keeps : (flag : Parser F → Bool) → Keeps IsSoundParser (set_cut_short flag)
  unfolding set_cut_short
  set_cut_short-Keeps flag = leaves _ (λ p. refl) (λ p. refl)

  leave_panic_mode-Keeps : Keeps IsSoundParser leave_panic_mode
  unfolding leave_panic_mode
  leave_panic_mode-Keeps = leaves _ (λ p. refl) (λ p. refl)

  shift-Keeps : Keeps IsSoundParser shift
  unfolding shift
  shift-Keeps = leaves _ (λ p. refl) (λ p. refl)

  set_source-Keeps : (source : List ℕ) → Keeps IsSoundParser (set_source source)
  unfolding set_source
  set_source-Keeps source = leaves _ (λ p. refl) (λ p. refl)

  push_global-Keeps :
      (name : Value F) (sig : Global) → Keeps IsSoundParser (update (push_global name sig))
  unfolding push_global
  push_global-Keeps name sig = leaves _ (λ p. refl) (λ p. refl)

  define_at-same :
      (idx : ℕ) (p : Parser F)
      → ((define_at idx p).compilers ≡ p.compilers) × ((define_at idx p).objects ≡ p.objects)
  unfolding define_at
  define_at-same idx p = ground arith

  define_at-Keeps : (idx : ℕ) → Keeps IsSoundParser (update (define_at idx))
  define_at-Keeps idx = leaves _ (λ p. (define_at-same idx p).0) (λ p. (define_at-same idx p).1)

  emit_instruction-Keeps :
      (n : ℕ) (opc : OpCode) (operand : ℕ) → Keeps IsSoundParser (emit_instruction n opc operand)
  unfolding emit_instruction
  emit_instruction-Keeps n opc operand =
      search (keeps_rules, update_compiler-Keeps, add_instruction-IsSound) depth 20

  emit_upvalue-Keeps : (upvalue : Upvalue) → Keeps IsSoundParser (emit_upvalue upvalue)
  unfolding emit_upvalue emit_bytes
  emit_upvalue-Keeps upvalue =
      search
        (keeps_rules, update_compiler-Keeps, write_bytes-IsSound, append_multibyte_operand-IsSound)
        depth 20

  begin_compiler-Keeps :
      (type : FunctionType) (name : Option (List ℕ))
      → Keeps IsSoundParser (begin_compiler type name)
  unfolding begin_compiler update
  begin_compiler-Keeps type name = record {
    at = λ p h. record {
      compilers_sound = (new_compiler-IsSound type name, h.compilers_sound);
      functions_made = h.functions_made;
    };
  }

  popped :
      (p : Parser F) (cs : List (Compiler F))
      → AllSound cs
      → AllMade p.objects
      → After IsSoundParser (elim cs as (λ _. Outcome ((Compiler F × ℕ) × Parser F)) [
        | [] ↦ undefined
        | c ∷ enclosing ↦ ok (
          (c, length p.objects),
          record p {
            compilers = enclosing;
            objects = p.objects ++ Object.obj_function c.obj_function ∷ [];
          },
        )
      ])
  popped p [] all traced = tt
  popped p (c ∷ enclosing) all traced = record {
    compilers_sound = all.1;
    functions_made =
        AllMade-append p.objects _ traced
          (omega (arith, all.0.counted, all.0.upvalues_fit), all.0.traced, tt);
  }

  pop_compiler-Keeps : Keeps IsSoundParser pop_compiler
  unfolding pop_compiler invalid pure
  pop_compiler-Keeps = record {
    at = λ p h. popped p p.compilers h.compilers_sound h.functions_made;
  }

  push_object-Keeps :
      (bytes : List ℕ) → Keeps IsSoundParser (update (push_object (Object.obj_string bytes)))
  unfolding push_object update
  push_object-Keeps bytes = record {
    at = λ p h. record {
      compilers_sound = h.compilers_sound;
      functions_made = AllMade-append p.objects _ h.functions_made tt;
    };
  }

  error-Keeps : (message : String) → Keeps IsSoundParser (error message)
  unfolding error
  error-Keeps message = search (keeps_rules, error_at-Keeps)

  module _ (name : List ℕ) (is_const : Bool) (types : TypeSet) where
    -- `add_local` behind the test on the number of locals
    branch :
        (p : Parser F) (c : Compiler F) (cs : List (Compiler F)) (b : Bool)
        → (length c.locals == max_locals) ≡ b
        → IsSoundParser (record p { compilers = c ∷ cs })
        → After IsSoundParser (
            (if b
                then error "Too many local variables in function."
                else update_compiler (push_local name is_const types))
              (record p { compilers = c ∷ cs }))
    unfolding update_compiler
    branch p c cs true e h = (error-Keeps _).at _ h
    branch p c cs false e h = record {
      compilers_sound =
          (push_local-IsSound name is_const types c e h.compilers_sound.0, h.compilers_sound.1);
      functions_made = h.functions_made;
    }

    added :
        (p : Parser F) (cs : List (Compiler F))
        → p.compilers ≡ cs
        → IsSoundParser p
        → After IsSoundParser (add_local name is_const types p)
    unfolding add_local ◌>>=◌ with_compiler
    added p [] e h = rw e tt
    added p (c ∷ cs) e h =
        let h' : IsSoundParser (record p { compilers = c ∷ cs }) = record {
          compilers_sound = subst AllSound e h.compilers_sound;
          functions_made = h.functions_made;
        } in
        rw e (branch p c cs (length c.locals == max_locals) refl h')

    add_local-Keeps : Keeps IsSoundParser (add_local name is_const types)
    add_local-Keeps = record { at = λ p h. added p p.compilers refl h }

  resolve_current-Keeps : (name : List ℕ) → Keeps IsSoundParser (resolve_current name)
  unfolding resolve_current ◌>>=◌ gets update lift
  resolve_current-Keeps name = record {
    at = λ p h. elim (Option-cases (resolve_upvalue name p.compilers)) [
      | inl e ↦ rw e tt
      | inr (r, e) ↦
          let h' : IsSoundParser (record p { compilers = r.compilers }) = record {
            compilers_sound = resolve_upvalue-AllSound name p.compilers r e h.compilers_sound;
            functions_made = h.functions_made;
          } in
          let rest : Keeps IsSoundParser (
              when r.too_many (error "Too much closure variables in function.") >>= λ _.
              pure r.result) =
            Keeps-bind _ _ (Keeps-when _ _ (error-Keeps _)) (λ _. Keeps-pure _) in
          rw e (rest.at _ h')
    ];
  }

  scanned :
      (p : Parser F) (o : Outcome (Token F × Scanner))
      → IsSoundParser p
      → After IsSoundParser (elim o as (λ _. Outcome (Unit {0} × Parser F)) [
        | ok (token, s) ↦ ok (tt, record p { scanner = s; current = token })
        | undefined ↦ undefined
        | stuck ↦ stuck
      ])
  scanned p (ok (token, s)) h = same p (record p { scanner = s; current = token }) refl refl h
  scanned p undefined h = tt
  scanned p stuck h = tt

  scan-Keeps : (machine : Machine F) → Keeps IsSoundParser (scan machine)
  unfolding scan
  scan-Keeps machine = record { at = λ p h. scanned p _ h }

  begin_scope-Keeps : Keeps IsSoundParser begin_scope
  unfolding begin_scope
  begin_scope-Keeps = update_compiler-Keeps _ (λ c. scope_depth-IsSound (c.scope_depth + 1) c)

  IsSoundParser-Invariant : (machine : Machine F) → Invariant machine IsSoundParser
  IsSoundParser-Invariant machine = record {
    on_error = error_at-Keeps;
    on_flag = set_cut_short-Keeps;
    on_calm = leave_panic_mode-Keeps;
    on_shift = shift-Keeps;
    on_source = set_source-Keeps;
    on_scan = scan-Keeps machine;
    on_instruction = emit_instruction-Keeps;
    on_constant = λ value. update_compiler-Keeps _ (insert_constant-IsSound value);
    on_upvalue = emit_upvalue-Keeps;
    on_patch = λ offset distance. update_compiler-Keeps _ (write_jump-IsSound offset distance);
    on_opcode = λ i opc. update_compiler-Keeps _ (write_opcode-IsSound i opc);
    on_compiler = begin_compiler-Keeps;
    on_end = pop_compiler-Keeps;
    on_scope = begin_scope-Keeps;
    on_close = update_compiler-Keeps _ close_scope-IsSound;
    on_loop = λ is_loop_expr. update_compiler-Keeps _ (push_loop-IsSound is_loop_expr);
    on_loop_end = update_compiler-Keeps _ pop_loop-IsSound;
    on_loop_types = λ types. update_compiler-Keeps _ (add_loop_types-IsSound types);
    on_resolve = resolve_current-Keeps;
    on_local = add_local-Keeps;
    on_initialize = update_compiler-Keeps _ initialize_back-IsSound;
    on_signature = λ params. update_compiler-Keeps _ (set_signature-IsSound params);
    on_object = push_object-Keeps;
    on_global = push_global-Keeps;
    on_define = define_at-Keeps;
  }

  -- If the loop of `compile` over the statements starts with a sound parser and returns, the parser is
  -- sound again, whatever the source. So in every compiler on the stack, that of the script and those
  -- around it, the slots in use are no more than the function reserves, the count of upvalues is right,
  -- locals and upvalues are within their limits, the table of lines is in order, each remembered index
  -- is that of its constant, and loops start inside the code; and every function that has been made has
  -- a table of lines in order and at most `max_upvalues` upvalues.
  pub statements-IsSoundParser :
      (machine : Machine F) (fuel : ℕ) (p q : Parser F)
      → IsSoundParser p
      → statements machine fuel p ≡ ok (tt, q)
      → IsSoundParser q
  statements-IsSoundParser machine fuel p q h e =
      subst (After IsSoundParser) e
        ((statements-Keeps (IsSoundParser-Invariant machine) fuel).at p h)

  -- If `compile` starts without compilers, as it always does, and with objects whose functions have a
  -- table of lines in order and at most `max_upvalues` upvalues, and returns, then this holds of every
  -- function among the objects that are left, those made from the source included.
  pub compile-AllMade :
      (machine : Machine F) (fuel : ℕ) (source : List ℕ) (p q : Parser F) (result : Option ℕ)
      → p.compilers ≡ []
      → AllMade p.objects
      → compile machine fuel source p ≡ ok (result, q)
      → AllMade q.objects
  compile-AllMade machine fuel source p q result none made e =
      let start : IsSoundParser p = record {
        compilers_sound = rw none tt;
        functions_made = made;
      } in
      let end : IsSoundParser q =
        subst (After IsSoundParser) e
          ((compile-Keeps (IsSoundParser-Invariant machine) fuel source).at p start) in
      end.functions_made
