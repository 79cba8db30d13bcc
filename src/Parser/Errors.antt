-- ===== src/Parser/Errors.antt =====
-- The errors that the compiler reports against what `compile` returns: `had_error` and `panic_mode` of
-- the class `Parser` of tx-runtime/include/tx/compiler.hxx.
use Prim.Native.String.{String}
use mathlib.Core.Path.{subst}
use tx_lang_cxx.Prelude.{
  ℕ, ◌<◌, ◌≡◌, ◌↔◌, refl, Bool, true, Option, none, some, List, [], ◌∷◌, ◌++◌, length, arith,
  if◌then◌else◌,
}
use tx_lang_cxx.TypeInfo.{TypeSet}
use tx_lang_cxx.Value.{Value}
use tx_lang_cxx.OpCode.{OpCode}
use tx_lang_cxx.Scanner.State.{Scanner, Token, Outcome, ok, undefined, stuck}
use tx_lang_cxx.Parser.State.{
  Machine, Global, Upvalue, FunctionType, Compiler, Object, Parser, Action, pure, invalid, update,
  update_compiler, ◌>>=◌, continue, gets,
}
use tx_lang_cxx.Parser.Tokens.{error, error_at, set_cut_short, shift, leave_panic_mode, scan}
use tx_lang_cxx.Parser.Emit.{emit_instruction, emit_bytes, emit_upvalue}
use tx_lang_cxx.Parser.Scopes.{begin_compiler, pop_compiler, begin_scope}
use tx_lang_cxx.Parser.Variables.{resolve_current, add_local}
use tx_lang_cxx.Parser.Globals.{push_object, push_global, define_at}
use tx_lang_cxx.Parser.Compile.{set_source, compile}
use tx_lang_cxx.Parser.Keeps.{Keeps, After, keeps_rules}
use tx_lang_cxx.Parser.Invariant.{Invariant}
use tx_lang_cxx.Parser.Invariant.OfCompile.{compile-Keeps}

module _ {F : Type 0} where
  -- A parser that panics has met an error, and `had_error` says whether any was reported.
  pub record IsConsistent (p : Parser F) : Type 0 where
    pub panics : p.panic_mode ≡ true → p.had_error ≡ true
    pub reports : (p.had_error ≡ true) ↔ (0 < length p.diagnostics)

  error_at-Keeps :
      (token : Token F) (message : String) → Keeps IsConsistent (error_at token message)
  unfolding error_at update
  error_at-Keeps token message = record { at = λ p h. ground (arith, h.reports) }

  -- The fields that the invariant reads are the same.
  same :
      (p q : Parser F)
      → q.panic_mode ≡ p.panic_mode
      → q.had_error ≡ p.had_error
      → q.diagnostics ≡ p.diagnostics
      → IsConsistent p
      → IsConsistent q
  same p q e f g h = record { panics = rw (e, f) h.panics; reports = rw (f, g) h.reports }

  module _ (change : Parser F → Parser F)
      (e : (p : Parser F) → (change p).panic_mode ≡ p.panic_mode)
      (f : (p : Parser F) → (change p).had_error ≡ p.had_error)
      (g : (p : Parser F) → (change p).diagnostics ≡ p.diagnostics) where
    leaves : Keeps IsConsistent (update change)
    unfolding update
    leaves = record { at = λ p h. same p (change p) (e p) (f p) (g p) h }

  changed :
      (change : Compiler F → Compiler F) (p : Parser F) (cs : List (Compiler F))
      → IsConsistent p
      → After IsConsistent (elim cs as (λ _. Outcome (Unit {0} × Parser F)) [
        | [] ↦ undefined
        | c ∷ enclosing ↦ ok (tt, record p { compilers = change c ∷ enclosing })
      ])
  changed change p [] h = tt
  changed change p (c ∷ cs) h = same p (record p { compilers = change c ∷ cs }) refl refl refl h

  update_compiler-Keeps :
      (change : Compiler F → Compiler F) → Keeps IsConsistent (update_compiler change)
  unfolding update_compiler
  update_compiler-Keeps change = record { at = λ p h. changed change p p.compilers h }

  error-Keeps : (message : String) → Keeps IsConsistent (error message)
  unfolding error
  error-Keeps message = search (keeps_rules, error_at-Keeps)

  popped :
      (p : Parser F) (cs : List (Compiler F))
      → IsConsistent p
      → After IsConsistent (elim cs as (λ _. Outcome ((Compiler F × ℕ) × Parser F)) [
        | [] ↦ undefined
        | c ∷ enclosing ↦ ok (
          (c, length p.objects),
          record p {
            compilers = enclosing;
            objects = p.objects ++ Object.obj_function c.obj_function ∷ [];
          },
        )
      ])
  popped p [] h = tt
  popped p (c ∷ cs) h =
      same p
        (record p {
          compilers = cs;
          objects = p.objects ++ Object.obj_function c.obj_function ∷ [];
        })
        refl refl refl h

  pop_compiler-Keeps : Keeps IsConsistent pop_compiler
  unfolding pop_compiler invalid pure
  pop_compiler-Keeps = record { at = λ p h. popped p p.compilers h }

  scanned :
      (p : Parser F) (o : Outcome (Token F × Scanner))
      → IsConsistent p
      → After IsConsistent (elim o as (λ _. Outcome (Unit {0} × Parser F)) [
        | ok (token, s) ↦ ok (tt, record p { scanner = s; current = token })
        | undefined ↦ undefined
        | stuck ↦ stuck
      ])
  scanned p (ok (token, s)) h = same p (record p { scanner = s; current = token }) refl refl refl h
  scanned p undefined h = tt
  scanned p stuck h = tt

  scan-Keeps : (machine : Machine F) → Keeps IsConsistent (scan machine)
  unfolding scan
  scan-Keeps machine = record { at = λ p h. scanned p _ h }

  define_at-same :
      (idx : ℕ) (p : Parser F)
      → ((define_at idx p).panic_mode ≡ p.panic_mode)
        × ((define_at idx p).had_error ≡ p.had_error)
        × ((define_at idx p).diagnostics ≡ p.diagnostics)
  unfolding define_at
  define_at-same idx p = ground arith

  define_at-Keeps : (idx : ℕ) → Keeps IsConsistent (update (define_at idx))
  define_at-Keeps idx =
      leaves _ (λ p. (define_at-same idx p).0) (λ p. (define_at-same idx p).1)
        (λ p. (define_at-same idx p).2)

  set_cut_short-Keeps : (flag : Parser F → Bool) → Keeps IsConsistent (set_cut_short flag)
  unfolding set_cut_short
  set_cut_short-Keeps flag = leaves _ (λ p. refl) (λ p. refl) (λ p. refl)

  shift-Keeps : Keeps IsConsistent shift
  unfolding shift
  shift-Keeps = leaves _ (λ p. refl) (λ p. refl) (λ p. refl)

  -- The flag is cleared, so that nothing is claimed of it.
  leave_panic_mode-Keeps : Keeps IsConsistent leave_panic_mode
  unfolding leave_panic_mode update
  leave_panic_mode-Keeps = record {
    at = λ p h. record { panics = λ e. absurd (ground arith); reports = h.reports };
  }

  set_source-Keeps : (source : List ℕ) → Keeps IsConsistent (set_source source)
  unfolding set_source
  set_source-Keeps source = leaves _ (λ p. refl) (λ p. refl) (λ p. refl)

  push_global-Keeps :
      (name : Value F) (sig : Global) → Keeps IsConsistent (update (push_global name sig))
  unfolding push_global
  push_global-Keeps name sig = leaves _ (λ p. refl) (λ p. refl) (λ p. refl)

  push_object-Keeps : (object : Object F) → Keeps IsConsistent (update (push_object object))
  unfolding push_object
  push_object-Keeps object = leaves _ (λ p. refl) (λ p. refl) (λ p. refl)

  begin_compiler-Keeps :
      (type : FunctionType) (name : Option (List ℕ)) → Keeps IsConsistent (begin_compiler type name)
  unfolding begin_compiler
  begin_compiler-Keeps type name = leaves _ (λ p. refl) (λ p. refl) (λ p. refl)

  begin_scope-Keeps : Keeps IsConsistent begin_scope
  unfolding begin_scope
  begin_scope-Keeps = update_compiler-Keeps _

  emit_instruction-Keeps :
      (n : ℕ) (opc : OpCode) (operand : ℕ) → Keeps IsConsistent (emit_instruction n opc operand)
  unfolding emit_instruction
  emit_instruction-Keeps n opc operand = search (keeps_rules, update_compiler-Keeps) depth 20

  emit_upvalue-Keeps : (upvalue : Upvalue) → Keeps IsConsistent (emit_upvalue upvalue)
  unfolding emit_upvalue emit_bytes
  emit_upvalue-Keeps upvalue = search (keeps_rules, update_compiler-Keeps) depth 20

  set_compilers-Keeps :
      (compilers : List (Compiler F))
      → Keeps IsConsistent (update λ p. record p { compilers = compilers })
  set_compilers-Keeps compilers = leaves _ (λ p. refl) (λ p. refl) (λ p. refl)

  resolve_current-Keeps : (name : List ℕ) → Keeps IsConsistent (resolve_current name)
  unfolding resolve_current
  resolve_current-Keeps name = search (keeps_rules, set_compilers-Keeps, error-Keeps) depth 20

  add_local-Keeps :
      (name : List ℕ) (is_const : Bool) (types : TypeSet)
      → Keeps IsConsistent (add_local name is_const types)
  unfolding add_local
  add_local-Keeps name is_const types =
      search (keeps_rules, update_compiler-Keeps, error-Keeps) depth 20

  IsConsistent-Invariant : (machine : Machine F) → Invariant machine IsConsistent
  IsConsistent-Invariant machine = record {
    on_error = error_at-Keeps;
    on_flag = set_cut_short-Keeps;
    on_calm = leave_panic_mode-Keeps;
    on_shift = shift-Keeps;
    on_source = set_source-Keeps;
    on_scan = scan-Keeps machine;
    on_instruction = emit_instruction-Keeps;
    on_constant = λ value. update_compiler-Keeps _;
    on_upvalue = emit_upvalue-Keeps;
    on_patch = λ offset distance. update_compiler-Keeps _;
    on_opcode = λ i opc. update_compiler-Keeps _;
    on_compiler = begin_compiler-Keeps;
    on_end = pop_compiler-Keeps;
    on_scope = begin_scope-Keeps;
    on_close = update_compiler-Keeps _;
    on_loop = λ is_loop_expr. update_compiler-Keeps _;
    on_loop_end = update_compiler-Keeps _;
    on_loop_types = λ types. update_compiler-Keeps _;
    on_resolve = resolve_current-Keeps;
    on_local = add_local-Keeps;
    on_initialize = update_compiler-Keeps _;
    on_signature = λ params. update_compiler-Keeps _;
    on_object = λ bytes. push_object-Keeps _;
    on_global = push_global-Keeps;
    on_define = define_at-Keeps;
  }

  -- What an action's result says of the state that it leaves.
  record Finishes {A : Type 0} (Q : A → Parser F → Type 0) (m : Action F A) : Type 0 where
    says : (p q : Parser F) (a : A) → m p ≡ ok (a, q) → Q a q

  Finishes-continue :
      {A B : Type 0} (Q : B → Parser F → Type 0) (o : Outcome (A × Parser F)) (f : A → Action F B)
      (q : Parser F) (b : B)
      → ((a : A) → Finishes Q (f a))
      → continue f o ≡ ok (b, q)
      → Q b q
  Finishes-continue Q (ok (a, p)) f q b h e = (h a).says p q b e
  Finishes-continue Q undefined f q b h e = absurd (ground arith)
  Finishes-continue Q stuck f q b h e = absurd (ground arith)

  Finishes-bind :
      {A B : Type 0} (Q : B → Parser F → Type 0) (m : Action F A) (f : A → Action F B)
      → ((a : A) → Finishes Q (f a))
      → Finishes Q (m >>= f)
  unfolding ◌>>=◌
  Finishes-bind Q m f h = record { says = λ p q b e. Finishes-continue Q (m p) f q b h e }

  -- The null pointer, or the address, by the flag.
  abbrev ByFlag : Option ℕ → Parser F → Type 0
  ByFlag result p = (result ≡ none) ↔ (p.had_error ≡ true)

  Finishes-flag :
      (address : ℕ)
      → Finishes ByFlag
          (gets (λ p. p.had_error) >>= λ had_error. pure (if had_error then none else some address))
  unfolding ◌>>=◌ gets pure
  Finishes-flag address = record { says = λ p q a e. ground arith }

  compile-Finishes :
      (machine : Machine F) (fuel : ℕ) (source : List ℕ)
      → Finishes ByFlag (compile machine fuel source)
  unfolding compile
  compile-Finishes machine fuel source = search (Finishes-bind, Finishes-flag) depth 30

  -- From a state in which `had_error` says whether an error was reported, and a panic means that one
  -- was: if `compile` returns, this is so again, and the result is the null pointer exactly if an
  -- error has been reported.
  pub compile-IsConsistent :
      (machine : Machine F) (fuel : ℕ) (source : List ℕ) (p q : Parser F) (result : Option ℕ)
      → IsConsistent p
      → compile machine fuel source p ≡ ok (result, q)
      → IsConsistent q × ((result ≡ none) ↔ (0 < length q.diagnostics))
  compile-IsConsistent machine fuel source p q result h e =
      let after =
        subst (After IsConsistent) e
          ((compile-Keeps (IsConsistent-Invariant machine) fuel source).at p h) in
      let flag = (compile-Finishes machine fuel source).says p q result e in
      (after, ((λ n. after.reports.0 (flag.0 n)), (λ r. flag.1 (after.reports.1 r))))
