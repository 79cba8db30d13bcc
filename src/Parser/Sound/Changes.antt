-- ===== src/Parser/Sound/Changes.antt =====
-- The changes of a compiler that write no code keep its invariant.
use tx_lang_cxx.Prelude.{
  ℕ, ◌-◌, ◌≤◌, ◌≡◌, refl, ap, Bool, false, Bool-cases, Option, List, [], ◌∷◌, length, arith, inl,
  inr, ◌==◌,
}
use mathlib.Core.Path.{subst}
use tx_lang_cxx.TypeInfo.{TypeSet}
use tx_lang_cxx.Chunk.Writes.{IsTraced}
use tx_lang_cxx.Parser.State.{Local, Loop, FunctionType, Compiler, max_locals}
use tx_lang_cxx.Parser.Scopes.{
  new_compiler, empty_chunk, pop_locals, deeper, close_scope, push_loop,
}
use tx_lang_cxx.Parser.Loops.{pop_loop}
use tx_lang_cxx.Parser.Variables.{push_local}
use tx_lang_cxx.Parser.Globals.{initialize_back}
use tx_lang_cxx.Parser.Types.{ParametersAndReturn}
use tx_lang_cxx.Parser.Grammar.{add_loop_types, set_signature}
use tx_lang_cxx.Parser.Sound.{IsSound, AllStarted}

length-pop_locals :
    (depth : ℕ) (locals : List Local) → length (pop_locals depth locals).1 ≤ length locals
unfolding pop_locals
length-pop_locals depth [] = omega arith
length-pop_locals depth (local ∷ locals) = elim (Bool-cases (deeper local.depth depth)) [
  | inl e ↦ rw e (omega (arith, length-pop_locals depth locals))
  | inr e ↦ rw e (omega arith)
]

module _ {F : Type 0} where
  empty_chunk-IsTraced : IsTraced (empty_chunk {F = F})
  empty_chunk-IsTraced = record {
    sorted = tt;
    within = tt;
    starts = refl;
    covered = λ h. omega arith;
  }

  pub new_compiler-IsSound :
      (type : FunctionType) (name : Option (List ℕ)) → IsSound (new_compiler {F = F} type name)
  new_compiler-IsSound type name = record {
    slots = omega arith;
    counted = refl;
    upvalues_fit = omega arith;
    locals_fit = omega arith;
    traced = empty_chunk-IsTraced;
    indexed = tt;
    started = tt;
  }

  -- A compiler that differs in its locals, its scope or its signature.
  module _ (c : Compiler F) (sound : IsSound c) (locals : List Local)
      (fit : length locals ≤ max_locals) (depth : ℕ) where
    pub relocate : IsSound (record c { locals = locals; scope_depth = depth })
    relocate = record {
      slots = sound.slots;
      counted = sound.counted;
      upvalues_fit = sound.upvalues_fit;
      locals_fit = fit;
      traced = sound.traced;
      indexed = sound.indexed;
      started = sound.started;
    }

  -- A compiler that differs in its loops.
  module _ (c : Compiler F) (sound : IsSound c) (loops : List Loop)
      (started : AllStarted (length c.obj_function.chunk.code) loops) where
    reloop : IsSound (record c { loops = loops })
    reloop = record {
      slots = sound.slots;
      counted = sound.counted;
      upvalues_fit = sound.upvalues_fit;
      locals_fit = sound.locals_fit;
      traced = sound.traced;
      indexed = sound.indexed;
      started = started;
    }

  pub scope_depth-IsSound :
      (depth : ℕ) (c : Compiler F) → IsSound c → IsSound (record c { scope_depth = depth })
  scope_depth-IsSound depth c sound = relocate c sound c.locals sound.locals_fit depth

  pub close_scope-IsSound : (c : Compiler F) → IsSound c → IsSound (close_scope c)
  unfolding close_scope
  close_scope-IsSound c sound =
      let fewer = length-pop_locals (c.scope_depth - 1) c.locals in
      relocate c sound _ (omega (arith, sound.locals_fit)) (c.scope_depth - 1)

  pub push_loop-IsSound :
      (is_loop_expr : Bool) (c : Compiler F) → IsSound c → IsSound (push_loop is_loop_expr c)
  unfolding push_loop
  push_loop-IsSound is_loop_expr c sound = reloop c sound _ (omega arith, sound.started)

  pop_loops :
      (c : Compiler F) (loops : List Loop) → c.loops ≡ loops → IsSound c → IsSound (pop_loop c)
  unfolding pop_loop
  pop_loops c [] e sound = rw e (reloop c sound [] tt)
  pop_loops c (loop ∷ loops) e sound =
      let started : AllStarted (length c.obj_function.chunk.code) (loop ∷ loops) =
        subst (AllStarted (length c.obj_function.chunk.code)) e sound.started in
      rw e (reloop c sound loops started.1)

  pub pop_loop-IsSound : (c : Compiler F) → IsSound c → IsSound (pop_loop c)
  pop_loop-IsSound c sound = pop_loops c c.loops refl sound

  type_loops :
      (types : TypeSet) (c : Compiler F) (loops : List Loop)
      → c.loops ≡ loops
      → IsSound c
      → IsSound (add_loop_types types c)
  unfolding add_loop_types
  type_loops types c [] e sound = rw e (reloop c sound [] tt)
  type_loops types c (loop ∷ loops) e sound =
      let started : AllStarted (length c.obj_function.chunk.code) (loop ∷ loops) =
        subst (AllStarted (length c.obj_function.chunk.code)) e sound.started in
      rw e (reloop c sound _ (started.0, started.1))

  pub add_loop_types-IsSound :
      (types : TypeSet) (c : Compiler F) → IsSound c → IsSound (add_loop_types types c)
  add_loop_types-IsSound types c sound = type_loops types c c.loops refl sound

  initialize_locals :
      (c : Compiler F) (locals : List Local)
      → c.locals ≡ locals
      → IsSound c
      → IsSound (initialize_back c)
  unfolding initialize_back
  initialize_locals c [] e sound = rw e (relocate c sound [] (omega arith) c.scope_depth)
  initialize_locals c (local ∷ locals) e sound =
      let fit : length (local ∷ locals) ≤ max_locals =
        omega (arith, ap length e, sound.locals_fit) in
      rw e (relocate c sound _ fit c.scope_depth)

  pub initialize_back-IsSound : (c : Compiler F) → IsSound c → IsSound (initialize_back c)
  initialize_back-IsSound c sound = initialize_locals c c.locals refl sound

  pub set_signature-IsSound :
      (params : ParametersAndReturn F) (c : Compiler F)
      → IsSound c
      → IsSound (set_signature params c)
  unfolding set_signature
  set_signature-IsSound params c sound = record {
    slots = sound.slots;
    counted = sound.counted;
    upvalues_fit = sound.upvalues_fit;
    locals_fit = sound.locals_fit;
    traced = sound.traced;
    indexed = sound.indexed;
    started = sound.started;
  }

  pub push_local-IsSound :
      (name : List ℕ) (is_const : Bool) (types : TypeSet) (c : Compiler F)
      → (length c.locals == max_locals) ≡ false
      → IsSound c
      → IsSound (push_local name is_const types c)
  unfolding push_local
  push_local-IsSound name is_const types c room sound =
      relocate c sound _ (ground (arith, sound.locals_fit)) c.scope_depth
