-- ===== src/Parser/Globals.antt =====
-- Global variables, and the declaration of a variable of either kind: `resolve_global` to
-- `define_variable` of tx-runtime/include/tx/compiler_inl.hxx, `add_global` of vm_inl.hxx and
-- `make_string` of object_inl.hxx.
use tx_lang_cxx.Prelude.{
  ℕ, ◌+◌, Bool, true, false, not, ◌&&◌, Option, none, some, List, [], ◌∷◌, ◌++◌, length, get_elem?,
  set, ◌==◌, if◌then◌else◌,
}
use tx_lang_cxx.OpCode.{OpCode}
use tx_lang_cxx.Value.{Value}
use tx_lang_cxx.TypeInfo.{TypeSet}
use tx_lang_cxx.Scanner.State.{Token}
use tx_lang_cxx.Scanner.Keyword.{bytes_eq}
use tx_lang_cxx.Parser.State.{
  Machine, Global, Compiler, Object, Parser, Action, pure, invalid, gets, lift, with_compiler,
  update, update_compiler, ◌>>=◌, ◌>>◌, on_option, when,
}
use tx_lang_cxx.Parser.Tokens.{error_at}
use tx_lang_cxx.Parser.Emit.{find_index, emit_var_length_instruction}
use tx_lang_cxx.Parser.Variables.{bool_same, declare_local_variable}

module _ {F : Type 0} where
  -- the set `strings`: the address of the string with these bytes
  abbrev pub find_string : List ℕ → ℕ → List (Object F) → Option ℕ
  find_string bytes i [] = none
  find_string bytes i (object ∷ objects) =
      let rest = find_string bytes (i + 1) objects in
      elim object [
        | Object.obj_string other ↦ if bytes_eq bytes other then some i else rest
        | Object.obj_function f ↦ rest
      ]

  unfoldable pub push_object : Object F → Parser F → Parser F
  push_object object p = record p { objects = p.objects ++ object ∷ [] }

  -- Strings with the same bytes are one object.
  unfoldable pub make_string : List ℕ → Action F (Value F)
  make_string bytes = do
    existing ← gets (λ p. find_string bytes 0 p.objects)
    let created : Action F (Value F) = do
      address ← gets (λ p. length p.objects)
      update (push_object (Object.obj_string bytes))
      pure (Value.obj address)
    on_option existing created (λ address. pure (Value.obj address))

  -- `VM::add_global` with the value `val_none`
  unfoldable pub push_global : Value F → Global → Parser F → Parser F
  push_global name sig p = record p {
    global_values = p.global_values ++ Value.val_none ∷ [];
    global_signatures = p.global_signatures ++ sig ∷ [];
    global_indices = (name, length p.global_values) ∷ p.global_indices;
  }

  unfoldable pub add_global : Value F → Global → Action F ℕ
  add_global identifier sig = do
    new_index ← gets (λ p. length p.global_values)
    update (push_global identifier sig)
    pure new_index

  -- `.is_defined = true`
  unfoldable pub define_at : ℕ → Parser F → Parser F
  define_at idx p = elim (get_elem? p.global_signatures idx) [
    | none ↦ p
    | some sig ↦ record p {
      global_signatures = set p.global_signatures idx (record sig { is_defined = true });
    }
  ]

  unfoldable pub initialize_back : Compiler F → Compiler F
  initialize_back c = elim c.locals [
    | [] ↦ c
    | local ∷ locals ↦ record c { locals = record local { depth = some c.scope_depth } ∷ locals }
  ]

  -- `none` is the index -1
  unfoldable pub mark_initialized : Option ℕ → Action F (Unit {0})
  mark_initialized global_idx = do
    depth ← with_compiler (λ c. c.scope_depth)
    if depth == 0
        then (do idx ← lift global_idx; update (define_at idx))
        else update_compiler initialize_back

  unfoldable pub define_variable : Option ℕ → Action F (Unit {0})
  unfolding mark_initialized
  define_variable global_idx = do
    mark_initialized global_idx
    depth ← with_compiler (λ c. c.scope_depth)
    when (depth == 0)
        (do idx ← lift global_idx; emit_var_length_instruction OpCode.define_global idx)

module _ {F : Type 0} (machine : Machine F) where
  unfoldable pub resolve_global : List ℕ → Action F (Option ℕ)
  resolve_global name = do
    identifier ← make_string name
    gets (λ p. find_index machine.float_equal p.global_indices identifier)

  -- the error of a second declaration with the signature `sig`, if it is one
  unfoldable pub check_redeclaration : Token F → Bool → Option Global → Action F (Unit {0})
  check_redeclaration name is_const signature = do
    global ← lift signature
    redefinition ← gets (λ p. p.options.allow_global_redefinition)
    if not (bool_same is_const global.is_const)
        then error_at name "Redeclaration of global variable."
        else when (global.is_defined && not redefinition)
            (error_at name "Redefinition of global variable.")

  unfoldable pub declare_global_variable : Token F → Bool → TypeSet → Action F ℕ
  declare_global_variable name is_const type_set = do
    depth ← with_compiler (λ c. c.scope_depth)
    identifier ← make_string name.lexeme
    existing ← gets (λ p. find_index machine.float_equal p.global_indices identifier)
    let added : Action F ℕ =
        add_global identifier
          (record { is_defined = false; is_const = is_const; type_set = type_set })
    let again : ℕ → Action F ℕ = λ idx. do
      signature ← gets (λ p. get_elem? p.global_signatures idx)
      check_redeclaration name is_const signature
      pure idx
    if depth == 0 then on_option existing added again else invalid

  unfoldable pub declare_variable : Token F → Bool → TypeSet → Action F (Option ℕ)
  declare_variable name is_const type_set = do
    depth ← with_compiler (λ c. c.scope_depth)
    if depth == 0
        then (do idx ← declare_global_variable name is_const type_set; pure (some idx))
        else (do declare_local_variable name is_const type_set; pure none)
