-- ===== src/Parser/Variables.antt =====
-- Local variables and upvalues: `resolve_local`, `add_upvalue`, `resolve_upvalue`, `add_local` and
-- `declare_local_variable` of tx-runtime/include/tx/compiler_inl.hxx.
use tx_lang_cxx.Prelude.{
  ℕ, ◌+◌, Bool, true, false, not, ◌&&◌, ◌||◌, Option, none, some, List, [], ◌∷◌, ◌++◌, length, take,
  ltb, ◌==◌, if◌then◌else◌,
}
use tx_lang_cxx.TypeInfo.{TypeSet}
use tx_lang_cxx.Scanner.State.{Token}
use tx_lang_cxx.Parser.State.{
  Local, Upvalue, Compiler, Action, max_locals, max_upvalues, pure, invalid, gets, lift,
  with_compiler, update, update_compiler, ◌>>=◌, ◌>>◌, on_option, when,
}
use tx_lang_cxx.Parser.Tokens.{error, error_at}
use tx_lang_cxx.Parser.Scopes.{identifiers_equal}

-- Inside is the index or -1; outside `none`, where the assertion on the depth fails.
unfoldable pub resolve_local : List ℕ → List Local → Option (Option ℕ)
resolve_local name [] = some none
resolve_local name (local ∷ locals) =
    let rest = resolve_local name locals in
    let found : Option (Option ℕ) = elim local.depth [
      | none ↦ none
      | some depth ↦ some (some (length locals))
    ] in
    if identifiers_equal name local.name then found else rest

-- `locals[idx]`
abbrev pub local_at : ℕ → List Local → Option Local
local_at idx [] = none
local_at idx (local ∷ locals) =
    let rest = local_at idx locals in if idx == length locals then some local else rest

-- `local.is_captured = true`
abbrev pub capture : ℕ → List Local → List Local
capture idx [] = []
capture idx (local ∷ locals) =
    (if idx == length locals then record local { is_captured = true } else local)
    ∷ capture idx locals

abbrev pub bool_same : Bool → Bool → Bool
bool_same true b = b
bool_same false b = not b

abbrev pub same_upvalue : ℕ → Bool → Upvalue → Bool
same_upvalue index is_local upvalue = upvalue.index == index && bool_same upvalue.is_local is_local

-- the loop of `add_upvalue`, from the position `i`
abbrev pub find_upvalue : ℕ → Bool → ℕ → List Upvalue → Option ℕ
find_upvalue index is_local i [] = none
find_upvalue index is_local i (upvalue ∷ upvalues) =
    let rest = find_upvalue index is_local (i + 1) upvalues in
    if same_upvalue index is_local upvalue then some i else rest

-- `local.depth != -1 && local.depth < scope_depth`
abbrev pub outside : Option ℕ → ℕ → Bool
outside none scope_depth = false
outside (some depth) scope_depth = ltb depth scope_depth

-- whether the loop of `declare_local_variable` meets the name
abbrev pub is_declared : ℕ → List ℕ → List Local → Bool
is_declared scope_depth name [] = false
is_declared scope_depth name (local ∷ locals) =
    let rest = is_declared scope_depth name locals in
    if outside local.depth scope_depth then false else identifiers_equal name local.name || rest

-- What a search through the compilers comes to: an index with the variable, or -1, the compilers
-- after it, and whether there were too many upvalues.
pub record Resolved (F A : Type 0) : Type 0 where
  pub result : A
  pub compilers : List (Compiler F)
  pub too_many : Bool

module _ {F : Type 0} where
  abbrev pub push_upvalue : ℕ → Bool → Compiler F → Compiler F
  push_upvalue index is_local c = record c {
    obj_function = record c.obj_function { upvalue_count = c.obj_function.upvalue_count + 1 };
    upvalues = c.upvalues ++ record { index = index; is_local = is_local } ∷ [];
  }

  -- `add_upvalue`: the position, the compiler, and whether the error was met
  unfoldable pub add_upvalue : ℕ → Bool → Compiler F → ℕ × Compiler F × Bool
  add_upvalue index is_local c =
      let upvalue_count = c.obj_function.upvalue_count in
      let added : ℕ × Compiler F × Bool =
        if upvalue_count == max_upvalues
        then (0, c, true)
        else (upvalue_count, push_upvalue index is_local c, false) in
      on_option (find_upvalue index is_local 0 (take upvalue_count c.upvalues)) added
        λ i. (i, c, false)

  abbrev pub add_to :
      ℕ → Bool → Local → Compiler F → List (Compiler F) → Bool → Resolved F (Option (ℕ × Local))
  add_to index is_local local c enclosing too_many =
      let (i, c', full) = add_upvalue index is_local c in
      record { result = some (i, local); compilers = c' ∷ enclosing; too_many = full || too_many }

  abbrev pub not_resolved : List (Compiler F) → Resolved F (Option (ℕ × Local))
  not_resolved compilers = record { result = none; compilers = compilers; too_many = false }

  abbrev pub capture_local : ℕ → Compiler F → Compiler F
  capture_local idx c = record c { locals = capture idx c.locals }

  -- the part of `resolve_upvalue` behind the recursive call
  abbrev pub add_outer :
      Compiler F → Resolved F (Option (ℕ × Local)) → Resolved F (Option (ℕ × Local))
  add_outer c outer =
      on_option outer.result (not_resolved (c ∷ outer.compilers))
        λ (i, local). add_to i false local c outer.compilers outer.too_many

  -- the way through the local variable `idx` of the enclosing compiler `e`
  abbrev pub from_local :
      Compiler F → Compiler F → List (Compiler F) → ℕ → Option (Resolved F (Option (ℕ × Local)))
  from_local c e enclosing idx =
      on_option (local_at idx e.locals) none
        λ local. some (add_to idx true local c (capture_local idx e ∷ enclosing) false)

  -- the way through an upvalue of the enclosing compiler
  abbrev pub from_outer :
      Compiler F
      → Option (Resolved F (Option (ℕ × Local)))
      → Option (Resolved F (Option (ℕ × Local)))
  from_outer c outer = on_option outer none (λ resolved. some (add_outer c resolved))

  -- `none` where an assertion fails
  unfoldable pub resolve_upvalue :
      List ℕ → List (Compiler F) → Option (Resolved F (Option (ℕ × Local)))
  resolve_upvalue name [] = none
  resolve_upvalue name (c ∷ []) = some (not_resolved (c ∷ []))
  resolve_upvalue name (c ∷ e ∷ enclosing) =
      let outer = resolve_upvalue name (e ∷ enclosing) in
      on_option (resolve_local name e.locals) none
        λ found. on_option found (from_outer c outer) (from_local c e enclosing)

  -- `resolve_upvalue(*current_compiler, name)` on the parser's state
  unfoldable pub resolve_current : List ℕ → Action F (Option (ℕ × Local))
  resolve_current name = do
    compilers ← gets (λ p. p.compilers)
    resolved ← lift (resolve_upvalue name compilers)
    update (λ p. record p { compilers = resolved.compilers })
    when resolved.too_many (error "Too much closure variables in function.")
    pure resolved.result

  unfoldable pub push_local : List ℕ → Bool → TypeSet → Compiler F → Compiler F
  push_local name is_const type_set c = record c {
    locals =
        record {
          name = name;
          depth = none;
          is_captured = false;
          is_const = is_const;
          type_set = type_set;
        }
        ∷ c.locals;
  }

  unfoldable pub add_local : List ℕ → Bool → TypeSet → Action F (Unit {0})
  add_local name is_const type_set = do
    count ← with_compiler (λ c. length c.locals)
    if count == max_locals
        then error "Too many local variables in function."
        else update_compiler (push_local name is_const type_set)

  -- A second error is not reported, so that one stands for those of the loop.
  unfoldable pub declare_local_variable : Token F → Bool → TypeSet → Action F (Unit {0})
  declare_local_variable name is_const type_set = do
    depth ← with_compiler (λ c. c.scope_depth)
    if depth == 0 then invalid else do
      declared ← with_compiler (λ c. is_declared c.scope_depth name.lexeme c.locals)
      when declared (error_at name "Already a variable with this name in this scope.")
      add_local name.lexeme is_const type_set
