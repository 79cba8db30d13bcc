-- ===== src/Tests/Resolving.antt =====
-- The search for upvalues on three compilers, whose outermost has the local `x`, and the end of a scope.
use tx_lang_cxx.Prelude.{
  ℕ, ◌+◌, ◌<◌, ◌≤◌, length, get_elem?, ◌≡◌, refl, true, false, Option, none, some, List, [], ◌∷◌,
}
use tx_lang_cxx.TypeInfo.{no_types}
use tx_lang_cxx.Parser.State.{Local, Compiler, FunctionType}
use tx_lang_cxx.Parser.Scopes.{new_compiler, pop_locals}
use tx_lang_cxx.Parser.PoppedLocals.{pop_locals_lem}
use tx_lang_cxx.Parser.Variables.{Resolved, resolve_local, add_upvalue, resolve_upvalue, push_local}
use tx_lang_cxx.Parser.Globals.{initialize_back}
use tx_lang_cxx.Parser.Sound.Changes.{
  new_compiler-IsSound, push_local-IsSound, initialize_back-IsSound,
}
use tx_lang_cxx.Parser.Sound.Resolve.{AllSound}
use tx_lang_cxx.Parser.Leads.{Leads, resolve_upvalue-Leads}

abbrev inner : Compiler ℕ
inner = new_compiler FunctionType.function none

abbrev outer : Compiler ℕ
outer =
    initialize_back (push_local (b'x' ∷ []) false no_types (new_compiler FunctionType.script none))

abbrev compilers : List (Compiler ℕ)
compilers = inner ∷ inner ∷ outer ∷ []

abbrev answer : Option (Resolved ℕ (Option (ℕ × Local))) → Resolved ℕ (Option (ℕ × Local))
answer none = record { result = none; compilers = []; too_many = true }
answer (some r) = r

abbrev resolved : Resolved ℕ (Option (ℕ × Local))
resolved = answer (resolve_upvalue (b'x' ∷ []) compilers)

abbrev x : Local
x = record {
  name = b'x' ∷ [];
  depth = some 0;
  is_captured = false;
  is_const = false;
  type_set = no_types;
}

resolve_x :
    (resolve_upvalue (b'x' ∷ []) compilers ≡ some resolved)
    × (resolved.result ≡ some (0, x))
    × (resolved.too_many ≡ false)
unfolding resolve_upvalue resolve_local add_upvalue push_local initialize_back
resolve_x = (refl, refl, refl)

compilers-AllSound : AllSound compilers
compilers-AllSound =
    let empty = new_compiler-IsSound FunctionType.function none in
    let script = new_compiler-IsSound FunctionType.script none in
    let declared =
      push_local-IsSound (b'x' ∷ []) false no_types (new_compiler FunctionType.script none) refl
        script in
    (empty, (empty, (initialize_back-IsSound _ declared, tt)))

resolve_upvalue-Leads_example : Leads (b'x' ∷ []) resolved.compilers 0
resolve_upvalue-Leads_example =
    resolve_upvalue-Leads (b'x' ∷ []) compilers resolved 0 x compilers-AllSound resolve_x.0
      resolve_x.1 resolve_x.2

-- a local of a scope inside, in front of `x`
abbrev scoped : List Local
scoped = record x { depth = some 1 } ∷ x ∷ []

pop_locals_lem_example :
    let (count, rest) = pop_locals 0 scoped in
    ((i : ℕ) (local : Local)
      → i < count
      → get_elem? scoped i ≡ some local
      → (d : ℕ) × (local.depth ≡ some d) × (0 < d))
    × ((i : ℕ) → get_elem? rest i ≡ get_elem? scoped (count + i))
    × (2 ≡ count + length rest)
    × ((local : Local) (d : ℕ) → get_elem? rest 0 ≡ some local → local.depth ≡ some d → d ≤ 0)
pop_locals_lem_example = pop_locals_lem 0 scoped
