-- ===== src/Parser/State.antt =====
-- The state of the class `Parser` of tx-runtime/include/tx/compiler.hxx with the records it uses, and
-- the actions on it. The stack of compilers, linked by `enclosing`, is a list whose head is
-- `current_compiler`; so is that of loops. The parts of the class `VM` that the parser changes stand
-- in the same record. An object's address is its index in `objects`; a function becomes an object
-- when its compiler ends. The hash maps are lists of their entries.
use Prim.Native.String.{String}
use tx_lang_cxx.Prelude.{true, false, ℕ, Bool, Option, none, some, List, [], ◌∷◌}
use tx_lang_cxx.Prelude.Int.{ℤ}
use tx_lang_cxx.Value.{Value}
use tx_lang_cxx.Chunk.{Chunk}
use tx_lang_cxx.TypeInfo.{TypeSet, TypeSetArray}
use tx_lang_cxx.Scanner.State.{Scanner, Token, FromChars, Outcome, ok, undefined, stuck}

-- The operations on floating point numbers that the compiler relies on.
pub record Machine (F : Type 0) : Type 0 where
  pub float_equal : F → F → Bool
  pub parse_float : List ℕ → FromChars F

-- `name` is the lexeme of the token; the depth `none` is the -1 of a local not yet initialized.
pub record Local : Type 0 where
  pub name : List ℕ
  pub depth : Option ℕ
  pub is_captured : Bool
  pub is_const : Bool
  pub type_set : TypeSet

pub record Global : Type 0 where
  pub is_defined : Bool
  pub is_const : Bool
  pub type_set : TypeSet

pub record Loop : Type 0 where
  pub start : ℕ
  pub scope_depth : ℕ
  pub is_loop_expr : Bool
  pub type_set : TypeSet

pub record Upvalue : Type 0 where
  pub index : ℕ
  pub is_local : Bool

pub data FunctionType : Type 0 where
  function script : FunctionType

pub record ObjFunction (F : Type 0) : Type 0 where
  pub arity : ℕ
  pub upvalue_count : ℕ
  pub max_slots : ℕ
  pub chunk : Chunk F
  pub name : Option (List ℕ)

pub record TypeInfoFunction : Type 0 where
  pub parameter_types : TypeSetArray
  pub return_type : TypeSet

-- The head of `locals` is the back of the array; `upvalues` stand in the array's order.
pub record Compiler (F : Type 0) : Type 0 where
  pub obj_function : ObjFunction F
  pub type_info : TypeInfoFunction
  pub function_type : FunctionType
  pub constant_indices : List (Value F × ℕ)
  pub locals : List Local
  pub upvalues : List Upvalue
  pub scope_depth : ℕ
  pub num_slots : ℤ
  pub loops : List Loop

pub data Object (F : Type 0) : Type 0 where
  obj_string : List ℕ → Object F
  obj_function : ObjFunction F → Object F

-- An error that was reported: the token it is about, and the message's format.
pub record Diagnostic (F : Type 0) : Type 0 where
  pub token : Token F
  pub message : String

pub record VmOptions : Type 0 where
  pub allow_global_redefinition : Bool
  pub allow_end_compile_with_undefined_global : Bool

pub record Parser (F : Type 0) : Type 0 where
  pub scanner : Scanner
  pub current : Token F
  pub previous : Token F
  pub had_error : Bool
  pub panic_mode : Bool
  pub previous_statement_was_cut_short : Bool
  pub compilers : List (Compiler F)
  pub options : VmOptions
  pub objects : List (Object F)
  pub global_indices : List (Value F × ℕ)
  pub global_values : List (Value F)
  pub global_signatures : List Global
  pub diagnostics : List (Diagnostic F)

abbrev pub max_locals : ℕ
max_locals = 16777216

abbrev pub max_upvalues : ℕ
max_upvalues = 16777216

abbrev pub max_fn_parameters : ℕ
max_fn_parameters = 255

-- What a method of the parser does. `undefined` stands for a failed assertion, a null pointer and
-- an access out of bounds, `stuck` for a loop without end or fuel that ran out.
abbrev pub Action : Type 0 → Type 0 → Type 0
Action F A = Parser F → Outcome (A × Parser F)

module _ {F A : Type 0} where
  unfoldable pub pure : A → Action F A
  pure a p = ok (a, p)

  unfoldable pub invalid : Action F A
  invalid p = undefined

  unfoldable pub endless : Action F A
  endless p = stuck

  unfoldable pub gets : (Parser F → A) → Action F A
  gets field p = ok (field p, p)

  -- a result that is missing only if an assertion fails
  unfoldable pub lift : Option A → Action F A
  unfolding pure invalid
  lift none = invalid
  lift (some a) = pure a

  -- `current_compiler`, with a value computed from it
  unfoldable pub with_compiler : (Compiler F → A) → Action F A
  unfolding pure invalid
  with_compiler field p = elim p.compilers [ [] ↦ undefined | c ∷ enclosing ↦ ok (field c, p) ]

unfoldable pub update : {F : Type 0} → (Parser F → Parser F) → Action F (Unit {0})
update change p = ok (tt, change p)

-- an update of `*current_compiler`
unfoldable pub update_compiler : {F : Type 0} → (Compiler F → Compiler F) → Action F (Unit {0})
update_compiler change p = elim p.compilers [
  | [] ↦ undefined
  | c ∷ enclosing ↦ ok (tt, record p { compilers = change c ∷ enclosing })
]

abbrev pub continue :
    {F A B : Type 0} → (A → Action F B) → Outcome (A × Parser F) → Outcome (B × Parser F)
continue f (ok (a, p)) = f a p
continue f undefined = undefined
continue f stuck = stuck

infixl 5 ◌>>=◌ ◌>>◌
unfoldable pub ◌>>=◌ : {F A B : Type 0} → Action F A → (A → Action F B) → Action F B
◌>>=◌ m f p = continue f (m p)

abbrev pub ◌>>◌ : {F B : Type 0} → Action F (Unit {0}) → Action F B → Action F B
m >> n = m >>= λ _. n

-- the two cases of a result that may be missing
abbrev pub on_option {ℓ κ} : {A : Type ℓ} {B : Type κ} → Option A → B → (A → B) → B
on_option none m f = m
on_option (some a) m f = f a

abbrev pub when : {F : Type 0} → Bool → Action F (Unit {0}) → Action F (Unit {0})
when true m = m
when false m = pure tt

module _ {F : Type 0} where
  abbrev pub set_chunk : Chunk F → Compiler F → Compiler F
  set_chunk chunk c = record c { obj_function = record c.obj_function { chunk = chunk } }
