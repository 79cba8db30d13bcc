-- ===== src/Parser/Keeps.antt =====
-- Invariants of the parser's actions: one rule for each way to build an action, and what an
-- invariant has to provide so that the whole grammar keeps it.
use tx_lang_cxx.Prelude.{Bool, true, false, Option, none, some, List, [], ◌∷◌, if◌then◌else◌}
use tx_lang_cxx.Scanner.State.{Outcome, ok, undefined, stuck}
use tx_lang_cxx.Parser.State.{
  Compiler, Parser, Action, pure, invalid, endless, gets, lift, with_compiler, update, ◌>>=◌,
  on_option, when, continue,
}

-- The invariant of the state that an action leaves, if it returns.
abbrev pub After : {F A : Type 0} → (Parser F → Type 0) → Outcome (A × Parser F) → Type 0
After P (ok (a, p)) = P p
After P undefined = Unit
After P stuck = Unit

pub record Keeps {F A : Type 0} (P : Parser F → Type 0) (m : Action F A) : Type 0 where
  pub at : (p : Parser F) → P p → After P (m p)

-- a step that reads a list keeps an invariant in both of its cases
with_head :
    {F A : Type 0} (P : Parser F → Type 0) (field : Compiler F → A) (p : Parser F)
    (cs : List (Compiler F))
    → P p
    → After P (elim cs as (λ _. Outcome (A × Parser F)) [
      | [] ↦ undefined
      | c ∷ enclosing ↦ ok (field c, p)
    ])
with_head P field p [] h = tt
with_head P field p (c ∷ enclosing) h = h

module _ {F A : Type 0} {P : Parser F → Type 0} where
  pub Keeps-pure : (a : A) → Keeps P (pure a)
  unfolding pure
  Keeps-pure a = record { at = λ p h. h }

  pub Keeps-invalid : Keeps P (invalid {A = A})
  unfolding invalid
  Keeps-invalid = record { at = λ p h. tt }

  pub Keeps-endless : Keeps P (endless {A = A})
  unfolding endless
  Keeps-endless = record { at = λ p h. tt }

  pub Keeps-gets : (field : Parser F → A) → Keeps P (gets field)
  unfolding gets
  Keeps-gets field = record { at = λ p h. h }

  pub Keeps-lift : (o : Option A) → Keeps P (lift o)
  unfolding lift
  Keeps-lift none = Keeps-invalid
  Keeps-lift (some a) = Keeps-pure a

  pub Keeps-with_compiler : (field : Compiler F → A) → Keeps P (with_compiler field)
  unfolding with_compiler
  Keeps-with_compiler field = record { at = λ p h. with_head P field p p.compilers h }

  pub Keeps-if :
      (b : Bool) (m n : Action F A) → Keeps P m → Keeps P n → Keeps P (if b then m else n)
  Keeps-if true m n km kn = km
  Keeps-if false m n km kn = kn

module _ {F A B : Type 0} {P : Parser F → Type 0} where
  pub Keeps-on_option :
      (o : Option A) (m : Action F B) (f : A → Action F B)
      → Keeps P m
      → ((a : A) → Keeps P (f a))
      → Keeps P (on_option o m f)
  Keeps-on_option none m f km kf = km
  Keeps-on_option (some a) m f km kf = kf a

  After-continue :
      (o : Outcome (A × Parser F)) (f : A → Action F B)
      → After P o
      → ((a : A) → Keeps P (f a))
      → After P (continue f o)
  After-continue (ok (a, p)) f h kf = (kf a).at p h
  After-continue undefined f h kf = tt
  After-continue stuck f h kf = tt

  pub Keeps-bind :
      (m : Action F A) (f : A → Action F B)
      → Keeps P m
      → ((a : A) → Keeps P (f a))
      → Keeps P (m >>= f)
  unfolding ◌>>=◌
  Keeps-bind m f km kf = record { at = λ p h. After-continue (m p) f (km.at p h) kf }

module _ {F : Type 0} {P : Parser F → Type 0} where
  pub Keeps-update :
      (change : Parser F → Parser F)
      → ((p : Parser F) → P p → P (change p))
      → Keeps P (update change)
  unfolding update
  Keeps-update change h = record { at = h }

module _ {F : Type 0} {P : Parser F → Type 0} where
  pub Keeps-when : (b : Bool) (m : Action F (Unit {0})) → Keeps P m → Keeps P (when b m)
  Keeps-when true m km = km
  Keeps-when false m km = Keeps-pure tt

pub ruleset keeps_rules = (
  Keeps-pure, Keeps-invalid, Keeps-endless, Keeps-gets, Keeps-lift, Keeps-with_compiler, Keeps-if,
  Keeps-on_option, Keeps-when, Keeps-bind,
)
