-- ===== src/Parser/Invariant/OfCompile.antt =====
-- `compile` keeps an invariant.
use tx_lang_cxx.Prelude.{ℕ, zero, suc, List}
use tx_lang_cxx.Parser.State.{Machine, Parser}
use tx_lang_cxx.Parser.Grammar.{statement, statement_or_expression}
use tx_lang_cxx.Parser.Compile.{set_source, statements, compile}
use tx_lang_cxx.Parser.Keeps.{Keeps, keeps_rules}
use tx_lang_cxx.Parser.Invariant.{Invariant}
use tx_lang_cxx.Parser.Invariant.OfTypes.{step_rules}
use tx_lang_cxx.Parser.Invariant.OfSteps.{check_globals-Keeps}
use tx_lang_cxx.Parser.Invariant.Statements.{end_expression-Keeps}
use tx_lang_cxx.Parser.Invariant.OfGrammar.{grammar-Keep}

module _ {F : Type 0} {machine : Machine F} {P : Parser F → Type 0}
    (inv : Invariant machine P) where
  set_source-Keeps : (source : List ℕ) → Keeps P (set_source source)
  set_source-Keeps = inv.on_source

  statement_or_expression-Keeps : (fuel : ℕ) → Keeps P (statement_or_expression machine fuel)
  statement_or_expression-Keeps fuel = (grammar-Keep inv fuel).of_statement_or_expression

  statement-Keeps : (fuel : ℕ) → Keeps P (statement machine fuel)
  unfolding statement
  statement-Keeps fuel =
      search (step_rules, end_expression-Keeps, statement_or_expression-Keeps) depth 30

  pub statements-Keeps : (fuel : ℕ) → Keeps P (statements machine fuel)
  unfolding statements
  statements-Keeps zero = search keeps_rules
  statements-Keeps (suc fuel) =
      let rest = statements-Keeps fuel in search (step_rules, statement-Keeps) depth 30

  -- Whatever each step of the parser keeps, `compile` keeps.
  pub compile-Keeps : (fuel : ℕ) (source : List ℕ) → Keeps P (compile machine fuel source)
  unfolding compile
  compile-Keeps fuel source =
      search (step_rules, set_source-Keeps, statements-Keeps, check_globals-Keeps) depth 40
