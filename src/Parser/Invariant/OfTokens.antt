-- ===== src/Parser/Invariant/OfTokens.antt =====
-- The operations on tokens keep an invariant.
use Prim.Native.String.{String}
use tx_lang_cxx.Prelude.{ℕ, zero, suc, Bool}
use tx_lang_cxx.TokenType.{TokenType}
use tx_lang_cxx.Scanner.State.{Token}
use tx_lang_cxx.Parser.State.{Machine, Parser}
use tx_lang_cxx.Parser.Tokens.{
  error_at, error, error_at_current, check, set_cut_short, shift, leave_panic_mode, help_cut_short,
  scan, advance_loop, advance, match, consume, synchronize_loop, synchronize,
}
use tx_lang_cxx.Parser.Keeps.{Keeps, keeps_rules}
use tx_lang_cxx.Parser.Invariant.{Invariant}

module _ {F : Type 0} {machine : Machine F} {P : Parser F → Type 0}
    (inv : Invariant machine P) where
  pub error_at-Keeps : (token : Token F) (message : String) → Keeps P (error_at token message)
  error_at-Keeps = inv.on_error

  pub set_cut_short-Keeps : (flag : Parser F → Bool) → Keeps P (set_cut_short flag)
  set_cut_short-Keeps = inv.on_flag

  pub leave_panic_mode-Keeps : Keeps P (leave_panic_mode)
  leave_panic_mode-Keeps = inv.on_calm

  pub shift-Keeps : Keeps P (shift)
  shift-Keeps = inv.on_shift

  pub scan-Keeps : Keeps P (scan machine)
  scan-Keeps = inv.on_scan

  pub ruleset token_steps = (
    keeps_rules, error_at-Keeps, set_cut_short-Keeps, leave_panic_mode-Keeps, shift-Keeps,
    scan-Keeps,
  )

  pub error-Keeps : (message : String) → Keeps P (error message)
  unfolding error
  error-Keeps message = search token_steps depth 30

  pub error_at_current-Keeps : (message : String) → Keeps P (error_at_current message)
  unfolding error_at_current
  error_at_current-Keeps message = search token_steps depth 30

  pub check-Keeps : (type : TokenType) → Keeps P (check type)
  unfolding check
  check-Keeps type = search token_steps depth 30

  pub help_cut_short-Keeps : Keeps P help_cut_short
  unfolding help_cut_short
  help_cut_short-Keeps = search token_steps depth 30

  pub ruleset error_steps =
      (token_steps, error-Keeps, error_at_current-Keeps, check-Keeps, help_cut_short-Keeps)

  pub advance_loop-Keeps : (fuel : ℕ) → Keeps P (advance_loop machine fuel)
  unfolding advance_loop
  advance_loop-Keeps zero = search error_steps depth 30
  advance_loop-Keeps (suc fuel) = let rest = advance_loop-Keeps fuel in search error_steps depth 30

  pub advance-Keeps : Keeps P (advance machine)
  unfolding advance
  advance-Keeps = search (error_steps, advance_loop-Keeps) depth 30

  pub match-Keeps : (type : TokenType) → Keeps P (match machine type)
  unfolding match
  match-Keeps type = search (error_steps, advance-Keeps) depth 30

  pub consume-Keeps : (type : TokenType) (message : String) → Keeps P (consume machine type message)
  unfolding consume
  consume-Keeps type message = search (error_steps, match-Keeps) depth 30

  pub synchronize_loop-Keeps : (fuel : ℕ) → Keeps P (synchronize_loop machine fuel)
  unfolding synchronize_loop
  synchronize_loop-Keeps zero = search (error_steps, advance-Keeps) depth 30
  synchronize_loop-Keeps (suc fuel) =
      let rest = synchronize_loop-Keeps fuel in search (error_steps, advance-Keeps) depth 30

  pub synchronize-Keeps : Keeps P (synchronize machine)
  unfolding synchronize
  synchronize-Keeps = search (error_steps, synchronize_loop-Keeps) depth 30

  pub ruleset token_rules =
      (error_steps, advance-Keeps, match-Keeps, consume-Keeps, synchronize-Keeps)
