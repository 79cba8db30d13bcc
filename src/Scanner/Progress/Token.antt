-- ===== src/Scanner/Progress/Token.antt =====
-- Every call of `scan_token` ends, and moves the scanner on.
use tx_lang_cxx.Prelude.{◌≤◌, ◌<◌, ◌≡◌, ◌⊎◌, length}
use tx_lang_cxx.TokenType.{TokenType}
use tx_lang_cxx.Scanner.State.{Scanner, Token, slice}
use tx_lang_cxx.Scanner.Progress.{At}

-- What one call of `scan_token` does: the scanner is in order behind the token, which starts at or
-- behind where the call began, has the bytes up to where it stops, and its line. Only at the end of
-- the source does the scanner not pass a byte of a token.
pub record Scans (F : Type 0) (s : Scanner) (r : Token F × Scanner) : Type 0 where
  pub kept : At s.source r.1.start r.1.start r.1
  pub start_behind : s.current ≤ r.1.start
  pub lexeme : r.0.lexeme ≡ slice s.source r.1.start r.1.current
  pub line : r.0.line ≡ r.1.line
  pub progress :
      ((r.0.type ≡ TokenType.end_of_file) × (r.1.current ≡ length s.source))
      ⊎ (r.1.start < r.1.current)
