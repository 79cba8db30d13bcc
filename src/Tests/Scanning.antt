-- ===== src/Tests/Scanning.antt =====
-- The scanner.
use tx_lang_cxx.Prelude.{ℕ, ◌≡◌, ◌↔◌, refl, none, some, List, [], ◌∷◌, length}
use tx_lang_cxx.TokenType
use tx_lang_cxx.Scanner.State
use tx_lang_cxx.Scanner.State.{Scanner, Token, FromChars, Outcome, stuck, peek, is_at_end}
use tx_lang_cxx.Scanner.Keyword.{identifier_type}
use tx_lang_cxx.Scanner.Keyword.Table.{spelling, identifier_type_lem}
use tx_lang_cxx.Scanner.Text.{string_loop, string}
use tx_lang_cxx.Scanner.Stuck.{string-stuck}

abbrev while_word : List ℕ
while_word = b'w' ∷ b'h' ∷ b'i' ∷ b'l' ∷ b'e' ∷ []

identifier_type_lem_example :
    (identifier_type while_word ≡ TokenType.while_kw)
    ↔ (spelling TokenType.while_kw ≡ some while_word)
identifier_type_lem_example = identifier_type_lem while_word TokenType.while_kw (λ e. cc)

-- a newline and a number
abbrev source : List ℕ
source = b'\n' ∷ b'1' ∷ b'.' ∷ b'5' ∷ []

-- a conversion that reads every text, and has no value
abbrev no_float : List ℕ → FromChars ℕ
no_float text = record { ptr = length text; value = none }

abbrev at_return : Scanner
at_return = State.new (b'\r' ∷ b'"' ∷ [])

at_return-peek : peek at_return ≡ b'\r'
unfolding peek is_at_end
at_return-peek = refl

string-stuck_example :
    (string_loop {F = ℕ} 100 (b'a' ∷ []) at_return ≡ stuck) × (string {F = ℕ} at_return ≡ stuck)
string-stuck_example = string-stuck 100 (b'a' ∷ []) at_return at_return-peek
