-- ===== src/Scanner/Stuck.antt =====
-- Where `Scanner::string` does not end.
use tx_lang_cxx.Prelude.{ℕ, zero, suc, ◌≡◌, false, refl, List, [], arith}
use tx_lang_cxx.Scanner.State.{Scanner, stuck, is_at_end, peek, fuel_of}
use tx_lang_cxx.Scanner.Text.{string_loop, string}

not_at_end : (s : Scanner) → peek s ≡ b'\r' → is_at_end s ≡ false
unfolding peek
not_at_end s e = ground arith

module _ {F : Type 0} where
  string_loop_return :
      (fuel : ℕ) (text : List ℕ) (s : Scanner)
      → peek s ≡ b'\r'
      → string_loop {F = F} fuel text s ≡ stuck
  unfolding string_loop
  string_loop_return zero text s e = refl
  string_loop_return (suc fuel) text s e =
      let rest = string_loop_return fuel text s e in ground (arith, not_at_end s e)

  -- The loop of a string literal that meets a carriage return stays there, whatever the number of
  -- rounds: the scanner returns neither a token nor an error.
  pub string-stuck :
      (fuel : ℕ) (text : List ℕ) (s : Scanner)
      → peek s ≡ b'\r'
      → (string_loop {F = F} fuel text s ≡ stuck) × (string {F = F} s ≡ stuck)
  unfolding string
  string-stuck fuel text s e =
      (string_loop_return fuel text s e, string_loop_return (fuel_of s) [] s e)
