-- ===== src/Tests/Arrays.antt =====
-- Arrays and small functions.
use tx_lang_cxx.Prelude.{
  ℕ, ◌+◌, ◌-◌, ◌<◌, ◌≡◌, refl, some, [], ◌∷◌, ltb, ◌==◌, if◌then◌else◌, arith,
}
use tx_lang_cxx.DynArray.{DynArray, push_back, resize, erase}
use tx_lang_cxx.DynArray.Elements.{
  element, IsWithin, element-erase, element-push_back, element-resize,
}
use tx_lang_cxx.Utils.{count_digit, get_text_of_line, power_of_2_ceil_u32, murmur3_32}
use tx_lang_cxx.Utils.Digits.{HasDigits, count_digit_lem}

-- four elements in five cells
abbrev four : DynArray ℕ
four = record { count = 4; cells = 10 ∷ 11 ∷ 12 ∷ 13 ∷ 0 ∷ [] }

element-erase_example :
    let after = (erase 0 four 1 3).1 in
    (after.count + (3 - 1) ≡ four.count)
    × IsWithin 0 after
    × ((i : ℕ)
        → i < after.count
        → element 0 after i ≡ (if ltb i 1 then element 0 four i else element 0 four (i + (3 - 1))))
element-erase_example = element-erase 0 four 1 3 (omega arith) (omega arith) (omega arith)

element-push_back_example :
    let after = push_back 0 four 14 in
    (after.count ≡ four.count + 1)
    × IsWithin 0 after
    × ((i : ℕ)
        → i < after.count
        → element 0 after i ≡ (if i == four.count then 14 else element 0 four i))
element-push_back_example = element-push_back 0 four 14 (omega arith)

element-resize_example :
    let after = resize 0 four 7 9 in
    (after.count ≡ 7)
    × IsWithin 0 after
    × ((i : ℕ) → i < 7 → element 0 after i ≡ (if ltb i four.count then element 0 four i else 9))
element-resize_example = element-resize 0 four 7 9 (omega arith)

count_digit_lem_example : (d : ℕ) × (count_digit 1024 ≡ some d) × HasDigits 1024 d
count_digit_lem_example = count_digit_lem 1024

ceil_of_nine : power_of_2_ceil_u32 9 ≡ 16
unfolding power_of_2_ceil_u32
ceil_of_nine = refl

-- the published value for the four bytes of "test" with seed 0
murmur_of_test : murmur3_32 (b't' ∷ b'e' ∷ b's' ∷ b't' ∷ []) 0 ≡ 0xba6bd213
unfolding murmur3_32
murmur_of_test = refl

second_line : get_text_of_line (b'a' ∷ b'\n' ∷ b'b' ∷ b'c' ∷ b'\n' ∷ b'd' ∷ []) 2 ≡ b'b' ∷ b'c' ∷ []
unfolding get_text_of_line
second_line = refl
