-- ===== src/Utf8/Tests.antt =====
-- The theorems on src/utf8.c for short strings with characters of one, two and three bytes.
use jamiga_jamvm.Base.{ℕ, ◌≡◌, refl, arith, List, [], ◌∷◌, ◌++◌, none, some}
use jamiga_jamvm.Utf8.Chars.{utf8_len, convert_utf8, utf8_hash}
use jamiga_jamvm.Utf8.Encode.{unicode2utf8}
use jamiga_jamvm.Utf8.RoundTrip.{IsUnicode, convert_utf8-unicode2utf8}
use jamiga_jamvm.Utf8.Overrun.{cut_off, utf8_overrun}
use jamiga_jamvm.Utf8.NameLaws.{IsText, HasNo}

abbrev text : List ℕ
text = 0x41 ∷ 0 ∷ 0xe9 ∷ 0x20ac ∷ []

text-IsUnicode : IsUnicode text
text-IsUnicode = omega arith

abbrev other : List ℕ
other = 0x41 ∷ 0x42 ∷ []

other-IsUnicode : IsUnicode other
other-IsUnicode = omega arith

convert_utf8-unicode2utf8_example : convert_utf8 (unicode2utf8 text ++ 7 ∷ []) ≡ some text
convert_utf8-unicode2utf8_example = convert_utf8-unicode2utf8 text (7 ∷ []) text-IsUnicode

utf8_overrun_example :
    let p = cut_off 0xe2 text in
    (utf8_len p ≡ none) × (convert_utf8 p ≡ none) × (utf8_hash p ≡ none)
utf8_overrun_example = utf8_overrun 0xe2 text text-IsUnicode refl refl

-- "a/bc"
abbrev name : List ℕ
name = 0x61 ∷ 0x2f ∷ 0x62 ∷ 0x63 ∷ []

name-IsText : IsText name
name-IsText = omega arith

name-HasNo : HasNo 0x2e name
name-HasNo = omega arith
