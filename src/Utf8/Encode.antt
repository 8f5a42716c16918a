-- ===== src/Utf8/Encode.antt =====
-- The encoder of src/utf8.c.
use jamiga_jamvm.Base.{ℕ, ◌+◌, ◌/◌, ◌%◌, ◌^◌, ltb, ◌==◌, if◌then◌else◌, ◌||◌, List, [], ◌∷◌, ◌++◌}

-- utf8CharLen, of a `unicode` with `len` elements.
unfoldable pub utf8_char_len : List ℕ → ℕ
utf8_char_len [] = 0
utf8_char_len (c ∷ cs) =
    (if c == 0 || ltb 0x7f c then if ltb 0x7ff c then 3 else 2 else 1) + utf8_char_len cs

-- The bytes of one character. The bits that each `|` sets are clear before.
abbrev pub char_bytes : ℕ → List ℕ
char_bytes c =
    if c == 0 || ltb 0x7f c
    then if ltb 0x7ff c
      then (c / 2 ^ 12 + 0xe0) ∷ (c / 2 ^ 6 % 2 ^ 6 + 0x80) ∷ (c % 2 ^ 6 + 0x80) ∷ []
      else (c / 2 ^ 6 + 0xc0) ∷ (c % 2 ^ 6 + 0x80) ∷ []
    else c ∷ []

-- The loop of unicode2Utf8.
unfoldable pub unicode_bytes : List ℕ → List ℕ
unicode_bytes [] = []
unicode_bytes (c ∷ cs) = char_bytes c ++ unicode_bytes cs

-- unicode2Utf8: what is written to `utf8`.
abbrev pub unicode2utf8 : List ℕ → List ℕ
unicode2utf8 cs = unicode_bytes cs ++ 0 ∷ []
