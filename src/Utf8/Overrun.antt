-- ===== src/Utf8/Overrun.antt =====
-- The decoder of src/utf8.c on a string that is cut off within a character.
use jamiga_jamvm.Base.{
  ℕ, zero, suc, ◌+◌, ◌*◌, ◌%◌, ◌^◌, ◌<◌, ◌≡◌, refl, ap, ◌∙◌, true, false, arith, bit, ◌==◌, List,
  [], ◌∷◌, ◌++◌, none, some, length, ◌>>=◌, append_assoc,
}
use jamiga_jamvm.Utf8.Chars.{
  get_utf8_char, advance, utf8_len_from, utf8_len, convert_utf8_from, convert_utf8, utf8_hash_from,
  utf8_hash,
}
use jamiga_jamvm.Utf8.Encode.{char_bytes, unicode_bytes}
use jamiga_jamvm.Utf8.Decode.{
  Decodes, char_bytes-Decodes, utf8_len-step, convert_utf8-step, utf8_hash-step,
}
use jamiga_jamvm.Utf8.RoundTrip.{IsUnicode}

-- The string ends within the character that `lead` starts; nothing follows its terminator.
abbrev pub cut_off : ℕ → List ℕ → List ℕ
cut_off lead cs = unicode_bytes cs ++ lead ∷ 0 ∷ []

cut_off-Decodes :
    (lead c : ℕ) (cs : List ℕ) → c < 2 ^ 16 → Decodes c (cut_off lead cs) (cut_off lead (c ∷ cs))
unfolding unicode_bytes
cut_off-Decodes lead c cs w =
    rw (append_assoc (char_bytes c) (unicode_bytes cs) (lead ∷ 0 ∷ []))
      (char_bytes-Decodes c (cut_off lead cs) w)

cut_off_now :
    (fuel hash lead : ℕ)
    → bit lead 7 ≡ true
    → bit lead 5 ≡ true
    → let p = lead ∷ 0 ∷ [] in
      (utf8_len_from (suc fuel) p ≡ none)
      × (convert_utf8_from (suc fuel) p ≡ none)
      × (utf8_hash_from (suc fuel) hash p ≡ none)
unfolding utf8_len_from convert_utf8_from utf8_hash_from advance get_utf8_char
cut_off_now fuel hash lead b d =
    let z : (lead == 0) ≡ false = ground arith in
    (rw (z, b, d) refl, rw (z, b, d) refl, rw (z, b, d) refl)

no_fuel :
    (hash : ℕ) (p : List ℕ)
    → (utf8_len_from 0 p ≡ none) × (convert_utf8_from 0 p ≡ none) × (utf8_hash_from 0 hash p ≡ none)
unfolding utf8_len_from convert_utf8_from utf8_hash_from
no_fuel hash p = (refl, refl, refl)

overrun_lem :
    (fuel hash lead : ℕ) (cs : List ℕ)
    → IsUnicode cs
    → bit lead 7 ≡ true
    → bit lead 5 ≡ true
    → let p = cut_off lead cs in
      (utf8_len_from fuel p ≡ none)
      × (convert_utf8_from fuel p ≡ none)
      × (utf8_hash_from fuel hash p ≡ none)
unfolding unicode_bytes
overrun_lem zero hash lead cs u b d = no_fuel hash (cut_off lead cs)
overrun_lem (suc fuel) hash lead [] u b d = cut_off_now fuel hash lead b d
overrun_lem (suc fuel) hash lead (c ∷ cs) u b d =
    let p = cut_off lead cs in
    let s = cut_off-Decodes lead c cs u.0 in
    let (len, converted, hashed) =
      overrun_lem fuel ((hash * 37 + c % 2 ^ 16) % 2 ^ 32) lead cs u.1 b d in
    (
      utf8_len-step fuel c p _ s ∙ ap (λ m. m >>= λ n. some (suc n)) len,
      convert_utf8-step fuel c p _ s ∙ ap (λ m. m >>= λ ds. some (c % 2 ^ 16 ∷ ds)) converted,
      utf8_hash-step fuel c p _ s hash ∙ hashed,
    )

-- Where the last byte of a string starts a character of three bytes, utf8Len, convertUtf8 and utf8Hash
-- step over the terminator and read beyond the memory that the string was allocated with.
pub utf8_overrun :
    (lead : ℕ) (cs : List ℕ)
    → IsUnicode cs
    → bit lead 7 ≡ true
    → bit lead 5 ≡ true
    → let p = cut_off lead cs in
      (utf8_len p ≡ none) × (convert_utf8 p ≡ none) × (utf8_hash p ≡ none)
utf8_overrun lead cs u b d = let n = length (cut_off lead cs) in overrun_lem n 0 lead cs u b d
