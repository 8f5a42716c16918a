-- ===== src/Utf8/RoundTrip.antt =====
-- What the encoder of src/utf8.c writes is what its decoder reads.
use jamiga_jamvm.Base.{
  ℕ, zero, suc, ◌+◌, ◌*◌, ◌%◌, ◌^◌, ◌<◌, ◌≡◌, ◌↔◌, refl, ap₂, ◌∙◌, Bool, true, false, arith, ltb,
  ◌==◌, if◌then◌else◌, ◌&&◌, ◌||◌, List, [], ◌∷◌, ◌++◌, some, length, All, append_assoc,
  length-append,
}
use jamiga_jamvm.Utf8.Chars.{
  utf8_len_from, utf8_len, convert_utf8_from, convert_utf8, utf8_hash_from, utf8_hash,
  utf8_comp_from, utf8_comp,
}
use jamiga_jamvm.Utf8.Encode.{utf8_char_len, char_bytes, unicode_bytes, unicode2utf8}
use jamiga_jamvm.Utf8.Decode.{
  Decodes, char_bytes-Decodes, utf8_len-step, convert_utf8-step, utf8_hash-step, utf8_comp-step,
  utf8_comp-left, utf8_comp-right,
}

-- The elements of a Java string are 16-bit numbers.
abbrev pub IsUnicode : List ℕ → Type 0
IsUnicode cs = All (λ c. c < 2 ^ 16) cs

-- The memory of an encoded string, with what follows it.
abbrev bytes_in : List ℕ → List ℕ → List ℕ
bytes_in cs junk = unicode_bytes cs ++ 0 ∷ junk

bytes_in-cons :
    (c : ℕ) (cs junk : List ℕ) → bytes_in (c ∷ cs) junk ≡ char_bytes c ++ bytes_in cs junk
unfolding unicode_bytes
bytes_in-cons c cs junk = append_assoc (char_bytes c) (unicode_bytes cs) (0 ∷ junk)

bytes_in-Decodes :
    (c : ℕ) (cs junk : List ℕ) → c < 2 ^ 16 → Decodes c (bytes_in cs junk) (bytes_in (c ∷ cs) junk)
bytes_in-Decodes c cs junk w =
    rw (bytes_in-cons c cs junk) (char_bytes-Decodes c (bytes_in cs junk) w)

pub lt_zero : {n : ℕ} → n < 0 → ⊥
lt_zero h = omega (arith, h)

utf8_len_lem :
    (fuel : ℕ) (cs junk : List ℕ)
    → IsUnicode cs
    → length cs < fuel
    → utf8_len_from fuel (bytes_in cs junk) ≡ some (length cs)
unfolding utf8_len_from unicode_bytes
utf8_len_lem zero cs junk u f = absurd (lt_zero f)
utf8_len_lem (suc fuel) [] junk u f = refl
utf8_len_lem (suc fuel) (c ∷ cs) junk u f =
    rw
      (
        utf8_len-step fuel c (bytes_in cs junk) _ (bytes_in-Decodes c cs junk u.0),
        utf8_len_lem fuel cs junk u.1 (omega arith),
      )
      refl

convert_utf8_lem :
    (fuel : ℕ) (cs junk : List ℕ)
    → IsUnicode cs
    → length cs < fuel
    → convert_utf8_from fuel (bytes_in cs junk) ≡ some cs
unfolding convert_utf8_from unicode_bytes
convert_utf8_lem zero cs junk u f = absurd (lt_zero f)
convert_utf8_lem (suc fuel) [] junk u f = refl
convert_utf8_lem (suc fuel) (c ∷ cs) junk u f =
    let e : c % 2 ^ 16 ≡ c = ground (arith, u.0) in
    rw
      (
        convert_utf8-step fuel c (bytes_in cs junk) _ (bytes_in-Decodes c cs junk u.0),
        convert_utf8_lem fuel cs junk u.1 (omega arith),
        e,
      )
      refl

-- The hash of the characters, as String.hashCode has it but with the factor 37.
abbrev pub hash_of : ℕ → List ℕ → ℕ
hash_of hash [] = hash
hash_of hash (c ∷ cs) = hash_of ((hash * 37 + c) % 2 ^ 32) cs

utf8_hash_lem :
    (fuel hash : ℕ) (cs junk : List ℕ)
    → IsUnicode cs
    → length cs < fuel
    → utf8_hash_from fuel hash (bytes_in cs junk) ≡ some (hash_of hash cs)
unfolding utf8_hash_from unicode_bytes
utf8_hash_lem zero hash cs junk u f = absurd (lt_zero f)
utf8_hash_lem (suc fuel) hash [] junk u f = refl
utf8_hash_lem (suc fuel) hash (c ∷ cs) junk u f =
    let e : c % 2 ^ 16 ≡ c = ground (arith, u.0) in
    rw
      (
        utf8_hash-step fuel c (bytes_in cs junk) _ (bytes_in-Decodes c cs junk u.0) hash,
        e,
        utf8_hash_lem fuel ((hash * 37 + c) % 2 ^ 32) cs junk u.1 (omega arith),
      )
      refl

-- Whether two strings have the same characters.
abbrev pub is_same : List ℕ → List ℕ → Bool
is_same [] [] = true
is_same (c ∷ cs) (d ∷ ds) = c == d && is_same cs ds
is_same _ _ = false

is_same_iff : (cs ds : List ℕ) → (is_same cs ds ≡ true) ↔ (cs ≡ ds)
is_same_iff [] [] = ground arith
is_same_iff [] (d ∷ ds) = ground arith
is_same_iff (c ∷ cs) [] = ground arith
is_same_iff (c ∷ cs) (d ∷ ds) = ground (arith, is_same_iff cs ds)

utf8_comp_lem :
    (fuel : ℕ) (cs ds junk junk' : List ℕ)
    → IsUnicode cs
    → IsUnicode ds
    → length cs < fuel
    → utf8_comp_from fuel (bytes_in cs junk) (bytes_in ds junk') ≡ some (is_same cs ds)
unfolding utf8_comp_from unicode_bytes
utf8_comp_lem zero cs ds junk junk' u v f = absurd (lt_zero f)
utf8_comp_lem (suc fuel) [] [] junk junk' u v f = refl
utf8_comp_lem (suc fuel) [] (d ∷ ds) junk junk' u v f =
    utf8_comp-right fuel d (bytes_in ds junk') _ (bytes_in-Decodes d ds junk' v.0) junk
utf8_comp_lem (suc fuel) (c ∷ cs) [] junk junk' u v f =
    utf8_comp-left fuel c (bytes_in cs junk) _ (bytes_in-Decodes c cs junk u.0) junk'
utf8_comp_lem (suc fuel) (c ∷ cs) (d ∷ ds) junk junk' u v f =
    let e : c % 2 ^ 16 ≡ c = ground (arith, u.0) in
    let e' : d % 2 ^ 16 ≡ d = ground (arith, v.0) in
    rw
      (
        utf8_comp-step fuel c (bytes_in cs junk) _ (bytes_in-Decodes c cs junk u.0) d
            (bytes_in ds junk') _ (bytes_in-Decodes d ds junk' v.0),
        utf8_comp_lem fuel cs ds junk junk' u.1 v.1 (omega arith),
        e,
        e',
      )
      (ground arith)

-- The memory of an encoded string, as unicode2Utf8 writes it, before other memory.
in_memory : (cs junk : List ℕ) → unicode2utf8 cs ++ junk ≡ bytes_in cs junk
in_memory cs junk = append_assoc (unicode_bytes cs) (0 ∷ []) junk

char_bytes-length :
    (c : ℕ)
    → length (char_bytes c) ≡ (if c == 0 || ltb 0x7f c then if ltb 0x7ff c then 3 else 2 else 1)
char_bytes-length c = ground arith

length-unicode_bytes : (cs : List ℕ) → length (unicode_bytes cs) ≡ utf8_char_len cs
unfolding unicode_bytes utf8_char_len
length-unicode_bytes [] = refl
length-unicode_bytes (c ∷ cs) =
    length-append (char_bytes c) (unicode_bytes cs)
    ∙ ap₂ (λ m n. m + n) (char_bytes-length c) (length-unicode_bytes cs)

length-lt : (cs junk : List ℕ) → length cs < length (bytes_in cs junk)
unfolding unicode_bytes
length-lt [] junk = omega arith
length-lt (c ∷ cs) junk =
    let l = length-append (char_bytes c) (bytes_in cs junk) in
    let n = char_bytes-length c in
    rw (bytes_in-cons c cs junk) (ground (arith, l, n, length-lt cs junk))

-- Encoding and decoding a Java string gives it back, whatever memory follows.
pub convert_utf8-unicode2utf8 :
    (cs junk : List ℕ) → IsUnicode cs → convert_utf8 (unicode2utf8 cs ++ junk) ≡ some cs
convert_utf8-unicode2utf8 cs junk u =
    rw (in_memory cs junk) (convert_utf8_lem _ cs junk u (length-lt cs junk))

-- utf8Len counts the characters of an encoded string, and utf8CharLen its bytes without the terminator.
pub utf8_len-unicode2utf8 :
    (cs junk : List ℕ)
    → IsUnicode cs
    → (utf8_len (unicode2utf8 cs ++ junk) ≡ some (length cs))
      × (length (unicode2utf8 cs) ≡ utf8_char_len cs + 1)
utf8_len-unicode2utf8 cs junk u = (
  rw (in_memory cs junk) (utf8_len_lem _ cs junk u (length-lt cs junk)),
  rw (length-append (unicode_bytes cs) (0 ∷ []), length-unicode_bytes cs) refl,
)

-- utf8Comp tells equal strings from different ones, and equal ones have the same utf8Hash.
pub utf8_comp-unicode2utf8 :
    (cs ds junk junk' : List ℕ)
    → IsUnicode cs
    → IsUnicode ds
    → (utf8_comp (unicode2utf8 cs ++ junk) (unicode2utf8 ds ++ junk') ≡ some (is_same cs ds))
      × ((is_same cs ds ≡ true) ↔ (cs ≡ ds))
      × (utf8_hash (unicode2utf8 cs ++ junk) ≡ some (hash_of 0 cs))
utf8_comp-unicode2utf8 cs ds junk junk' u v = (
  rw (in_memory cs junk, in_memory ds junk')
      (utf8_comp_lem _ cs ds junk junk' u v (length-lt cs junk)),
  is_same_iff cs ds,
  rw (in_memory cs junk) (utf8_hash_lem _ 0 cs junk u (length-lt cs junk)),
)
