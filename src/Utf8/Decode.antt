-- ===== src/Utf8/Decode.antt =====
-- One character of src/utf8.c, encoded and decoded, and one round of each loop over a string.
use jamiga_jamvm.Base.{
  ℕ, suc, ◌+◌, ◌*◌, ◌/◌, ◌%◌, ◌^◌, ◌<◌, ◌≡◌, refl, true, false, arith, bit, ltb, ◌==◌,
  if◌then◌else◌, ◌||◌, List, ◌∷◌, ◌++◌, some, ◌>>=◌, Bool-cases, inl, inr,
}
use jamiga_jamvm.Utf8.Chars.{
  get_utf8_char, advance, utf8_len_from, convert_utf8_from, utf8_hash_from, utf8_comp_from,
}
use jamiga_jamvm.Utf8.Encode.{char_bytes}

-- The memory `p` starts with the bytes of the character `c`, and `r` follows.
pub record Decodes (c : ℕ) (r p : List ℕ) : Type 0 where
  pub lead : ℕ
  pub rest : List ℕ
  pub shape : p ≡ lead ∷ rest
  pub nonzero : (lead == 0) ≡ false
  pub got : get_utf8_char (lead ∷ rest) ≡ some (c, r)
  pub skipped :
      advance (if bit lead 7 then if bit lead 5 then 3 else 2 else 1) (lead ∷ rest) ≡ some r

one_byte : (c : ℕ) (r : List ℕ) → (c == 0 || ltb 0x7f c) ≡ false → Decodes c r (char_bytes c ++ r)
unfolding get_utf8_char advance
one_byte c r h =
    let b : bit c 7 ≡ false = ground arith in
    rw h (record {
      lead = c;
      rest = r;
      shape = refl;
      nonzero = ground arith;
      got = rw b refl;
      skipped = rw b refl;
    })

two_bytes :
    (c : ℕ) (r : List ℕ)
    → (c == 0 || ltb 0x7f c) ≡ true
    → ltb 0x7ff c ≡ false
    → Decodes c r (char_bytes c ++ r)
unfolding get_utf8_char advance
two_bytes c r h k =
    let x = c / 2 ^ 6 + 0xc0 in
    let b : bit x 7 ≡ true = ground arith in
    let d : bit x 5 ≡ false = ground arith in
    let e : x % 2 ^ 5 * 2 ^ 6 + (c % 2 ^ 6 + 0x80) % 2 ^ 6 ≡ c = ground arith in
    rw (h, k)
      (record {
        lead = x;
        rest = (c % 2 ^ 6 + 0x80) ∷ r;
        shape = refl;
        nonzero = ground arith;
        got = rw (b, d, e) refl;
        skipped = rw (b, d) refl;
      })

three_bytes :
    (c : ℕ) (r : List ℕ) → c < 2 ^ 16 → ltb 0x7ff c ≡ true → Decodes c r (char_bytes c ++ r)
unfolding get_utf8_char advance
three_bytes c r w k =
    let h : (c == 0 || ltb 0x7f c) ≡ true = ground arith in
    let x = c / 2 ^ 12 + 0xe0 in
    let b : bit x 7 ≡ true = ground arith in
    let d : bit x 5 ≡ true = ground arith in
    let e : x % 2 ^ 4 * 2 ^ 12
          + (c / 2 ^ 6 % 2 ^ 6 + 0x80) % 2 ^ 6 * 2 ^ 6
          + (c % 2 ^ 6 + 0x80) % 2 ^ 6
        ≡ c =
      ground arith in
    rw (h, k)
      (record {
        lead = x;
        rest = (c / 2 ^ 6 % 2 ^ 6 + 0x80) ∷ (c % 2 ^ 6 + 0x80) ∷ r;
        shape = refl;
        nonzero = ground arith;
        got = rw (b, d, e) refl;
        skipped = rw (b, d) refl;
      })

pub char_bytes-Decodes : (c : ℕ) (r : List ℕ) → c < 2 ^ 16 → Decodes c r (char_bytes c ++ r)
char_bytes-Decodes c r w = elim (Bool-cases (ltb 0x7ff c)) [
  | inl k ↦ three_bytes c r w k
  | inr k ↦ elim (Bool-cases (c == 0 || ltb 0x7f c)) [
    | inl h ↦ two_bytes c r h k
    | inr h ↦ one_byte c r h
  ]
]

-- One round of each loop.
module _ (fuel c : ℕ) (r p : List ℕ) (d : Decodes c r p) where
  pub utf8_len-step : utf8_len_from (suc fuel) p ≡ (utf8_len_from fuel r >>= λ n. some (suc n))
  unfolding utf8_len_from
  utf8_len-step = rw (d.shape, d.nonzero, d.skipped) refl

  pub convert_utf8-step :
      convert_utf8_from (suc fuel) p ≡ (convert_utf8_from fuel r >>= λ cs. some (c % 2 ^ 16 ∷ cs))
  unfolding convert_utf8_from
  convert_utf8-step = rw (d.shape, d.nonzero, d.got) refl

  pub utf8_hash-step :
      (hash : ℕ)
      → utf8_hash_from (suc fuel) hash p ≡ utf8_hash_from fuel ((hash * 37 + c % 2 ^ 16) % 2 ^ 32) r
  unfolding utf8_hash_from
  utf8_hash-step hash = rw (d.shape, d.nonzero, d.got) refl

  module _ (c' : ℕ) (r' p' : List ℕ) (d' : Decodes c' r' p') where
    pub utf8_comp-step :
        utf8_comp_from (suc fuel) p p'
        ≡ (if c % 2 ^ 16 == c' % 2 ^ 16 then utf8_comp_from fuel r r' else some false)
    unfolding utf8_comp_from
    utf8_comp-step = rw (d.shape, d'.shape, d.nonzero, d'.nonzero, d.got, d'.got) refl

  pub utf8_comp-left : (junk : List ℕ) → utf8_comp_from (suc fuel) p (0 ∷ junk) ≡ some false
  unfolding utf8_comp_from
  utf8_comp-left junk = rw (d.shape, d.nonzero) refl

  pub utf8_comp-right : (junk : List ℕ) → utf8_comp_from (suc fuel) (0 ∷ junk) p ≡ some false
  unfolding utf8_comp_from
  utf8_comp-right junk = rw (d.shape, d.nonzero) refl
