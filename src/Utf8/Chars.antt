-- ===== src/Utf8/Chars.antt =====
-- The decoder of src/utf8.c and the functions that read a string with it. A `char *` is the memory from
-- it on, a list of bytes; none is a read beyond that memory.
use jamiga_jamvm.Base.{
  ℕ, zero, suc, ◌+◌, ◌*◌, ◌%◌, ◌^◌, Bool, false, bit, ◌==◌, if◌then◌else◌, ◌&&◌, ◌||◌, not, List,
  [], ◌∷◌, Option, none, some, length, ◌>>=◌,
}

-- `*ptr++`.
abbrev pub read : List ℕ → Option (ℕ × List ℕ)
read [] = none
read (x ∷ p) = some (x, p)

-- GET_UTF8_CHAR, with the pointer after the character. The `&` select low bits.
unfoldable pub get_utf8_char : List ℕ → Option (ℕ × List ℕ)
get_utf8_char p = do
  (x, p) ← read p
  if not (bit x 7) then some (x, p) else do
    (y, p) ← read p
    if not (bit x 5)
        then some (x % 2 ^ 5 * 2 ^ 6 + y % 2 ^ 6, p)
        else do (z, p) ← read p; some (x % 2 ^ 4 * 2 ^ 12 + y % 2 ^ 6 * 2 ^ 6 + z % 2 ^ 6, p)

-- `utf8 += n`.
unfoldable pub advance : ℕ → List ℕ → Option (List ℕ)
advance zero p = some p
advance (suc n) p = do (_, p) ← read p; advance n p

-- utf8Len. Each round moves the pointer on, so that the length of the memory is enough fuel.
unfoldable pub utf8_len_from : ℕ → List ℕ → Option ℕ
unfolding advance
utf8_len_from zero p = none
utf8_len_from (suc fuel) p = do
  (x, _) ← read p
  if x == 0 then some 0 else do
    p ← advance (if bit x 7 then if bit x 5 then 3 else 2 else 1) p
    n ← utf8_len_from fuel p
    some (suc n)

abbrev pub utf8_len : List ℕ → Option ℕ
utf8_len p = utf8_len_from (length p) p

-- convertUtf8: what is written to `buff`.
unfoldable pub convert_utf8_from : ℕ → List ℕ → Option (List ℕ)
unfolding get_utf8_char
convert_utf8_from zero p = none
convert_utf8_from (suc fuel) p = do
  (x, _) ← read p
  if x == 0
      then some []
      else do (c, p) ← get_utf8_char p; cs ← convert_utf8_from fuel p; some (c % 2 ^ 16 ∷ cs)

abbrev pub convert_utf8 : List ℕ → Option (List ℕ)
convert_utf8 p = convert_utf8_from (length p) p

-- The loop of utf8Hash, from a hash that is an int.
unfoldable pub utf8_hash_from : ℕ → ℕ → List ℕ → Option ℕ
unfolding get_utf8_char
utf8_hash_from zero hash p = none
utf8_hash_from (suc fuel) hash p = do
  (x, _) ← read p
  if x == 0
      then some hash
      else do (c, p) ← get_utf8_char p; utf8_hash_from fuel ((hash * 37 + c % 2 ^ 16) % 2 ^ 32) p

abbrev pub utf8_hash : List ℕ → Option ℕ
utf8_hash p = utf8_hash_from (length p) 0 p

-- utf8Comp.
unfoldable pub utf8_comp_from : ℕ → List ℕ → List ℕ → Option Bool
unfolding get_utf8_char
utf8_comp_from zero p q = none
utf8_comp_from (suc fuel) p q = do
  (x, _) ← read p
  (y, _) ← read q
  if x == 0 || y == 0 then some (x == 0 && y == 0) else do
    (c, p) ← get_utf8_char p
    (c', q) ← get_utf8_char q
    if c % 2 ^ 16 == c' % 2 ^ 16 then utf8_comp_from fuel p q else some false

abbrev pub utf8_comp : List ℕ → List ℕ → Option Bool
utf8_comp p q = utf8_comp_from (length p) p q
