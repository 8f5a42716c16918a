-- ===== src/Utf8/NameLaws.antt =====
-- What the conversions of class names in src/utf8.c do to a string.
use jamiga_jamvm.Base.{
  ℕ, zero, suc, ◌+◌, ◌^◌, ◌≤◌, ◌<◌, ◌≡◌, ◌≢◌, refl, ap, ◌∙◌, true, false, arith, ◌==◌,
  if◌then◌else◌, ◌||◌, List, [], ◌∷◌, ◌++◌, map, length, All, Bool-cases, inl, inr,
}
use jamiga_jamvm.Utf8.Names.{
  dot, slash, dots2slash, slash2dots, strlen, copy_dotted, slash2dots_dup, decrement,
  slash2dots_buff,
}

-- Bytes of a string without its terminator.
abbrev pub IsText : List ℕ → Type 0
IsText s = All (λ c. 0 < c) s

abbrev pub HasNo : ℕ → List ℕ → Type 0
HasNo x s = All (λ c. c ≢ x) s

-- The characters of a name, one byte replaced by another.
abbrev pub replace : ℕ → ℕ → List ℕ → List ℕ
replace x y s = map (λ c. if c == x then y else c) s

slash2dots_lem :
    (s junk : List ℕ) → IsText s → slash2dots (s ++ 0 ∷ junk) ≡ replace slash dot s ++ 0 ∷ junk
unfolding slash2dots
slash2dots_lem [] junk t = refl
slash2dots_lem (c ∷ s) junk t =
    let z : (c == 0) ≡ false = ground (arith, t.0) in rw (z, slash2dots_lem s junk t.1) refl

dots2slash_back :
    (s junk : List ℕ)
    → IsText s
    → HasNo dot s
    → dots2slash (replace slash dot s ++ 0 ∷ junk) ≡ s ++ 0 ∷ junk
unfolding dots2slash
dots2slash_back [] junk t n = refl
dots2slash_back (c ∷ s) junk t n = elim (Bool-cases (c == slash)) [
  | inl e ↦
      let is : slash ≡ c = ground arith in
      rw (e, dots2slash_back s junk t.1 n.1) (ap (λ x. x ∷ (s ++ 0 ∷ junk)) is)
  | inr e ↦
      let z : (c == 0) ≡ false = ground (arith, t.0) in
      let d : (c == dot) ≡ false = ground (arith, n.0) in
      rw (e, z, d, dots2slash_back s junk t.1 n.1) refl
]

-- slash2Dots replaces exactly the slashes of a name, and a name without dots survives the conversion to
-- dots and back; the memory after the name stays.
pub dots2slash-slash2dots :
    (s junk : List ℕ)
    → IsText s
    → HasNo dot s
    → (slash2dots (s ++ 0 ∷ junk) ≡ replace slash dot s ++ 0 ∷ junk)
      × (dots2slash (slash2dots (s ++ 0 ∷ junk)) ≡ s ++ 0 ∷ junk)
dots2slash-slash2dots s junk t n =
    (slash2dots_lem s junk t, ap dots2slash (slash2dots_lem s junk t) ∙ dots2slash_back s junk t n)

strlen_lem : (s junk : List ℕ) → IsText s → strlen (s ++ 0 ∷ junk) ≡ length s
unfolding strlen
strlen_lem [] junk t = refl
strlen_lem (c ∷ s) junk t =
    let z : (c == 0) ≡ false = ground (arith, t.0) in rw (z, strlen_lem s junk t.1) refl

-- The copy made by slash2DotsDup is the string that slash2Dots makes, with its terminator.
copy_dotted_lem :
    (s junk : List ℕ) → copy_dotted (suc (length s)) (s ++ 0 ∷ junk) ≡ replace slash dot s ++ 0 ∷ []
unfolding copy_dotted
copy_dotted_lem [] junk = refl
copy_dotted_lem (c ∷ s) junk =
    ap (λ l. (if c == slash then dot else c) ∷ l) (copy_dotted_lem s junk)

pub slash2dots_dup_lem :
    (s junk : List ℕ) → IsText s → slash2dots_dup (s ++ 0 ∷ junk) ≡ replace slash dot s ++ 0 ∷ []
slash2dots_dup_lem s junk t =
    let e : length s + 1 ≡ suc (length s) = omega arith in
    rw (strlen_lem s junk t, e) (copy_dotted_lem s junk)

-- The first characters of a list.
abbrev pub take : ℕ → List ℕ → List ℕ
take zero s = []
take (suc n) [] = []
take (suc n) (c ∷ s) = c ∷ take n s

decrement-suc : (n : ℕ) → n < 2 ^ 31 → decrement (suc n) ≡ n
decrement-suc n w = omega (arith, w)

-- slash2DotsBuff with room for `suc n` bytes writes the first `n` characters at most, with dots, and a
-- terminator, and never more than it has room for.
pub slash2dots_buff_lem :
    (s junk : List ℕ) (n : ℕ)
    → IsText s
    → n < 2 ^ 31
    → (slash2dots_buff (s ++ 0 ∷ junk) (suc n) ≡ replace slash dot (take n s) ++ 0 ∷ [])
      × (length (slash2dots_buff (s ++ 0 ∷ junk) (suc n)) ≤ suc n)
unfolding slash2dots_buff
slash2dots_buff_lem [] junk zero t w = (refl, omega arith)
slash2dots_buff_lem [] junk (suc n) t w = (refl, omega arith)
slash2dots_buff_lem (c ∷ s) junk zero t w =
    let e : (c == 0 || decrement 1 == 0) ≡ true = ground arith in rw e (refl, omega arith)
slash2dots_buff_lem (c ∷ s) junk (suc n) t w =
    let z : (c == 0) ≡ false = ground (arith, t.0) in
    let (same, fits) = slash2dots_buff_lem s junk n t.1 (omega (arith, w)) in
    let more : (suc n == 0) ≡ false = ground arith in
    rw (decrement-suc (suc n) w, z, more)
      (ap (λ l. (if c == slash then dot else c) ∷ l) same, omega (arith, fits))
