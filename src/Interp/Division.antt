-- ===== src/Interp/Division.antt =====
-- The division of src/interp/engine/interp.c: INTDIV and INTDIV_OP_long, with the tests for an overflow
-- of src/interp/engine/interp.h.
use native.Mathlib.Nat.{
  mod-eq_of_lt, div-add-mod', mod-lt, mod-le, div-one, div-le_self, add-mul-mod_self_left,
}
use jamiga_jamvm.Base.{
  ℕ, zero, suc, ◌+◌, ◌-◌, ◌*◌, ◌/◌, ◌%◌, ◌≤◌, ◌<◌, ◌≡◌, refl, sym, ap, ◌∙◌, Bool, true, false,
  Bool-cases, inl, inr, ◌==◌, not, ◌&&◌, if◌then◌else◌, arith, some, ◌||◌,
}
use jamiga_jamvm.Interp.Words.{
  DivOp, quotient, remainder, is_negative, magnitude, negate, div_value, div_overflow, c_div,
  checked_div,
}

mod_is : (m k l a x : ℕ) → a < m → x + m * k ≡ a + m * l → x % m ≡ a
mod_is m k l a x lt e =
    sym (add-mul-mod_self_left x m k)
    ∙ ap (λ y. y % m) e
    ∙ add-mul-mod_self_left a m l
    ∙ mod-eq_of_lt lt

-- A word with a sign and a magnitude.
abbrev Signed : ℕ → ℕ → Bool → ℕ → Type 0
Signed m w false x = w ≡ x
Signed m w true x = (e : ℕ) × (w + x ≡ m * e)

abbrev pub xor_sign : Bool → Bool → Bool
xor_sign true s = not s
xor_sign false s = s

sum-Signed :
    (m a b q r x y u v : ℕ) (s t : Bool)
    → Signed m a s x
    → Signed m b t y
    → Signed m q (xor_sign s t) u
    → Signed m r s v
    → x ≡ u * y + v
    → a < m
    → (q * b + r) % m ≡ a
sum-Signed m a b q r x y u v false false sa sb sq sr e l =
    mod_is m 0 0 a (q * b + r) l (omega (arith, sa, sr, e, ap (λ w. q * w) sb, ap (λ w. w * y) sq))
sum-Signed m a b q r x y u v false true sa (f, sb) (g, sq) sr e l =
    mod_is m (g * y) (q * f) a (q * b + r) l
      (omega (arith, sa, sr, e, ap (λ w. q * w) sb, ap (λ w. w * y) sq))
sum-Signed m a b q r x y u v true false (d, sa) sb (g, sq) (h, sr) e l =
    mod_is m d (g * b + h) a (q * b + r) l
      (omega (arith, sa, sr, e, ap (λ w. u * w) sb, ap (λ w. w * b) sq, ap (λ w. m * (g * w)) sb))
sum-Signed m a b q r x y u v true true (d, sa) (f, sb) sq (h, sr) e l =
    mod_is m d (u * f + h) a (q * b + r) l
      (omega (arith, sa, sr, e, ap (λ w. u * w) sb, ap (λ w. w * b) sq))

magnitude-Signed : (m a : ℕ) → a < m → Signed m a (is_negative m a) (magnitude m a)
magnitude-Signed m a l = elim (Bool-cases (is_negative m a)) [
  | inl z ↦ rw z (1, omega (arith, l))
  | inr n ↦ rw n refl
]

negate-Signed : (m x : ℕ) → x < m → Signed m (negate m x) true x
negate-Signed m zero l = (0, omega (arith, mod_is m 0 1 0 (m - 0) l (omega arith)))
negate-Signed m (suc x) l =
    (1, omega (arith, l, mod-eq_of_lt {n = m - suc x} {m = m} (omega (arith, l))))

magnitude-lt : (m a : ℕ) → a < m → magnitude m a < m
magnitude-lt m a l = elim (Bool-cases (is_negative m a)) [
  | inl z ↦ rw z (ground (arith, z, l))
  | inr n ↦ rw n l
]

quotient_sign :
    (m x : ℕ) (s t : Bool)
    → x < m
    → Signed m
        (if s then if t then x else negate m x else if t then negate m x else x)
        (xor_sign s t)
        x
quotient_sign m x true true l = refl
quotient_sign m x true false l = negate-Signed m x l
quotient_sign m x false true l = negate-Signed m x l
quotient_sign m x false false l = refl

remainder_sign : (m x : ℕ) (s : Bool) → x < m → Signed m (if s then negate m x else x) s x
remainder_sign m x true l = negate-Signed m x l
remainder_sign m x false l = refl

magnitude-le : (m a : ℕ) → 2 * magnitude m a ≤ m
magnitude-le m a = elim (Bool-cases (is_negative m a)) [
  | inl z ↦ rw z (ground (arith, z))
  | inr n ↦ rw n (ground (arith, n))
]

negate-zero : (m : ℕ) → 0 < m → negate m 0 ≡ 0
negate-zero m l = mod_is m 0 1 0 (m - 0) l (omega arith)

negate-suc : (m x : ℕ) → suc x < m → negate m (suc x) ≡ m - suc x
negate-suc m x l = mod-eq_of_lt {n = m - suc x} {m = m} (omega (arith, l))

-- The magnitude and the sign of a result of `remainder_sign`.
signed-magnitude :
    (m x : ℕ) (s : Bool)
    → 2 * x < m
    → (magnitude m (if s then negate m x else x) ≡ x)
      × (is_negative m (if s then negate m x else x)
          ≡ (s && not ((if s then negate m x else x) == 0)))
signed-magnitude m x false l = (ground (arith, l), ground (arith, l))
signed-magnitude m zero true l =
    let e : negate m 0 ≡ 0 = negate-zero m (omega (arith, l)) in
    rw e (ground (arith, l), ground (arith, l))
signed-magnitude m (suc x) true l =
    let e : negate m (suc x) ≡ m - suc x = negate-suc m x (omega (arith, l)) in
    rw e (ground (arith, l), ground (arith, l))

plain_magnitude :
    (m x : ℕ) → 0 < m → 2 * x ≤ m → (magnitude m x ≡ x) × (is_negative m x ≡ (2 * x == m || false))
plain_magnitude m x p l = (ground (arith, p, l), ground (arith, p, l))

negated_magnitude :
    (m x : ℕ)
    → 0 < m
    → 2 * x ≤ m
    → (magnitude m (negate m x) ≡ x)
      × (is_negative m (negate m x) ≡ (2 * x == m || not (negate m x == 0)))
negated_magnitude m zero p l =
    let e : negate m 0 ≡ 0 = negate-zero m p in rw e (ground (arith, p), ground (arith, p))
negated_magnitude m (suc x) p l =
    let e : negate m (suc x) ≡ m - suc x = negate-suc m x (omega (arith, l)) in
    rw e (ground (arith, l), ground (arith, l))

-- The magnitude and the sign of a quotient of magnitude `x`, which wraps around where that is the least
-- value's.
quotient-magnitude :
    (m x : ℕ) (s t : Bool)
    → 0 < m
    → 2 * x ≤ m
    → let w = if s then if t then x else negate m x else if t then negate m x else x in
      (magnitude m w ≡ x) × (is_negative m w ≡ (2 * x == m || (xor_sign s t && not (w == 0))))
quotient-magnitude m x true true p l = plain_magnitude m x p l
quotient-magnitude m x true false p l = negated_magnitude m x p l
quotient-magnitude m x false true p l = negated_magnitude m x p l
quotient-magnitude m x false false p l = plain_magnitude m x p l

c_div-one : (m a : ℕ) (op : DivOp) → 2 < m → c_div m op a 1 ≡ some (div_value m op a 1)
c_div-one m a op p = let n : (a * 2 == m && 2 == m) ≡ false = ground (arith, p) in rw n refl

module _ (m a b : ℕ) (la : a < m) (lb : b < m) where
  div_value_law : (div_value m quotient a b * b + div_value m remainder a b) % m ≡ a
  div_value_law =
      let x : ℕ = magnitude m a in
      let y : ℕ = magnitude m b in
      let lx : x < m = magnitude-lt m a la in
      let lq : x / y < m = omega (arith, lx, div-le_self x y) in
      let lr : x % y < m = omega (arith, lx, mod-le x y) in
      sum-Signed m a b (div_value m quotient a b) (div_value m remainder a b) x y (x / y) (x % y)
        (is_negative m a) (is_negative m b) (magnitude-Signed m a la) (magnitude-Signed m b lb)
        (quotient_sign m (x / y) (is_negative m a) (is_negative m b) lq)
        (remainder_sign m (x % y) (is_negative m a) lr) (sym (div-add-mod' x y)) la

  remainder_facts :
      (b == 0) ≡ false
      → (magnitude m (div_value m remainder a b) ≡ magnitude m a % magnitude m b)
        × (is_negative m (div_value m remainder a b)
            ≡ (is_negative m a && not (div_value m remainder a b == 0)))
  remainder_facts nz =
      let y : 0 < magnitude m b = ground (arith, nz, lb) in
      let lr : magnitude m a % magnitude m b < magnitude m b = mod-lt (magnitude m a) y in
      signed-magnitude m (magnitude m a % magnitude m b) (is_negative m a)
        (omega (arith, lr, magnitude-le m b))

  quotient_facts :
      (magnitude m (div_value m quotient a b) ≡ magnitude m a / magnitude m b)
      × (is_negative m (div_value m quotient a b) ≡ (
          2 * (magnitude m a / magnitude m b) == m
          || (xor_sign (is_negative m a) (is_negative m b) && not (div_value m quotient a b == 0))))
  quotient_facts =
      let small = div-le_self (magnitude m a) (magnitude m b) in
      quotient-magnitude m (magnitude m a / magnitude m b) (is_negative m a) (is_negative m b)
        (omega (arith, la)) (omega (arith, small, magnitude-le m a))

  -- The divisor 1 in place of -1 gives what the division that wraps around gives.
  overflowing :
      (op : DivOp) → 2 < m → div_overflow m a b ≡ true → div_value m op a 1 ≡ div_value m op a b
  overflowing quotient p z =
      let e : m ≡ a * 2 = ground (arith, z) in
      let f : m ≡ b + 1 = ground (arith, z) in
      let ma : magnitude m a ≡ a = ground (arith, e) in
      let mb : magnitude m b ≡ 1 = ground (arith, e, f, p) in
      let m1 : magnitude m 1 ≡ 1 = ground (arith, p) in
      let na : is_negative m a ≡ true = ground (arith, e) in
      let nb : is_negative m b ≡ true = ground (arith, f, p) in
      let n1 : is_negative m 1 ≡ false = ground (arith, p) in
      let half : negate m a ≡ a = mod-eq_of_lt (omega (arith, e, la)) ∙ omega (arith, e) in
      rw (ma, mb, m1, na, nb, n1, div-one a) half
  overflowing remainder p z =
      let e : m ≡ a * 2 = ground (arith, z) in
      let f : m ≡ b + 1 = ground (arith, z) in
      let mb : magnitude m b ≡ 1 = ground (arith, e, f, p) in
      let m1 : magnitude m 1 ≡ 1 = ground (arith, p) in rw (mb, m1) refl

  checked_div-div_value :
      (op : DivOp) → 2 < m → (b == 0) ≡ false → checked_div m op a b ≡ some (div_value m op a b)
  unfolding checked_div
  checked_div-div_value op p nz = elim (Bool-cases (div_overflow m a b)) [
    | inr n ↦ rw (n, nz, n) refl
    | inl z ↦ rw z (c_div-one m a op p ∙ ap some (overflowing op p z))
  ]

-- An int or a long divided by one other than 0: neither operator is applied where C leaves it undefined, and
-- the results are those of a division that rounds towards zero. The magnitude of the quotient is the quotient
-- of the magnitudes, and it is negative where the signs differ and it is not 0, or where its magnitude is
-- that of the least value, to which it then wraps around. The magnitude of the remainder is the remainder of
-- the magnitudes, and it is negative where it is not 0 and the dividend is negative. The quotient times the
-- divisor plus the remainder is the dividend, up to wrap-around.
pub checked_div_lem :
    (m a b : ℕ)
    → 2 < m
    → a < m
    → b < m
    → (b == 0) ≡ false
    → (q : ℕ) × (r : ℕ) × (checked_div m quotient a b ≡ some q)
      × (checked_div m remainder a b ≡ some r)
      × ((q * b + r) % m ≡ a)
      × (magnitude m q ≡ magnitude m a / magnitude m b)
      × (is_negative m q ≡ (
          2 * (magnitude m a / magnitude m b) == m
          || (xor_sign (is_negative m a) (is_negative m b) && not (q == 0))))
      × (magnitude m r ≡ magnitude m a % magnitude m b)
      × (is_negative m r ≡ (is_negative m a && not (r == 0)))
checked_div_lem m a b p la lb nz =
    let (size, sign) = quotient_facts m a b la lb in
    let (rest, rest_sign) = remainder_facts m a b la lb nz in
    (
      div_value m quotient a b,
      div_value m remainder a b,
      checked_div-div_value m a b la lb quotient p nz,
      checked_div-div_value m a b la lb remainder p nz,
      div_value_law m a b la lb,
      size,
      sign,
      rest,
      rest_sign,
    )

-- The handlers' divisions by another divisor than 0.
pub checked_div-some :
    (m : ℕ) (op : DivOp) (a b : ℕ)
    → 2 < m
    → (b == 0) ≡ false
    → (v : ℕ) × (checked_div m op a b ≡ some v)
unfolding checked_div
checked_div-some m op a b p nz = elim (Bool-cases (div_overflow m a b)) [
  | inr n ↦ (div_value m op a b, rw (n, nz, n) refl)
  | inl z ↦ (div_value m op a 1, rw z (c_div-one m a op p))
]
