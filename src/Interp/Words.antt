-- ===== src/Interp/Words.antt =====
-- The arithmetic of src/interp/engine/interp.c on 32-bit and 64-bit words. A word stands for a signed
-- number in two's complement; `m` is 2 ^ 32 for an int and 2 ^ 64 for a long.
use Prim.Native.Nat.{bit_and, bit_or, bit_xor}
use jamiga_jamvm.Base.{
  ℕ, ◌+◌, ◌-◌, ◌*◌, ◌/◌, ◌%◌, ◌^◌, Bool, true, false, ◌&&◌, not, ltb, leb, ◌==◌, if◌then◌else◌,
  ◌||◌, Option, none, some,
}

abbrev pub int_range : ℕ
int_range = 2 ^ 32

abbrev pub long_range : ℕ
long_range = 2 ^ 64

-- The sign bit, and the absolute value.
abbrev pub is_negative : ℕ → ℕ → Bool
is_negative m a = leb m (a * 2)

abbrev pub magnitude : ℕ → ℕ → ℕ
magnitude m a = if is_negative m a then m - a else a

-- `-value`.
abbrev pub negate : ℕ → ℕ → ℕ
negate m a = (m - a) % m

-- The operators of BINARY_OP.
pub data BinaryOp : Type 0 where
  add sub mul and or xor : BinaryOp

abbrev pub binary_value : ℕ → BinaryOp → ℕ → ℕ → ℕ
binary_value m add a b = (a + b) % m
binary_value m sub a b = (a + (m - b)) % m
binary_value m mul a b = a * b % m
binary_value m and a b = bit_and a b
binary_value m or a b = bit_or a b
binary_value m xor a b = bit_xor a b

pub data DivOp : Type 0 where
  quotient remainder : DivOp

-- The values of `/` and `%`, which round towards zero.
abbrev pub div_value : ℕ → DivOp → ℕ → ℕ → ℕ
div_value m quotient a b =
    let q = magnitude m a / magnitude m b in
    if is_negative m a
    then if is_negative m b then q else negate m q
    else if is_negative m b
    then negate m q
    else q
div_value m remainder a b =
    let r = magnitude m a % magnitude m b in if is_negative m a then negate m r else r

-- INTDIV_OVERFLOW and LONGDIV_OVERFLOW, where they are not defined as FALSE.
abbrev pub div_overflow : ℕ → ℕ → ℕ → Bool
div_overflow m a b = a * 2 == m && b + 1 == m

-- `/` and `%` of C: nothing is defined for the divisor 0, and for the least value by -1.
abbrev pub c_div : ℕ → DivOp → ℕ → ℕ → Option ℕ
c_div m op a b = if b == 0 || (a * 2 == m && b + 1 == m) then none else some (div_value m op a b)

-- INTDIV and INTDIV_OP_long: `v1 OP (INTDIV_OVERFLOW(v1, v2) ? 1 : v2)`.
unfoldable pub checked_div : ℕ → DivOp → ℕ → ℕ → Option ℕ
checked_div m op a b = c_div m op a (if div_overflow m a b then 1 else b)

pub data ShiftOp : Type 0 where
  shl shr ushr : ShiftOp

-- `<<`, and `>>` on a signed and on an unsigned word. The signed one rounds down.
abbrev pub shift_value : ℕ → ShiftOp → ℕ → ℕ → ℕ
shift_value m shl a n = a * 2 ^ n % m
shift_value m shr a n = if is_negative m a then m - 1 - (m - 1 - a) / 2 ^ n else a / 2 ^ n
shift_value m ushr a n = a / 2 ^ n

-- `v1 < v2` of signed words.
abbrev pub less : ℕ → ℕ → ℕ → Bool
less m a b =
    if is_negative m a
    then if is_negative m b then ltb a b else true
    else if is_negative m b
    then false
    else ltb a b

pub data Cond : Type 0 where
  eq ne lt ge gt le : Cond

abbrev pub holds : ℕ → Cond → ℕ → ℕ → Bool
holds m eq a b = a == b
holds m ne a b = not (a == b)
holds m lt a b = less m a b
holds m ge a b = not (less m a b)
holds m gt a b = less m b a
holds m le a b = not (less m b a)

-- `(int)slot`, as a word.
abbrev pub int_of : ℕ → ℕ
int_of slot = slot % int_range

-- A signed value of `2 ^ k` values, widened to a slot of 64 bits.
abbrev pub widen : ℕ → ℕ → ℕ
widen m a = if is_negative m a then a + (long_range - m) else a

-- An int in a slot.
abbrev pub slot_of : ℕ → ℕ
slot_of a = widen int_range (a % int_range)
