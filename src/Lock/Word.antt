-- ===== src/Lock/Word.antt =====
-- The lock word of src/lock.c. Thin: the thread's id from bit 9, eight bits of recursion count, and a
-- clear shape bit. Fat: the address of a monitor, with the shape bit set.
use jamiga_jamvm.Base.{ℕ, ◌+◌, ◌-◌, ◌*◌, ◌/◌, ◌%◌, ◌^◌, Bool, bit, ltb}

-- `self->id<<TID_SHIFT`.
abbrev pub thin_locked : ℕ → ℕ
thin_locked id = id * 2 ^ 9

-- `lockword & SHAPE_BIT`.
abbrev pub is_fat : ℕ → Bool
is_fat w = bit w 0

-- `lockword & (TID_MASK|SHAPE_BIT)`: all but the count, since the mask is sign-extended.
abbrev pub tid_and_shape : ℕ → ℕ
tid_and_shape w = w / 2 ^ 9 * 2 ^ 9 + w % 2

-- `(lockword & TID_MASK) >> TID_SHIFT`, an int.
abbrev pub tid_of : ℕ → ℕ
tid_of w = w / 2 ^ 9 % 2 ^ 32

-- `(lockword & COUNT_MASK) >> COUNT_SHIFT`.
abbrev pub count_of : ℕ → ℕ
count_of w = w / 2 % 2 ^ 8

-- `count < (((1<<COUNT_SIZE)-1)<<COUNT_SHIFT)`.
abbrev pub has_room : ℕ → Bool
has_room w = ltb (count_of w * 2) ((2 ^ 8 - 1) * 2)

-- `(uintptr_t) mon | SHAPE_BIT` for an aligned monitor.
abbrev pub fat_word : ℕ → ℕ
fat_word mon = mon + 1
