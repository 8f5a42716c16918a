-- ===== src/Utf8/Names.antt =====
-- The conversion of class names in src/utf8.c. A string is the memory from its first byte on, or what
-- precedes its terminator where it is only read.
use jamiga_jamvm.Base.{ℕ, zero, suc, ◌+◌, ◌-◌, ◌%◌, ◌^◌, ◌==◌, if◌then◌else◌, ◌||◌, List, [], ◌∷◌}

-- `'.'` and `'/'`.
abbrev pub dot : ℕ
dot = 0x2e

abbrev pub slash : ℕ
slash = 0x2f

-- The loop of dots2Slash over the memory of the string.
unfoldable pub dots2slash : List ℕ → List ℕ
dots2slash [] = []
dots2slash (c ∷ p) =
    let rest = dots2slash p in if c == 0 then c ∷ p else (if c == dot then slash else c) ∷ rest

-- The loop of slash2Dots.
unfoldable pub slash2dots : List ℕ → List ℕ
slash2dots [] = []
slash2dots (c ∷ p) =
    let rest = slash2dots p in if c == 0 then c ∷ p else (if c == slash then dot else c) ∷ rest

-- strlen.
unfoldable pub strlen : List ℕ → ℕ
strlen [] = 0
strlen (c ∷ p) = let n = strlen p in if c == 0 then 0 else suc n

-- The loop of slash2DotsDup, for `n` bytes: what is written to the new buffer.
unfoldable pub copy_dotted : ℕ → List ℕ → List ℕ
copy_dotted zero p = []
copy_dotted (suc n) [] = []
copy_dotted (suc n) (c ∷ p) = (if c == slash then dot else c) ∷ copy_dotted n p

-- slash2DotsDup.
abbrev pub slash2dots_dup : List ℕ → List ℕ
slash2dots_dup p = copy_dotted (strlen p + 1) p

-- `--buff_len`, of an int.
abbrev pub decrement : ℕ → ℕ
decrement n = (n + (2 ^ 32 - 1)) % 2 ^ 32

-- slash2DotsBuff: what is written to `buff`.
unfoldable pub slash2dots_buff : List ℕ → ℕ → List ℕ
slash2dots_buff [] buff_len = 0 ∷ []
slash2dots_buff (c ∷ p) buff_len =
    let rest = slash2dots_buff p (decrement buff_len) in
    if c == 0 || decrement buff_len == 0 then 0 ∷ [] else (if c == slash then dot else c) ∷ rest
