-- ===== src/Excep/Lines.antt =====
-- mapPC2LineNo of src/excep.c.
use jamiga_jamvm.Base.{
  ℕ, zero, suc, ◌-◌, ◌≤◌, ◌≡◌, ◌⊎◌, inl, inr, refl, subst, true, arith, ltb, ◌==◌, if◌then◌else◌,
  Bool-cases, Option, none, some,
}

pub record LineNoTableEntry : Type 0 where
  pub start_pc : ℕ
  pub line_no : ℕ

-- The `for`, from index `i` down.
unfoldable pub line_index : (ℕ → LineNoTableEntry) → ℕ → ℕ → ℕ
line_index table pc zero = zero
line_index table pc (suc i) =
    let rest = line_index table pc i in if ltb pc (table (suc i)).start_pc then rest else suc i

-- mapPC2LineNo, at the offset `pc` of a table with `size` entries; none is -1.
unfoldable pub map_pc2line_no : (ℕ → LineNoTableEntry) → ℕ → ℕ → Option ℕ
unfolding line_index
map_pc2line_no table size pc =
    if ltb 0 size then some (table (line_index table pc (size - 1))).line_no else none

line_index_below : (table : ℕ → LineNoTableEntry) (pc i : ℕ) → line_index table pc i ≤ i
unfolding line_index
line_index_below table pc zero = omega arith
line_index_below table pc (suc i) = let below = line_index_below table pc i in ground (arith, below)

line_index_starts :
    (table : ℕ → LineNoTableEntry) (pc i : ℕ)
    → (line_index table pc i ≡ 0) ⊎ ((table (line_index table pc i)).start_pc ≤ pc)
unfolding line_index
line_index_starts table pc zero = inl refl
line_index_starts table pc (suc i) = elim (Bool-cases (ltb pc (table (suc i)).start_pc)) [
  | inl q ↦ rw q (line_index_starts table pc i)
  | inr q ↦ rw q (inr (ground (arith, q)))
]

line_index_last :
    (table : ℕ → LineNoTableEntry) (pc i j : ℕ)
    → j ≤ i
    → (table j).start_pc ≤ pc
    → j ≤ line_index table pc i
unfolding line_index
line_index_last table pc zero j a b = omega (arith, a)
line_index_last table pc (suc i) j a b = elim (Bool-cases (ltb pc (table (suc i)).start_pc)) [
  | inl q ↦ elim (Bool-cases (j == suc i)) [
    | inl e ↦
        let same : j ≡ suc i = ground arith in
        let early : (table (suc i)).start_pc ≤ pc = subst (λ x. (table x).start_pc ≤ pc) same b in
        absurd (ground (arith, early, q))
    | inr e ↦ rw q (line_index_last table pc i j (ground (arith, a)) b)
  ]
  | inr q ↦ rw q a
]

-- For a table that is not empty mapPC2LineNo gives the line of an entry that starts at or before the pc,
-- or of the first entry, and no later entry `j` starts at or before the pc.
pub map_pc2line_no_lem :
    (table : ℕ → LineNoTableEntry) (pc n j : ℕ)
    → j ≤ n
    → (table j).start_pc ≤ pc
    → (k : ℕ) × (map_pc2line_no table (suc n) pc ≡ some (table k).line_no)
      × (j ≤ k)
      × (k ≤ n)
      × ((k ≡ 0) ⊎ ((table k).start_pc ≤ pc))
unfolding map_pc2line_no
map_pc2line_no_lem table pc n j a b =
    let size : suc n - 1 ≡ n = omega arith in
    let some_entry : ltb 0 (suc n) ≡ true = ground arith in
    (
      line_index table pc n,
      rw (some_entry, size) refl,
      line_index_last table pc n j a b,
      line_index_below table pc n,
      line_index_starts table pc n,
    )
