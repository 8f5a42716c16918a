-- ===== src/Hash/Slots.antt =====
-- The slots of a table of src/hash.h: which entries they hold, how many, and that each entry can be
-- reached from its home slot.
use jamiga_jamvm.Base.{
  ℕ, zero, suc, ◌+◌, ◌%◌, ◌≤◌, ◌<◌, ◌≡◌, ◌⊎◌, inl, inr, ◌↔◌, refl, sym, ap, subst, ◌∙◌, Bool, true,
  false, arith, ◌==◌, if◌then◌else◌, Option, none, some, Bool-cases,
}
use jamiga_jamvm.Hash.Table.{Entry, store}
use jamiga_jamvm.Hash.Walk.{Stops}

abbrev pub is_free {ℓ} : {A : Type ℓ} → Option A → Bool
is_free none = true
is_free (some e) = false

module _ {D : Type 0} where
  -- The number of entries in the first `n` slots.
  abbrev pub used : (ℕ → Option (Entry D)) → ℕ → ℕ
  used slots zero = 0
  used slots (suc n) = used slots n + (if is_free (slots n) then 0 else 1)

  -- An entry in the first `n` slots.
  abbrev pub IsStored : (ℕ → Option (Entry D)) → ℕ → Entry D → Type 0
  IsStored slots n e = (i : ℕ) × (i < n) × (slots i ≡ some e)

  -- An entry in slot `i` is reached from its home slot over used slots.
  pub record Placed (slots : ℕ → Option (Entry D)) (size i : ℕ) (e : Entry D) : Type 0 where
    pub steps : ℕ
    pub within : steps < size
    pub here : (e.hash + steps) % size ≡ i
    pub passed : (j : ℕ) → j < steps → is_free (slots ((e.hash + j) % size)) ≡ false

  abbrev pub IsChained : (ℕ → Option (Entry D)) → ℕ → Type 0
  IsChained slots size = (i : ℕ) (e : Entry D) → i < size → slots i ≡ some e → Placed slots size i e

  pub free_slot_exists :
      (slots : ℕ → Option (Entry D)) (n : ℕ)
      → used slots n < n
      → (f : ℕ) × (f < n) × (is_free (slots f) ≡ true)
  free_slot_exists slots zero h = absurd (omega (arith, h))
  free_slot_exists slots (suc n) h = elim (Bool-cases (is_free (slots n))) [
    | inl e ↦ (n, omega arith, e)
    | inr e ↦
        let (f, l, e') = free_slot_exists slots n (ground (arith, h, e)) in
        (f, omega (arith, l), e')
  ]

  -- A slot at or after `n` does not count.
  used-store_after :
      (slots : ℕ → Option (Entry D)) (i n : ℕ) (e : Entry D)
      → n ≤ i
      → used (store slots i e) n ≡ used slots n
  used-store_after slots i zero e l = refl
  used-store_after slots i (suc n) e l =
      let other : (n == i) ≡ false = ground (arith, l) in
      let same = used-store_after slots i n e (omega (arith, l)) in rw (other, same) refl

  pub used-store :
      (slots : ℕ → Option (Entry D)) (i n : ℕ) (e : Entry D)
      → i < n
      → is_free (slots i) ≡ true
      → used (store slots i e) n ≡ used slots n + 1
  used-store slots i zero e l f = absurd (omega (arith, l))
  used-store slots i (suc n) e l f = elim (Bool-cases (n == i)) [
    | inl q ↦
        let same = used-store_after slots i n e (ground arith) in
        let free : is_free (slots n) ≡ true =
          subst (λ x. is_free (slots x) ≡ true) (ground arith) f in
        rw (q, same, free) (omega arith)
    | inr q ↦ let same = used-store slots i n e (ground (arith, l)) f in rw (q, same) (omega arith)
  ]

  -- A slot that is in use stays so.
  store_used :
      (slots : ℕ → Option (Entry D)) (i j : ℕ) (e : Entry D)
      → is_free (slots j) ≡ false
      → is_free (store slots i e j) ≡ false
  store_used slots i j e u = ground arith

  store_inv :
      (slots : ℕ → Option (Entry D)) (i j : ℕ) (e e' : Entry D)
      → store slots i e j ≡ some e'
      → ((j ≡ i) × (e' ≡ e)) ⊎ (slots j ≡ some e')
  store_inv slots i j e e' h = elim (Bool-cases (j == i)) [
    | inl q ↦ inl (ground arith, ground (arith, h, q))
    | inr q ↦ inr (ground (arith, h, q))
  ]

  -- An entry stays placed when another slot is filled.
  store-Placed :
      (slots : ℕ → Option (Entry D)) (size i j : ℕ) (e e' : Entry D)
      → Placed slots size j e'
      → Placed (store slots i e) size j e'
  store-Placed slots size i j e e' p = record {
    steps = p.steps;
    within = p.within;
    here = p.here;
    passed = λ k b. store_used slots i ((e'.hash + k) % size) e (p.passed k b);
  }

  -- A new entry is put where the walk from its home slot finds a free one.
  pub store-IsChained :
      (slots : ℕ → Option (Entry D)) (size : ℕ) (e : Entry D)
      → IsChained slots size
      → (s : Stops (λ x. is_free (slots x)) size e.hash)
      → IsChained (store slots ((e.hash + s.steps) % size) e) size
  store-IsChained slots size e c s i e' l h =
      let home = (e.hash + s.steps) % size in
      elim (store_inv slots home i e e' h) [
        | inl (at, same) ↦
            subst (λ x. Placed (store slots home e) size i x) (sym same)
              (store-Placed slots size home i e e
                (record { steps = s.steps; within = s.within; here = sym at; passed = s.earlier }))
        | inr old ↦ store-Placed slots size home i e e' (c i e' l old)
      ]

  store_keeps :
      (slots : ℕ → Option (Entry D)) (i j : ℕ) (e e' : Entry D)
      → is_free (slots i) ≡ true
      → slots j ≡ some e'
      → store slots i e j ≡ some e'
  store_keeps slots i j e e' f h = elim (Bool-cases (j == i)) [
    | inl q ↦
        let free : is_free (slots j) ≡ true =
          subst (λ x. is_free (slots x) ≡ true) (ground arith) f in
        ground (arith, free, h)
    | inr q ↦ rw q h
  ]

  store_here : (slots : ℕ → Option (Entry D)) (i : ℕ) (e : Entry D) → store slots i e i ≡ some e
  store_here slots i e = let q : (i == i) ≡ true = ground arith in rw q refl

  -- What is stored afterwards.
  pub store-IsStored :
      (slots : ℕ → Option (Entry D)) (size i : ℕ) (e e' : Entry D)
      → i < size
      → is_free (slots i) ≡ true
      → (IsStored (store slots i e) size e' ↔ (IsStored slots size e' ⊎ (e' ≡ e)))
  store-IsStored slots size i e e' l f = (
    λ (j, a, h). elim (store_inv slots i j e e' h) [
      | inl (_, same) ↦ inr same
      | inr old ↦ inl (j, a, old)
    ],
    λ w. elim w [
      | inl (j, a, h) ↦ (j, a, store_keeps slots i j e e' f h)
      | inr same ↦ (i, l, store_here slots i e ∙ ap some (sym same))
    ],
  )
