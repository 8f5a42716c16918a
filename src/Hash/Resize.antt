-- ===== src/Hash/Resize.antt =====
-- resizeHash of src/hash.c: the new table holds the entries of the old one.
use jamiga_jamvm.Base.{
  ℕ, zero, suc, ◌+◌, ◌*◌, ◌%◌, ◌≤◌, ◌<◌, ◌≡◌, ◌⊎◌, inl, inr, ◌↔◌, refl, sym, ap, ◌∙◌, true, arith,
  ◌==◌, Option, none, some, Bool-cases, Option-cases, ◌>>=◌,
}
use jamiga_jamvm.Hash.Table.{
  Entry, HashTable, store, free_slot, refill, resize_hash, init_hash_table,
}
use jamiga_jamvm.Hash.Walk.{walk, walk-Stops}
use jamiga_jamvm.Hash.Slots.{
  is_free, used, IsStored, IsChained, free_slot_exists, used-store, store-IsChained, store-IsStored,
}
use native.Mathlib.Nat.{mod-lt}

used-none : (D : Type 0) (n : ℕ) → used {D = D} (λ _. none) n ≡ 0
used-none D zero = refl
used-none D (suc n) = omega (arith, used-none D n)

module _ {D : Type 0} where
  -- A table as the macros keep it: at most three quarters of it are in use.
  pub record IsValid (t : HashTable D) : Type 0 where
    pub positive : 0 < t.hash_size
    pub counted : used t.slots t.hash_size ≡ t.hash_count
    pub room : t.hash_count * 4 ≤ t.hash_size * 3
    pub chained : IsChained t.slots t.hash_size

  none-IsChained : {size : ℕ} → IsChained {D = D} (λ _. none) size
  none-IsChained i e l h = ground (arith, h)

  nothing_stored : (n : ℕ) (e : Entry D) → IsStored {D = D} (λ _. none) n e → ⊥
  nothing_stored n e (i, l, h) = ground (arith, h)

  free_slot_lem :
      (fuel : ℕ) (slots : ℕ → Option (Entry D)) (size i : ℕ)
      → free_slot fuel slots size i ≡ walk (λ x. is_free (slots x)) fuel size i
  unfolding free_slot walk
  free_slot_lem zero slots size i = refl
  free_slot_lem (suc fuel) slots size i = elim (Option-cases (slots i)) [
    | inl e ↦ rw (e, free_slot) refl
    | inr (x, e) ↦ rw (e, free_slot) (free_slot_lem fuel slots size ((i + 1) % size))
  ]

  pub record Refilled (old : ℕ → Option (Entry D)) (n size : ℕ) (new slots : ℕ → Option (Entry D))
      : Type 0 where
    pub chained : IsChained slots size
    pub counted : used slots size ≡ used new size + used old n
    pub stored : (e : Entry D) → IsStored slots size e ↔ (IsStored new size e ⊎ IsStored old n e)

  last-IsStored :
      (old : ℕ → Option (Entry D)) (n : ℕ) (e : Entry D)
      → IsStored old (suc n) e
      → IsStored old n e ⊎ (old n ≡ some e)
  last-IsStored old n e (i, l, h) = elim (Bool-cases (i == n)) [
    | inl q ↦ let same : i ≡ n = ground arith in inr (sym (ap old same) ∙ h)
    | inr q ↦ inl (i, ground (arith, l), h)
  ]

  still-IsStored :
      (old : ℕ → Option (Entry D)) (n : ℕ) (e : Entry D) → IsStored old n e → IsStored old (suc n) e
  still-IsStored old n e (i, l, h) = (i, omega (arith, l), h)

  -- Slot `n` of the old table is free.
  skip-Refilled :
      (old : ℕ → Option (Entry D)) (n size : ℕ) (new slots : ℕ → Option (Entry D))
      → old n ≡ none
      → Refilled old n size new slots
      → Refilled old (suc n) size new slots
  skip-Refilled old n size new slots z r = record {
    chained = r.chained;
    counted = r.counted ∙ ground arith;
    stored = λ e. (
      λ h. elim ((r.stored e).0 h) [ inl a ↦ inl a | inr b ↦ inr (still-IsStored old n e b) ],
      λ w. (r.stored e).1 (elim w [
        | inl a ↦ inl a
        | inr b ↦ elim (last-IsStored old n e b) [
          | inl old_one ↦ inr old_one
          | inr last ↦ ground (arith, last, z)
        ]
      ]),
    );
  }

  -- Slot `n` of the old table has an entry, which goes to slot `i` of the new one.
  put-Refilled :
      (old : ℕ → Option (Entry D)) (n size i : ℕ) (e : Entry D) (new slots : ℕ → Option (Entry D))
      → old n ≡ some e
      → i < size
      → is_free (new i) ≡ true
      → Refilled old n size (store new i e) slots
      → Refilled old (suc n) size new slots
  put-Refilled old n size i e new slots z l f r = record {
    chained = r.chained;
    counted = let c = used-store new i size e l f in ground (arith, r.counted, c);
    stored = λ x. (
      λ h. elim ((r.stored x).0 h) [
        | inl a ↦ elim ((store-IsStored new size i e x l f).0 a) [
          | inl b ↦ inl b
          | inr same ↦ inr (n, omega arith, z ∙ ap some (sym same))
        ]
        | inr b ↦ inr (still-IsStored old n x b)
      ],
      λ w. (r.stored x).1 (elim w [
        | inl a ↦ inl ((store-IsStored new size i e x l f).1 (inl a))
        | inr b ↦ elim (last-IsStored old n x b) [
          | inl old_one ↦ inr old_one
          | inr last ↦ inl ((store-IsStored new size i e x l f).1 (inr (ground (arith, last, z))))
        ]
      ]),
    );
  }

  refill-none :
      (n : ℕ) (old : ℕ → Option (Entry D)) (size : ℕ) (new : ℕ → Option (Entry D))
      → old n ≡ none
      → refill (suc n) old size new ≡ refill n old size new
  unfolding refill
  refill-none n old size new z = rw (z, refill) refl

  refill-some :
      (n : ℕ) (old : ℕ → Option (Entry D)) (size : ℕ) (new : ℕ → Option (Entry D)) (e : Entry D)
      (i : ℕ)
      → old n ≡ some e
      → free_slot size new size (e.hash % size) ≡ some i
      → refill (suc n) old size new ≡ refill n old size (store new i e)
  unfolding refill
  refill-some n old size new e i z f = rw (z, f, refill) refl

  none_stored : (old : ℕ → Option (Entry D)) (e : Entry D) → IsStored old 0 e → ⊥
  none_stored old e (i, l, h) = omega (arith, l)

  refill_lem :
      (n : ℕ) (old : ℕ → Option (Entry D)) (size : ℕ) (new : ℕ → Option (Entry D))
      → 0 < size
      → used new size + used old n < size
      → IsChained new size
      → (slots : ℕ → Option (Entry D)) × (refill n old size new ≡ some slots)
        × Refilled old n size new slots
  unfolding refill
  refill_lem zero old size new p u c = (
    new,
    refl,
    record {
      chained = c;
      counted = omega arith;
      stored = λ e. (λ h. inl h, λ w. elim w [ inl a ↦ a | inr b ↦ absurd (none_stored old e b) ]);
    },
  )
  refill_lem (suc n) old size new p u c = elim (Option-cases (old n)) [
    | inl z ↦
        let (slots, q, r) = refill_lem n old size new p (omega (arith, u)) c in
        (slots, refill-none n old size new z ∙ q, skip-Refilled old n size new slots z r)
    | inr (e, z) ↦
        let here : used old (suc n) ≡ used old n + 1 = ground arith in
        let (f, a, b) = free_slot_exists new size (omega (arith, u, here)) in
        let (s, w) = walk-Stops (λ x. is_free (new x)) size e.hash f p a b in
        let i = (e.hash + s.steps) % size in
        let found = free_slot_lem size new size (e.hash % size) ∙ w in
        let l = mod-lt (e.hash + s.steps) p in
        let counted = used-store new i size e l s.stops in
        let (slots, q, r) =
          refill_lem n old size (store new i e) p (omega (arith, u, here, counted))
            (store-IsChained new size e c s) in
        (
          slots,
          refill-some n old size new e i z found ∙ q,
          put-Refilled old n size i e new slots z l s.stops r,
        )
  ]

  -- resizeHash gives a valid table of the new size with the same entries, where these fill three quarters
  -- of it at most.
  pub resize_hash_lem :
      (new_size : ℕ) (t : HashTable D)
      → 0 < new_size
      → used t.slots t.hash_size ≡ t.hash_count
      → t.hash_count * 4 ≤ new_size * 3
      → (t' : HashTable D) × (resize_hash new_size t ≡ some t')
        × IsValid t'
        × (t'.hash_size ≡ new_size)
        × (t'.hash_count ≡ t.hash_count)
        × ((e : Entry D) → IsStored t'.slots t'.hash_size e ↔ IsStored t.slots t.hash_size e)
  unfolding resize_hash
  resize_hash_lem new_size t p c r =
      let empty = used-none D new_size in
      let (slots, q, f) =
        refill_lem t.hash_size t.slots new_size (λ _. none) p (omega (arith, c, r, p, empty))
          none-IsChained in
      let t' = record t { slots = slots; hash_size = new_size } in
      (
        t',
        ap (λ m. m >>= λ x. some (record t { slots = x; hash_size = new_size })) q,
        record {
          positive = p;
          counted = omega (arith, f.counted, c, empty);
          room = r;
          chained = f.chained;
        },
        refl,
        refl,
        λ e. (
          λ h. elim ((f.stored e).0 h) [ inl a ↦ absurd (nothing_stored new_size e a) | inr b ↦ b ],
          λ h. (f.stored e).1 (inr h),
        ),
      )

  -- A new table is valid.
  pub init_hash_table-IsValid : (size : ℕ) → 0 < size → IsValid (init_hash_table size)
  init_hash_table-IsValid size p =
      let empty = used-none D size in
      record { positive = p; counted = empty; room = omega arith; chained = none-IsChained }
