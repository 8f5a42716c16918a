-- ===== src/Hash/Walk.antt =====
-- Linear probing as src/hash.h and src/hash.c do it: the slots from one on, around the end of the table,
-- up to the first at which the loop stops.
use jamiga_jamvm.Base.{
  ℕ, zero, suc, ◌+◌, ◌-◌, ◌%◌, ◌≤◌, ◌<◌, ◌≡◌, inl, inr, refl, sym, ap, subst, ◌∙◌, Bool, true,
  false, arith, ltb, ◌==◌, if◌then◌else◌, Option, none, some, Bool-cases,
}
use native.Mathlib.Nat.{mod-add-mod, mod-lt, mod-eq_of_lt, add-mod_left}

unfoldable pub walk : (ℕ → Bool) → ℕ → ℕ → ℕ → Option ℕ
walk stop zero size i = none
walk stop (suc fuel) size i =
    let rest = walk stop fuel size ((i + 1) % size) in if stop i then some i else rest

-- The walk from the home slot of a hash stops `steps` slots after it, and no earlier.
pub record Stops (stop : ℕ → Bool) (size hash : ℕ) : Type 0 where
  pub steps : ℕ
  pub within : steps < size
  pub stops : stop ((hash + steps) % size) ≡ true
  pub earlier : (i : ℕ) → i < steps → stop ((hash + i) % size) ≡ false

module _ (stop : ℕ → Bool) (size hash : ℕ) where
  -- Slot `j` does not stop the walk, and neither do those from the next one to before `k`.
  from_next :
      (j k : ℕ)
      → stop ((hash + j) % size) ≡ false
      → ((i : ℕ) → j + 1 ≤ i → i < k → stop ((hash + i) % size) ≡ false)
      → (i : ℕ) → j ≤ i
      → i < k
      → stop ((hash + i) % size) ≡ false
  from_next j k e d i a b = elim (Bool-cases (j == i)) [
    | inl q ↦
        let same : j ≡ i = ground arith in subst (λ x. stop ((hash + x) % size) ≡ false) same e
    | inr q ↦ d i (ground (arith, a)) b
  ]

  not_here :
      (j m : ℕ) → j ≤ m → stop ((hash + m) % size) ≡ true → stop ((hash + j) % size) ≡ false → j < m
  not_here j m l s e = elim (Bool-cases (j == m)) [
    | inl q ↦
        let same : j ≡ m = ground arith in
        let e' : stop ((hash + m) % size) ≡ false =
          subst (λ x. stop ((hash + x) % size) ≡ false) same e in
        ground (arith, s, e')
    | inr q ↦ ground (arith, l)
  ]

  walk_on :
      (fuel j : ℕ)
      → stop ((hash + j) % size) ≡ false
      → walk stop (suc fuel) size ((hash + j) % size)
        ≡ walk stop fuel size ((hash + (j + 1)) % size)
  unfolding walk
  walk_on fuel j e =
      let next : ((hash + j) % size + 1) % size ≡ (hash + (j + 1)) % size =
        mod-add-mod (hash + j) size 1 ∙ ap (λ x. x % size) (omega arith) in
      rw (e, next) refl

  -- From `j` on, with a slot `m` ahead at which the walk would stop.
  walk_from :
      (fuel j m : ℕ)
      → j ≤ m
      → m < j + fuel
      → stop ((hash + m) % size) ≡ true
      → (k : ℕ) × (walk stop fuel size ((hash + j) % size) ≡ some ((hash + k) % size))
        × (j ≤ k)
        × (k ≤ m)
        × (stop ((hash + k) % size) ≡ true)
        × ((i : ℕ) → j ≤ i → i < k → stop ((hash + i) % size) ≡ false)
  unfolding walk
  walk_from zero j m l r s = absurd (omega (arith, l, r))
  walk_from (suc fuel) j m l r s = elim (Bool-cases (stop ((hash + j) % size))) [
    | inl e ↦ (j, rw e refl, omega arith, l, e, λ i a b. absurd (omega (arith, a, b)))
    | inr e ↦
        let more : j < m = not_here j m l s e in
        let (k, w, a, b, c, d) =
          walk_from fuel (j + 1) m (omega (arith, more)) (omega (arith, r)) s in
        (k, walk_on fuel j e ∙ w, omega (arith, a), b, c, from_next j k e d)
  ]

  -- Every slot is at some distance from the home slot.
  reach : (f : ℕ) → 0 < size → f < size → (m : ℕ) × (m < size) × ((hash + m) % size ≡ f)
  reach f p l =
      let r = hash % size in
      let below : r < size = mod-lt hash p in
      elim (Bool-cases (ltb f r)) [
        | inl a ↦
            let sum : r + (size - r + f) ≡ size + f = ground (arith, below) in
            (
              size - r + f,
              ground (arith, below),
              sym (mod-add-mod hash size (size - r + f))
                  ∙ ap (λ x. x % size) sum
                  ∙ add-mod_left size f
                  ∙ mod-eq_of_lt l,
            )
        | inr a ↦
            let sum : r + (f - r) ≡ f = ground (arith, below) in
            (
              f - r,
              ground (arith, below),
              sym (mod-add-mod hash size (f - r)) ∙ ap (λ x. x % size) sum ∙ mod-eq_of_lt l,
            )
      ]

  -- A walk over a table with a slot at which it would stop ends within as many rounds as there are slots.
  pub walk-Stops :
      (f : ℕ)
      → 0 < size
      → f < size
      → stop f ≡ true
      → (s : Stops stop size hash) × (walk stop size size (hash % size)
          ≡ some ((hash + s.steps) % size))
  walk-Stops f p l s =
      let (m, a, e) = reach f p l in
      let (k, w, b, c, d, g) =
        walk_from size 0 m (omega arith) (omega (arith, a))
          (subst (λ x. stop x ≡ true) (sym e) s) in
      (
        record {
          steps = k;
          within = omega (arith, a, c);
          stops = d;
          earlier = λ i x. g i (omega arith) x;
        },
        ap (λ x. walk stop size size (x % size)) (omega arith) ∙ w,
      )
