-- ===== src/Hash/Find.antt =====
-- findHashEntry of src/hash.h on a valid table: it returns, finds what is stored and adds what is not.
use jamiga_jamvm.Base.{
  ℕ, zero, suc, ◌+◌, ◌%◌, ◌≡◌, inl, inr, refl, sym, ap, subst, ◌∙◌, Bool, true, false, arith, ltb,
  if◌then◌else◌, Option, none, some, Bool-cases, Option-cases, ◌>>=◌,
}
use jamiga_jamvm.Hash.Table.{Entry, HashTable, Keys, probe, add_entry, find_hash_entry}
use jamiga_jamvm.Hash.Walk.{walk, Stops, walk-Stops}
use jamiga_jamvm.Hash.Slots.{is_free, IsStored, free_slot_exists}
use jamiga_jamvm.Hash.Resize.{IsValid}
use native.Mathlib.Nat.{mod-lt}

pub true_not_false : true ≡ false → ⊥
true_not_false h = ground (arith, h)

module _ {P D : Type 0} (k : Keys P D) where
  -- COMPARE for the entry `e`.
  abbrev pub is_match : P → Entry D → Bool
  is_match p e = k.compare_to p e.data_ (k.hash_of p) e.hash

  -- The probe stops at a free slot and at a match.
  abbrev pub stops_at : P → Option (Entry D) → Bool
  stops_at p none = true
  stops_at p (some e) = is_match p e

  abbrev pub data_at : Option (Entry D) → Option D
  data_at none = none
  data_at (some e) = some e.data_

  probe_lem :
      (fuel : ℕ) (t : HashTable D) (p : P) (i : ℕ)
      → probe k fuel t p (k.hash_of p) i ≡ (
          walk (λ x. stops_at p (t.slots x)) fuel t.hash_size i >>= λ j.
          some (j, data_at (t.slots j)))
  unfolding walk probe
  probe_lem zero t p i = refl
  probe_lem (suc fuel) t p i = elim (Option-cases (t.slots i)) [
    | inl e ↦ rw (e, probe) (ap (λ x. some (i, data_at x)) (sym e))
    | inr (x, e) ↦ elim (Bool-cases (is_match p x)) [
      | inl q ↦ rw (e, probe, q) (ap (λ x. some (i, data_at x)) (sym e))
      | inr q ↦ rw (e, probe, q) (probe_lem fuel t p ((i + 1) % t.hash_size))
    ]
  ]

  free_stops : (p : P) (o : Option (Entry D)) → is_free o ≡ true → stops_at p o ≡ true
  free_stops p none h = refl
  free_stops p (some e) h = ground (arith, h)

  -- Where the probe for `p` ends: `Stops` with the data that is there.
  pub probe-Stops :
      (t : HashTable D) (p : P)
      → IsValid t
      → (s : Stops (λ x. stops_at p (t.slots x)) t.hash_size (k.hash_of p)) × (let i =
            (k.hash_of p + s.steps) % t.hash_size in
          probe k t.hash_size t p (k.hash_of p) (k.hash_of p % t.hash_size)
          ≡ some (i, data_at (t.slots i)))
  probe-Stops t p v =
      let (f, a, b) =
        free_slot_exists t.slots t.hash_size (ground (arith, v.counted, v.room, v.positive)) in
      let stop : stops_at p (t.slots f) ≡ true = free_stops p (t.slots f) b in
      let (s, w) =
        walk-Stops (λ x. stops_at p (t.slots x)) t.hash_size (k.hash_of p) f v.positive a stop in
      (
        s,
        probe_lem t.hash_size t p (k.hash_of p % t.hash_size)
            ∙ ap (λ m. m >>= λ j. some (j, data_at (t.slots j))) w,
      )

  -- An entry that matches ends the probe before a free slot does.
  pub stored_stops :
      (t : HashTable D) (p : P) (e : Entry D)
      → IsValid t
      → IsStored t.slots t.hash_size e
      → e.hash ≡ k.hash_of p
      → is_match p e ≡ true
      → (s : Stops (λ x. stops_at p (t.slots x)) t.hash_size (k.hash_of p))
      → t.slots ((k.hash_of p + s.steps) % t.hash_size) ≡ none
      → ⊥
  stored_stops t p e v (i, l, h) same q s z =
      let w = v.chained i e l h in
      let slot : ℕ → Option (Entry D) = λ n. t.slots ((k.hash_of p + n) % t.hash_size) in
      let there : slot w.steps ≡ some e =
        ap (λ x. t.slots ((x + w.steps) % t.hash_size)) (sym same) ∙ ap t.slots w.here ∙ h in
      elim (Bool-cases (ltb w.steps s.steps)) [
        | inl a ↦
            let goes_on = s.earlier w.steps (ground arith) in
            true_not_false (sym (ap (stops_at p) there ∙ q) ∙ goes_on)
        | inr a ↦ elim (Bool-cases (ltb s.steps w.steps)) [
          | inl b ↦
              let in_use =
                subst (λ x. is_free (t.slots ((x + s.steps) % t.hash_size)) ≡ false) same
                  (w.passed s.steps (ground arith)) in
              true_not_false (sym (ap is_free z) ∙ in_use)
          | inr b ↦
              let equal : w.steps ≡ s.steps = ground arith in
              true_not_false (sym (ap is_free (ap slot equal ∙ z)) ∙ ap is_free there)
        ]
      ]

  pub find_found :
      (t : HashTable D) (p : P) (b sc : Bool) (i : ℕ) (d : D)
      → probe k t.hash_size t p (k.hash_of p) (k.hash_of p % t.hash_size) ≡ some (i, some d)
      → find_hash_entry k p b sc t ≡ some (some (k.found p d), t)
  unfolding find_hash_entry
  find_found t p b sc i d h = rw h refl

  pub find_missed :
      (t : HashTable D) (p : P) (b sc : Bool) (i : ℕ)
      → probe k t.hash_size t p (k.hash_of p) (k.hash_of p % t.hash_size) ≡ some (i, none)
      → find_hash_entry k p b sc t ≡ (if b then add_entry k t p sc i else some (none, t))
  unfolding find_hash_entry
  find_missed t p b sc i h = rw h refl

  -- An entry that is stored under the hash of `p` and that matches `p` is found, it or another that
  -- matches, and the table stays as it is.
  pub find_hash_entry-IsStored :
      (t : HashTable D) (p : P) (b sc : Bool) (e : Entry D)
      → IsValid t
      → IsStored t.slots t.hash_size e
      → e.hash ≡ k.hash_of p
      → is_match p e ≡ true
      → (e' : Entry D) × IsStored t.slots t.hash_size e'
        × (is_match p e' ≡ true)
        × (find_hash_entry k p b sc t ≡ some (some (k.found p e'.data_), t))
  find_hash_entry-IsStored t p b sc e v st same q =
      let (s, r) = probe-Stops t p v in
      let i = (k.hash_of p + s.steps) % t.hash_size in
      elim (Option-cases (t.slots i)) [
        | inl z ↦ absurd (stored_stops t p e v st same q s z)
        | inr (e', z) ↦ (
          e',
          (i, mod-lt (k.hash_of p + s.steps) v.positive, z),
          sym (ap (stops_at p) z) ∙ s.stops,
          find_found t p b sc i e'.data_ (r ∙ ap (λ x. some (i, data_at x)) z),
        )
      ]
