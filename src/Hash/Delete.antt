-- ===== src/Hash/Delete.antt =====
-- deleteHashEntry of src/hash.h.
use jamiga_jamvm.Base.{
  ℕ, zero, suc, ◌+◌, ◌%◌, ◌<◌, ◌≡◌, true, arith, ◌⊎◌, inl, inr, refl, sym, ap, ap₂, subst, ◌∙◌,
  ◌==◌, if◌then◌else◌, Option, none, some, Bool-cases, Option-cases, ◌>>=◌,
}
use jamiga_jamvm.Hash.Table.{Entry, HashTable, Keys, probe}
use jamiga_jamvm.Hash.Slots.{is_free, used, IsChained, IsStored}
use jamiga_jamvm.Hash.Resize.{IsValid}
use jamiga_jamvm.Hash.Find.{data_at, probe-Stops, true_not_false, is_match, stops_at, stored_stops}
use native.Mathlib.Nat.{mod-lt}

-- `data = DELETED`: the slot stays in use, and keeps its hash.
abbrev pub delete_in : {D : Type 0} → D → Option (Entry D) → Option (Entry D)
delete_in deleted none = none
delete_in deleted (some e) = some (record e { data_ = deleted })

abbrev pub delete_at : {D : Type 0} → D → (ℕ → Option (Entry D)) → ℕ → ℕ → Option (Entry D)
delete_at deleted slots i j = if j == i then delete_in deleted (slots j) else slots j

module _ {P D : Type 0} (k : Keys P D) (deleted : D) where
  -- deleteHashEntry.
  pub delete_hash_entry : P → HashTable D → Option (HashTable D)
  unfolding probe
  delete_hash_entry p t = do
    (i, r) ← probe k t.hash_size t p (k.hash_of p) (k.hash_of p % t.hash_size)
    elim r [ some _ ↦ some (record t { slots = delete_at deleted t.slots i }) | none ↦ some t ]

  same_use :
      (slots : ℕ → Option (Entry D)) (i j : ℕ)
      → is_free (delete_at deleted slots i j) ≡ is_free (slots j)
  same_use slots i j = elim (Bool-cases (j == i)) [
    | inl q ↦ elim (Option-cases (slots j)) [ inl e ↦ rw (q, e) refl | inr (x, e) ↦ rw (q, e) refl ]
    | inr q ↦ rw q refl
  ]

  used-delete :
      (slots : ℕ → Option (Entry D)) (i n : ℕ) → used (delete_at deleted slots i) n ≡ used slots n
  used-delete slots i zero = refl
  used-delete slots i (suc n) =
      ap₂ (λ m f. m + (if f then 0 else 1)) (used-delete slots i n) (same_use slots i n)

  abbrev hash_in : Option (Entry D) → ℕ
  hash_in none = 0
  hash_in (some e) = e.hash

  in_slot :
      (o : Option (Entry D)) (e : Entry D)
      → delete_in deleted o ≡ some e
      → (e' : Entry D) × (o ≡ some e') × (e'.hash ≡ e.hash)
  in_slot none e h = absurd (true_not_false (ap is_free h))
  in_slot (some x) e h = (x, refl, ap hash_in h)

  -- The entry that a slot had before has the same hash.
  hash_before :
      (slots : ℕ → Option (Entry D)) (i j : ℕ) (e : Entry D)
      → delete_at deleted slots i j ≡ some e
      → (e' : Entry D) × (slots j ≡ some e') × (e'.hash ≡ e.hash)
  hash_before slots i j e h = elim (Bool-cases (j == i)) [
    | inl q ↦
        in_slot (slots j) e
          (subst (λ b. (if b then delete_in deleted (slots j) else slots j) ≡ some e) q h)
    | inr q ↦
        (e, subst (λ b. (if b then delete_in deleted (slots j) else slots j) ≡ some e) q h, refl)
  ]

  delete-IsChained :
      (slots : ℕ → Option (Entry D)) (size i : ℕ)
      → IsChained slots size
      → IsChained (delete_at deleted slots i) size
  delete-IsChained slots size i c j e l h =
      let (x, z, same) = hash_before slots i j e h in
      let p = c j x l z in
      record {
        steps = p.steps;
        within = p.within;
        here = ap (λ y. (y + p.steps) % size) (sym same) ∙ p.here;
        passed = λ m b.
            same_use slots i ((e.hash + m) % size)
            ∙ ap (λ y. is_free (slots ((y + m) % size))) (sym same)
            ∙ p.passed m b;
      }

  deletes :
      (t : HashTable D) (p : P) (i : ℕ) (d : D)
      → probe k t.hash_size t p (k.hash_of p) (k.hash_of p % t.hash_size) ≡ some (i, some d)
      → delete_hash_entry p t ≡ some (record t { slots = delete_at deleted t.slots i })
  unfolding delete_hash_entry
  deletes t p i d h = rw h refl

  keeps :
      (t : HashTable D) (p : P) (i : ℕ)
      → probe k t.hash_size t p (k.hash_of p) (k.hash_of p % t.hash_size) ≡ some (i, none)
      → delete_hash_entry p t ≡ some t
  unfolding delete_hash_entry
  keeps t p i h = rw h refl

  -- The slot of a matching entry has the mark DELETED, with the entry's hash, and every other slot is as it
  -- was.
  abbrev pub IsMarkedDeleted : P → HashTable D → HashTable D → Type 0
  IsMarkedDeleted p t t' =
      (i : ℕ) × (e : Entry D) × (i < t.hash_size)
      × (t.slots i ≡ some e)
      × (is_match k p e ≡ true)
      × ((j : ℕ) → t'.slots j ≡ (if j == i then some (record e { data_ = deleted }) else t.slots j))

  -- An entry that is stored under the hash of `p` and matches it.
  abbrev pub IsPresent : P → HashTable D → Type 0
  IsPresent p t =
      (e : Entry D) × IsStored t.slots t.hash_size e
      × (e.hash ≡ k.hash_of p)
      × (is_match k p e ≡ true)

  deleted_slot :
      (slots : ℕ → Option (Entry D)) (i : ℕ) (e : Entry D)
      → slots i ≡ some e
      → (j : ℕ)
      → delete_at deleted slots i j
        ≡ (if j == i then some (record e { data_ = deleted }) else slots j)
  deleted_slot slots i e z j = elim (Bool-cases (j == i)) [
    | inl q ↦
        let same : j ≡ i = ground (arith, q) in rw q (ap (delete_in deleted) (ap slots same ∙ z))
    | inr q ↦ rw q refl
  ]

  -- On a valid table deleteHashEntry returns, and the table stays valid, of the same size and with as many
  -- slots in use. Either no stored entry of that hash matches, and the table is as it was, or the slot of a
  -- matching entry is marked as deleted, and every other slot is as it was.
  pub delete_hash_entry-IsValid :
      (t : HashTable D) (p : P)
      → IsValid t
      → (t' : HashTable D) × (delete_hash_entry p t ≡ some t')
        × IsValid t'
        × (t'.hash_size ≡ t.hash_size)
        × (t'.hash_count ≡ t.hash_count)
        × (((t' ≡ t) × (¬ (IsPresent p t))) ⊎ IsMarkedDeleted p t t')
  delete_hash_entry-IsValid t p v =
      let (s, r) = probe-Stops k t p v in
      let i = (k.hash_of p + s.steps) % t.hash_size in
      elim (Option-cases (t.slots i)) [
        | inl z ↦ (
          t,
          keeps t p i (r ∙ ap (λ y. some (i, data_at k y)) z),
          v,
          refl,
          refl,
          inl (refl, λ (e, st, same, q). stored_stops k t p e v st same q s z),
        )
        | inr (e, z) ↦ (
          record t { slots = delete_at deleted t.slots i },
          deletes t p i e.data_ (r ∙ ap (λ y. some (i, data_at k y)) z),
          record {
            positive = v.positive;
            counted = used-delete t.slots i t.hash_size ∙ v.counted;
            room = v.room;
            chained = delete-IsChained t.slots t.hash_size i v.chained;
          },
          refl,
          refl,
          inr (
            i,
            e,
            mod-lt (k.hash_of p + s.steps) v.positive,
            z,
            sym (ap (stops_at k p) z) ∙ s.stops,
            deleted_slot t.slots i e z,
          ),
        )
      ]
