-- ===== src/Hash/Add.antt =====
-- findHashEntry of src/hash.h with add_if_absent, on a valid table.
use jamiga_jamvm.Base.{
  ℕ, ◌+◌, ◌*◌, ◌%◌, ◌≡◌, ◌⊎◌, inl, inr, ◌↔◌, refl, sym, ap, ◌∙◌, Bool, true, false, arith, ltb,
  Option, none, some, Bool-cases, Option-cases, ◌>>=◌,
}
use jamiga_jamvm.Hash.Table.{
  Entry, HashTable, Keys, store, make_room, probe, add_entry, find_hash_entry,
}
use jamiga_jamvm.Hash.Walk.{Stops}
use jamiga_jamvm.Hash.Slots.{is_free, IsStored, used-store, store-IsChained, store-IsStored}
use jamiga_jamvm.Hash.Resize.{IsValid}
use jamiga_jamvm.Hash.Scavenge.{make_room_lem}
use native.Mathlib.Nat.{mod-lt}
use jamiga_jamvm.Hash.Find.{
  is_match, stops_at, data_at, probe-Stops, find_missed, find_found, true_not_false,
}

module _ {P D : Type 0} (k : Keys P D) where
  -- The entry of `p`, and the table with it in slot `i`.
  abbrev pub entry_of : P → D → Entry D
  entry_of p d = record { data_ = d; hash = k.hash_of p }

  abbrev added : HashTable D → P → D → ℕ → HashTable D
  added t p d i = record t { slots = store t.slots i (entry_of p d); hash_count = t.hash_count + 1 }

  add_fits :
      (t : HashTable D) (p : P) (sc : Bool) (d : D) (i : ℕ)
      → k.prepare p ≡ some d
      → ltb (t.hash_size * 3) ((t.hash_count + 1) * 4) ≡ false
      → add_entry k t p sc i ≡ some (some d, added t p d i)
  unfolding add_entry
  add_fits t p sc d i h f = rw (h, f, add_entry) refl

  add_full :
      (t : HashTable D) (p : P) (sc : Bool) (d : D) (i : ℕ)
      → k.prepare p ≡ some d
      → ltb (t.hash_size * 3) ((t.hash_count + 1) * 4) ≡ true
      → add_entry k t p sc i ≡ (make_room k sc (added t p d i) >>= λ t'. some (some d, t'))
  unfolding add_entry
  add_full t p sc d i h f = rw (h, f, add_entry) refl

  add_none :
      (t : HashTable D) (p : P) (sc : Bool) (i : ℕ)
      → k.prepare p ≡ none
      → add_entry k t p sc i ≡ some (none, t)
  unfolding add_entry
  add_none t p sc i h = rw (h, add_entry) refl

  -- A free slot at the end of the probe takes the new entry.
  add_entry_lem :
      (t : HashTable D) (p : P) (sc : Bool) (d : D)
      → IsValid t
      → k.prepare p ≡ some d
      → (s : Stops (λ x. is_free (t.slots x)) t.hash_size (k.hash_of p))
      → (t' : HashTable D) × (add_entry k t p sc ((k.hash_of p + s.steps) % t.hash_size)
          ≡ some (some d, t'))
        × IsValid t'
        × ((x : Entry D)
            → IsStored t'.slots t'.hash_size x
            → IsStored t.slots t.hash_size x ⊎ (x ≡ entry_of p d))
        × ((x : Entry D)
            → (sc ≡ false) ⊎ (k.is_scavenged x.data_ ≡ false)
            → IsStored t.slots t.hash_size x ⊎ (x ≡ entry_of p d)
            → IsStored t'.slots t'.hash_size x)
  add_entry_lem t p sc d v h s =
      let e = entry_of p d in
      let i = (k.hash_of p + s.steps) % t.hash_size in
      let l = mod-lt (k.hash_of p + s.steps) v.positive in
      let n = used-store t.slots i t.hash_size e l s.stops ∙ ap (λ x. x + 1) v.counted in
      let stored = λ (x : Entry D). store-IsStored t.slots t.hash_size i e x l s.stops in
      elim (Bool-cases (ltb (t.hash_size * 3) ((t.hash_count + 1) * 4))) [
        | inl full ↦
            let (t', q, v', old, kept) =
              make_room_lem k sc (added t p d i) v.positive n (omega (arith, v.room)) in
            (
              t',
              add_full t p sc d i h full ∙ ap (λ m. m >>= λ t''. some (some d, t'')) q,
              v',
              λ x a. (stored x).0 (old x a),
              λ x live b. kept x live ((stored x).1 b),
            )
        | inr fits ↦ (
          added t p d i,
          add_fits t p sc d i h fits,
          record {
            positive = v.positive;
            counted = n;
            room = ground arith;
            chained = store-IsChained t.slots t.hash_size e v.chained s;
          },
          λ x. (stored x).0,
          λ x live. (stored x).1,
        )
      ]

  in_use : (p : P) (o : Option (Entry D)) → stops_at k p o ≡ false → is_free o ≡ false
  in_use p none h = h
  in_use p (some e) h = refl

  -- A probe that ends at a free slot has passed used ones only.
  abbrev at_free :
      (t : HashTable D) (p : P)
      (s : Stops (λ x. stops_at k p (t.slots x)) t.hash_size (k.hash_of p))
      → t.slots ((k.hash_of p + s.steps) % t.hash_size) ≡ none
      → Stops (λ x. is_free (t.slots x)) t.hash_size (k.hash_of p)
  at_free t p s z = record {
    steps = s.steps;
    within = s.within;
    stops = ap is_free z;
    earlier = λ i l. in_use p (t.slots ((k.hash_of p + i) % t.hash_size)) (s.earlier i l);
  }

  -- An entry that no stored one matches is added: afterwards the table holds an entry `x` that is not
  -- scavenged exactly where it held it before or `x` is the new one.
  pub find_hash_entry_adds :
      (t : HashTable D) (p : P) (sc : Bool) (d : D) (x : Entry D)
      → IsValid t
      → k.prepare p ≡ some d
      → ((e : Entry D) → IsStored t.slots t.hash_size e → is_match k p e ≡ false)
      → (sc ≡ false) ⊎ (k.is_scavenged x.data_ ≡ false)
      → (t' : HashTable D) × (find_hash_entry k p true sc t ≡ some (some d, t'))
        × IsValid t'
        × (IsStored t'.slots t'.hash_size x ↔ (IsStored t.slots t.hash_size x ⊎ (x ≡ entry_of p d)))
  find_hash_entry_adds t p sc d x v h absent live =
      let (s, r) = probe-Stops k t p v in
      let i = (k.hash_of p + s.steps) % t.hash_size in
      elim (Option-cases (t.slots i)) [
        | inl z ↦
            let (t', q, v', old, kept) = add_entry_lem t p sc d v h (at_free t p s z) in
            (
              t',
              find_missed k t p true sc i (r ∙ ap (λ y. some (i, data_at k y)) z) ∙ q,
              v',
              (old x, kept x live),
            )
        | inr (e, z) ↦
            let no = absent e (i, mod-lt (k.hash_of p + s.steps) v.positive, z) in
            absurd (true_not_false (sym s.stops ∙ ap (stops_at k p) z ∙ no))
      ]

  missed :
      (t : HashTable D) (p : P) (b sc : Bool)
      → IsValid t
      → (s : Stops (λ x. is_free (t.slots x)) t.hash_size (k.hash_of p))
      → probe k t.hash_size t p (k.hash_of p) (k.hash_of p % t.hash_size)
        ≡ some ((k.hash_of p + s.steps) % t.hash_size, none)
      → (r : Option D × HashTable D) × (find_hash_entry k p b sc t ≡ some r) × IsValid r.1
  missed t p false sc v s r = ((none, t), find_missed k t p false sc _ r, v)
  missed t p true sc v s r = elim (Option-cases (k.prepare p)) [
    | inl h ↦
        let i = (k.hash_of p + s.steps) % t.hash_size in
        ((none, t), find_missed k t p true sc i r ∙ add_none t p sc i h, v)
    | inr (d, h) ↦
        let (t', q, v', _, _) = add_entry_lem t p sc d v h s in
        ((some d, t'), find_missed k t p true sc _ r ∙ q, v')
  ]

  -- On a valid table findHashEntry returns, whatever it looks for and whether or not it scavenges, and
  -- leaves a valid table.
  pub find_hash_entry-IsValid :
      (t : HashTable D) (p : P) (b sc : Bool)
      → IsValid t
      → (r : Option D × HashTable D) × (find_hash_entry k p b sc t ≡ some r) × IsValid r.1
  find_hash_entry-IsValid t p b sc v =
      let (s, r) = probe-Stops k t p v in
      let i = (k.hash_of p + s.steps) % t.hash_size in
      elim (Option-cases (t.slots i)) [
        | inr (e, z) ↦ (
          (some (k.found p e.data_), t),
          find_found k t p b sc i e.data_ (r ∙ ap (λ y. some (i, data_at k y)) z),
          v,
        )
        | inl z ↦ missed t p b sc v (at_free t p s z) (r ∙ ap (λ y. some (i, data_at k y)) z)
      ]
