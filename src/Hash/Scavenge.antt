-- ===== src/Hash/Scavenge.antt =====
-- The scavenging of a full table in findHashEntry (src/hash.h).
use jamiga_jamvm.Base.{
  ℕ, zero, suc, ◌+◌, ◌-◌, ◌*◌, ◌≤◌, ◌<◌, ◌≡◌, ◌⊎◌, inl, inr, refl, sym, ap, subst, ◌∙◌, Bool, true,
  false, arith, ◌==◌, Option, none, some, Bool-cases, Option-cases, ◌>>=◌,
}
use jamiga_jamvm.Hash.Table.{
  Entry, HashTable, Keys, clear, resize_hash, scavenge_from, size_for, make_room,
}
use jamiga_jamvm.Hash.Slots.{is_free, used, IsStored}
use jamiga_jamvm.Hash.Resize.{IsValid, resize_hash_lem}
use jamiga_jamvm.Hash.Find.{true_not_false}

module _ {D : Type 0} where
  used-clear_after :
      (slots : ℕ → Option (Entry D)) (i n : ℕ) → n ≤ i → used (clear slots i) n ≡ used slots n
  used-clear_after slots i zero l = refl
  used-clear_after slots i (suc n) l =
      let other : (n == i) ≡ false = ground (arith, l) in
      let same = used-clear_after slots i n (omega (arith, l)) in rw (other, same) refl

  used-clear :
      (slots : ℕ → Option (Entry D)) (i n : ℕ)
      → i < n
      → is_free (slots i) ≡ false
      → used (clear slots i) n + 1 ≡ used slots n
  used-clear slots i zero l f = absurd (omega (arith, l))
  used-clear slots i (suc n) l f = elim (Bool-cases (n == i)) [
    | inl q ↦
        let same = used-clear_after slots i n (ground arith) in
        let full : is_free (slots n) ≡ false =
          subst (λ x. is_free (slots x) ≡ false) (ground arith) f in
        rw (q, same, full) (omega arith)
    | inr q ↦ let same = used-clear slots i n (ground (arith, l)) f in rw q (ground (arith, same))
  ]

  used_mono : (slots : ℕ → Option (Entry D)) (i n : ℕ) → i ≤ n → used slots i ≤ used slots n
  used_mono slots i zero l = let same : i ≡ 0 = omega (arith, l) in rw same (omega arith)
  used_mono slots i (suc n) l = elim (Bool-cases (i == suc n)) [
    | inl q ↦ let same : i ≡ suc n = ground arith in rw same (omega arith)
    | inr q ↦ let below = used_mono slots i n (ground (arith, l)) in omega (arith, below)
  ]

  clear_inv :
      (slots : ℕ → Option (Entry D)) (i j : ℕ) (e : Entry D)
      → clear slots i j ≡ some e
      → slots j ≡ some e
  clear_inv slots i j e h = elim (Bool-cases (j == i)) [
    | inl q ↦ ground (arith, h, q)
    | inr q ↦ ground (arith, h, q)
  ]

  -- Only the entry in slot `i` is lost.
  clear_keeps :
      (slots : ℕ → Option (Entry D)) (i j : ℕ) (e e' : Entry D)
      → slots i ≡ some e
      → slots j ≡ some e'
      → (e ≡ e' → ⊥)
      → clear slots i j ≡ some e'
  clear_keeps slots i j e e' h h' n = elim (Bool-cases (j == i)) [
    | inl q ↦
        let there : some e ≡ some e' = sym h ∙ ap slots (ground arith) ∙ h' in
        absurd (n (ground (arith, there)))
    | inr q ↦ rw q h'
  ]

module _ {P D : Type 0} (k : Keys P D) where
  -- What scavenging does to a table: its size stays, its count is right, and it loses entries with a true
  -- SCAVENGE only.
  pub record Scavenged (t t' : HashTable D) : Type 0 where
    pub size : t'.hash_size ≡ t.hash_size
    pub counted : used t'.slots t.hash_size ≡ t'.hash_count
    pub fewer : t'.hash_count ≤ t.hash_count
    pub old : (e : Entry D) → IsStored t'.slots t.hash_size e → IsStored t.slots t.hash_size e
    pub kept :
        (e : Entry D)
        → IsStored t.slots t.hash_size e
        → k.is_scavenged e.data_ ≡ false
        → IsStored t'.slots t.hash_size e

  abbrev cleared : HashTable D → ℕ → HashTable D
  cleared t i = record t { slots = clear t.slots i; hash_count = t.hash_count - 1 }

  cleared-Scavenged :
      (t t' : HashTable D) (i : ℕ) (e : Entry D)
      → t.slots i ≡ some e
      → k.is_scavenged e.data_ ≡ true
      → 0 < t.hash_count
      → Scavenged (cleared t i) t'
      → Scavenged t t'
  cleared-Scavenged t t' i e h q p s = record {
    size = s.size;
    counted = s.counted;
    fewer = omega (arith, s.fewer);
    old = λ x w. let (j, l, g) = s.old x w in (j, l, clear_inv t.slots i j x g);
    kept = λ x (j, l, g) n.
        s.kept x
          (
            j,
            l,
            clear_keeps t.slots i j e x h g
                (λ same. true_not_false (sym q ∙ ap (λ y. k.is_scavenged y.data_) same ∙ n)),
          )
          n;
  }

  scavenge-free :
      (fuel i cnt : ℕ) (t : HashTable D)
      → t.slots i ≡ none
      → scavenge_from k (suc fuel) i (suc cnt) t ≡ scavenge_from k fuel (i + 1) (suc cnt) t
  unfolding scavenge_from
  scavenge-free fuel i cnt t h = rw (h, scavenge_from) refl

  scavenge-kept :
      (fuel i cnt : ℕ) (t : HashTable D) (e : Entry D)
      → t.slots i ≡ some e
      → k.is_scavenged e.data_ ≡ false
      → scavenge_from k (suc fuel) i (suc cnt) t ≡ scavenge_from k fuel (i + 1) cnt t
  unfolding scavenge_from
  scavenge-kept fuel i cnt t e h q = rw (h, scavenge_from, q) refl

  scavenge-cleared :
      (fuel i cnt : ℕ) (t : HashTable D) (e : Entry D)
      → t.slots i ≡ some e
      → k.is_scavenged e.data_ ≡ true
      → scavenge_from k (suc fuel) i (suc cnt) t ≡ scavenge_from k fuel (i + 1) cnt (cleared t i)
  unfolding scavenge_from
  scavenge-cleared fuel i cnt t e h q = rw (h, scavenge_from, q) refl

  used-next_free :
      (t : HashTable D) (i : ℕ) → t.slots i ≡ none → used t.slots (i + 1) ≡ used t.slots i
  used-next_free t i h = let next : i + 1 ≡ suc i = omega arith in rw (next, h) (omega arith)

  used-next :
      (t : HashTable D) (i : ℕ) (e : Entry D)
      → t.slots i ≡ some e
      → used t.slots (i + 1) ≡ used t.slots i + 1
  used-next t i e h = let next : i + 1 ≡ suc i = omega arith in rw (next, h) (omega arith)

  used-next_cleared : (t : HashTable D) (i : ℕ) → used (clear t.slots i) (i + 1) ≡ used t.slots i
  used-next_cleared t i =
      let next : i + 1 ≡ suc i = omega arith in
      let here : (i == i) ≡ true = ground arith in
      let before = used-clear_after t.slots i i (omega arith) in
      rw (next, here, before) (omega arith)

  scavenge_lem :
      (fuel i cnt : ℕ) (t : HashTable D)
      → i + fuel ≡ t.hash_size
      → used t.slots t.hash_size ≡ t.hash_count
      → used t.slots t.hash_size ≡ used t.slots i + cnt
      → (t' : HashTable D) × (scavenge_from k fuel i cnt t ≡ some t') × Scavenged t t'
  unfolding scavenge_from
  scavenge_lem fuel i zero t f c u = (
    t,
    refl,
    record { size = refl; counted = c; fewer = omega arith; old = λ e w. w; kept = λ e w n. w },
  )
  scavenge_lem zero i (suc cnt) t f c u =
      let same : i ≡ t.hash_size = omega (arith, f) in
      let all = ap (used t.slots) same in absurd (omega (arith, all, u))
  scavenge_lem (suc fuel) i (suc cnt) t f c u = elim (Option-cases (t.slots i)) [
    | inl h ↦
        let n = used-next_free t i h in
        let (t', q, s) =
          scavenge_lem fuel (i + 1) (suc cnt) t (omega (arith, f)) c (omega (arith, u, n)) in
        (t', scavenge-free fuel i cnt t h ∙ q, s)
    | inr (e, h) ↦ elim (Bool-cases (k.is_scavenged e.data_)) [
      | inr keep ↦
          let n = used-next t i e h in
          let (t', q, s) =
            scavenge_lem fuel (i + 1) cnt t (omega (arith, f)) c (omega (arith, u, n)) in
          (t', scavenge-kept fuel i cnt t e h keep ∙ q, s)
      | inl gone ↦
          let n = used-next_cleared t i in
          let one = used-clear t.slots i t.hash_size (omega (arith, f)) (ap is_free h) in
          let positive : 0 < t.hash_count = omega (arith, c, u) in
          let (t', q, s) =
            scavenge_lem fuel (i + 1) cnt (cleared t i) (omega (arith, f)) (omega (arith, one, c))
              (omega (arith, u, n, one)) in
          (
            t',
            scavenge-cleared fuel i cnt t e h gone ∙ q,
            cleared-Scavenged t t' i e h gone positive s,
          )
    ]
  ]

  -- The size after scavenging is large enough for what is left.
  size_for_lem :
      (t t₁ : HashTable D)
      → Scavenged t t₁
      → 0 < t.hash_size
      → t.hash_count * 4 ≤ t.hash_size * 3 + 4
      → (0 < size_for k t₁) × (t₁.hash_count * 4 ≤ size_for k t₁ * 3)
  size_for_lem t t₁ s p r = (ground (arith, p, s.size), ground (arith, p, r, s.fewer, s.size))

  -- make_room on a table that is one entry too full gives a valid table.
  pub make_room_lem :
      (scavenge : Bool) (t : HashTable D)
      → 0 < t.hash_size
      → used t.slots t.hash_size ≡ t.hash_count
      → t.hash_count * 4 ≤ t.hash_size * 3 + 4
      → (t' : HashTable D) × (make_room k scavenge t ≡ some t')
        × IsValid t'
        × ((e : Entry D) → IsStored t'.slots t'.hash_size e → IsStored t.slots t.hash_size e)
        × ((e : Entry D)
            → (scavenge ≡ false) ⊎ (k.is_scavenged e.data_ ≡ false)
            → IsStored t.slots t.hash_size e
            → IsStored t'.slots t'.hash_size e)
  unfolding make_room
  make_room_lem false t p c r =
      let (t', q, v, _, _, same) =
        resize_hash_lem (t.hash_size * 2) t (omega (arith, p)) c (omega (arith, p, r)) in
      (t', q, v, λ e. (same e).0, λ e w. (same e).1)
  make_room_lem true t p c r =
      let zero_used : used t.slots t.hash_size ≡ used t.slots 0 + t.hash_count = omega (arith, c) in
      let (t₁, q₁, s) = scavenge_lem t.hash_size 0 t.hash_count t (omega arith) c zero_used in
      let n = size_for k t₁ in
      let (positive, room) = size_for_lem t t₁ s p r in
      let counted : used t₁.slots t₁.hash_size ≡ t₁.hash_count =
        subst (λ x. used t₁.slots x ≡ t₁.hash_count) (sym s.size) s.counted in
      let (t', q, v, _, _, same) = resize_hash_lem n t₁ positive counted room in
      (
        t',
        ap (λ m. m >>= λ x. resize_hash (size_for k x) x) q₁ ∙ q,
        v,
        λ e w. s.old e (subst (λ x. IsStored t₁.slots x e) s.size ((same e).0 w)),
        λ e live w.
            (same e).1
              (subst (λ x. IsStored t₁.slots x e) (sym s.size) (s.kept e w (ground (arith, live)))),
      )
