-- ===== src/Hash/Table.antt =====
-- HashTable, findHashEntry and resizeHash of src/hash.h and src/hash.c. A slot is none where its data is
-- NULL. HASH, COMPARE, PREPARE, FOUND and SCAVENGE are what each user of the macros defines.
use jamiga_jamvm.Base.{
  ℕ, zero, suc, ◌+◌, ◌-◌, ◌*◌, ◌%◌, Bool, ltb, ◌==◌, if◌then◌else◌, Option, none, some, ◌>>=◌, true,
  false,
}

pub record Entry (D : Type 0) : Type 0 where
  pub data_ : D
  pub hash : ℕ

-- `hash_count` is the number of the entries.
pub record HashTable (D : Type 0) : Type 0 where
  pub slots : ℕ → Option (Entry D)
  pub hash_size : ℕ
  pub hash_count : ℕ

-- The macros that a user of the table defines.
pub record Keys (P D : Type 0) : Type 0 where
  pub hash_of : P → ℕ
  pub compare_to : P → D → ℕ → ℕ → Bool
  pub prepare : P → Option D
  pub found : P → D → D
  pub is_scavenged : D → Bool

abbrev pub store : {D : Type 0} → (ℕ → Option (Entry D)) → ℕ → Entry D → ℕ → Option (Entry D)
store slots i e j = if j == i then some e else slots j

-- `entry->data = NULL`.
abbrev pub clear : {D : Type 0} → (ℕ → Option (Entry D)) → ℕ → ℕ → Option (Entry D)
clear slots i j = if j == i then none else slots j

module _ {D : Type 0} where
  -- `while(new_table[new_index].data != NULL)`; none where so many slots are in use.
  unfoldable pub free_slot : ℕ → (ℕ → Option (Entry D)) → ℕ → ℕ → Option ℕ
  free_slot zero slots size i = none
  free_slot (suc fuel) slots size i = elim (slots i) [
    | none ↦ some i
    | some _ ↦ free_slot fuel slots size ((i + 1) % size)
  ]

  -- The `for` of resizeHash, over the slots below `n` of the old table.
  unfoldable pub refill :
      ℕ → (ℕ → Option (Entry D)) → ℕ → (ℕ → Option (Entry D)) → Option (ℕ → Option (Entry D))
  unfolding free_slot
  refill zero old size new = some new
  refill (suc n) old size new = elim (old n) [
    | none ↦ refill n old size new
    | some e ↦ do i ← free_slot size new size (e.hash % size); refill n old size (store new i e)
  ]

  -- resizeHash.
  unfoldable pub resize_hash : ℕ → HashTable D → Option (HashTable D)
  unfolding refill
  resize_hash new_size t = do
    slots ← refill t.hash_size t.slots new_size (λ _. none)
    some (record t { slots = slots; hash_size = new_size })

module _ {P D : Type 0} (k : Keys P D) where
  -- The `for(;;)` of findHashEntry, from slot `i`.
  unfoldable pub probe : ℕ → HashTable D → P → ℕ → ℕ → Option (ℕ × Option D)
  probe zero t p hash i = none
  probe (suc fuel) t p hash i = elim (t.slots i) [
    | none ↦ some (i, none)
    | some e ↦
        if k.compare_to p e.data_ hash e.hash
        then some (i, some e.data_)
        else probe fuel t p hash ((i + 1) % t.hash_size)
  ]

  -- The loop over the entries that clears those with a true SCAVENGE; `cnt` are left.
  unfoldable pub scavenge_from : ℕ → ℕ → ℕ → HashTable D → Option (HashTable D)
  scavenge_from fuel i zero t = some t
  scavenge_from zero i (suc cnt) t = none
  scavenge_from (suc fuel) i (suc cnt) t = elim (t.slots i) [
    | none ↦ scavenge_from fuel (i + 1) (suc cnt) t
    | some e ↦ scavenge_from fuel (i + 1) cnt (
        if k.is_scavenged e.data_
        then record t { slots = clear t.slots i; hash_count = t.hash_count - 1 }
        else t)
  ]

  -- `new_size` after scavenging.
  abbrev pub size_for : HashTable D → ℕ
  size_for t = if ltb (t.hash_size * 2) (t.hash_count * 3) then t.hash_size * 2 else t.hash_size

  -- The table is more than three quarters full.
  unfoldable pub make_room : Bool → HashTable D → Option (HashTable D)
  unfolding resize_hash scavenge_from
  make_room true t =
      scavenge_from t.hash_size 0 t.hash_count t >>= (λ t'. resize_hash (size_for t') t')
  make_room false t = resize_hash (t.hash_size * 2) t

  -- Slot `i` is free and takes the entry of `p`.
  unfoldable pub add_entry : HashTable D → P → Bool → ℕ → Option (Option D × HashTable D)
  unfolding make_room
  add_entry t p scavenge i = elim (k.prepare p) [
    | none ↦ some (none, t)
    | some d ↦
        let t' = record t {
          slots = store t.slots i (record { data_ = d; hash = k.hash_of p });
          hash_count = t.hash_count + 1;
        } in
        if ltb (t'.hash_size * 3) (t'.hash_count * 4)
        then make_room scavenge t' >>= (λ t''. some (some d, t''))
        else some (some d, t')
  ]

  -- findHashEntry.
  unfoldable pub find_hash_entry : P → Bool → Bool → HashTable D → Option (Option D × HashTable D)
  unfolding probe add_entry
  find_hash_entry p add_if_absent scavenge t = do
    (i, r) ← probe t.hash_size t p (k.hash_of p) (k.hash_of p % t.hash_size)
    elim r [
      | some d ↦ some (some (k.found p d), t)
      | none ↦ if add_if_absent then add_entry t p scavenge i else some (none, t)
    ]

-- initHashTable.
abbrev pub init_hash_table : {D : Type 0} → ℕ → HashTable D
init_hash_table initial_size = record {
  slots = λ _. none;
  hash_size = initial_size;
  hash_count = 0;
}
