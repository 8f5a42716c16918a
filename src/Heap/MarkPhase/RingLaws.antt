-- ===== src/Heap/MarkPhase/RingLaws.antt =====
-- The circular lists of src/alloc.c keep what is added to them, and where they lose it.
use mathlib.Core.List.{Memᴰ}
use mathlib.Core.List.Memᴰ
use native.Mathlib.Nat.{mod_self, mod-eq_of_lt, mod-lt}
use jamiga_jamvm.Base.{
  ℕ, zero, suc, ◌+◌, ◌-◌, ◌%◌, ◌≤◌, ◌<◌, ◌≡◌, ◌≢◌, refl, sym, subst, ap, ap₂, ◌∙◌, ◌⊎◌, inl, inr,
  true, false, ◌&&◌, ◌||◌, List, [], ◌∷◌, ◌++◌, append_assoc, append-nil, arith, ◌==◌, ==_iff, ltb,
  if◌then◌else◌, Bool-cases, none, some,
}
use jamiga_jamvm.Heap.MarkPhase.ObjectList.{
  list_increment, ObjectList, grow, write_slot, add_to_object_list, entries, contents,
  begin_process, next_process,
}

-- The bounds of a list. An empty list starts at its size.
pub record IsRing (l : ObjectList) : Type 0 where
  pub starts : l.start ≤ l.size
  pub ends : l.end ≤ l.size
  pub empty : l.end ≡ 0 → l.start ≡ l.size

entries-append :
    (f : ℕ → ℕ) (i n m : ℕ) → entries f i (n + m) ≡ entries f i n ++ entries f (i + n) m
entries-append f i zero m =
    let none_first : 0 + m ≡ m = omega arith in
    let same : i ≡ i + 0 = omega arith in ap (entries f i) none_first ∙ ap (λ k. entries f k m) same
entries-append f i (suc n) m =
    let count : suc n + m ≡ suc (n + m) = omega arith in
    let at : i + 1 + n ≡ i + suc n = omega arith in
    ap (entries f i) count
    ∙ ap (λ es. f i ∷ es)
        (entries-append f (i + 1) n m ∙ ap (λ k. entries f (i + 1) n ++ entries f k m) at)

entries-last : (f : ℕ → ℕ) (i n : ℕ) → entries f i (n + 1) ≡ entries f i n ++ f (i + n) ∷ []
entries-last f i n = entries-append f i n 1

-- A write elsewhere is not seen.
entries-write :
    (f : ℕ → ℕ) (k v i n : ℕ)
    → (k < i) ⊎ (i + n ≤ k)
    → entries (λ j. if j == k then v else f j) i n ≡ entries f i n
entries-write f k v i zero h = refl
entries-write f k v i (suc n) h =
    ap₂ ◌∷◌ (ground (arith, h)) (entries-write f k v (i + 1) n (ground (arith, h)))

contents_straight :
    (l : ObjectList) → l.start < l.end → contents l ≡ entries l.list l.start (l.end - l.start)
unfolding contents
contents_straight l h = let t : ltb l.start l.end ≡ true = ground arith in rw t refl

contents_wrapped :
    (l : ObjectList)
    → l.end ≤ l.start
    → contents l ≡ entries l.list l.start (l.size - l.start) ++ entries l.list 0 l.end
unfolding contents
contents_wrapped l h = let t : ltb l.start l.end ≡ false = ground arith in rw t refl

module _ (ob : ℕ) (l : ObjectList) where
  write_slot_straight : l.start < l.end → contents (write_slot ob l.end l) ≡ contents l ++ ob ∷ []
  unfolding write_slot
  write_slot_straight h =
      let count : l.end + 1 - l.start ≡ l.end - l.start + 1 = omega arith in
      let at : l.start + (l.end - l.start) ≡ l.end = omega arith in
      let f = λ (i : ℕ). if i == l.end then ob else l.list i in
      let here : f l.end ≡ ob = ground arith in
      contents_straight (write_slot ob l.end l) (omega arith)
      ∙ ap (entries f l.start) count
      ∙ entries-last f l.start (l.end - l.start)
      ∙ ap₂ (λ xs y. xs ++ y ∷ [])
          (entries-write l.list l.end ob l.start (l.end - l.start) (inr (omega arith)))
          (ap f at ∙ here)
      ∙ ap (λ xs. xs ++ ob ∷ []) (sym (contents_straight l h))

  write_slot_wrapped : l.end < l.start → contents (write_slot ob l.end l) ≡ contents l ++ ob ∷ []
  unfolding write_slot
  write_slot_wrapped h =
      let f = λ (i : ℕ). if i == l.end then ob else l.list i in
      let here : f (0 + l.end) ≡ ob = ground arith in
      contents_wrapped (write_slot ob l.end l) (omega arith)
      ∙ ap₂ ◌++◌ (entries-write l.list l.end ob l.start (l.size - l.start) (inl h)) (
          entries-last f 0 l.end
          ∙ ap₂ (λ xs y. xs ++ y ∷ []) (entries-write l.list l.end ob 0 l.end (inr (omega arith)))
              here)
      ∙ sym (
          append_assoc (entries l.list l.start (l.size - l.start)) (entries l.list 0 l.end)
            (ob ∷ []))
      ∙ ap (λ xs. xs ++ ob ∷ []) (sym (contents_wrapped l (omega arith)))

  write_slot_around :
      0 < l.start
      → l.start < l.end
      → l.end ≡ l.size
      → contents (write_slot ob 0 l) ≡ contents l ++ ob ∷ []
  unfolding write_slot
  write_slot_around pos h e =
      contents_wrapped (write_slot ob 0 l) (omega arith)
      ∙ ap (λ xs. xs ++ ob ∷ [])
          (entries-write l.list 0 ob l.start (l.size - l.start) (inl pos)
            ∙ ap (λ n. entries l.list l.start (n - l.start)) (sym e)
            ∙ sym (contents_straight l h))

-- The first entry is not at index 0: that index is only the start of a list while the entry in it is
-- processed.
abbrev pub IsLate : ObjectList → Type 0
IsLate l = (0 < l.start) ⊎ (l.size ≡ 0)

-- What ADD_TO_OBJECT_LIST does with a list that is not full.
grow_room : (l : ObjectList) → l.start ≢ l.end → grow l ≡ l
unfolding grow
grow_room l n = let t : (l.start == l.end) ≡ false = ground arith in rw t refl

grown : ObjectList → ObjectList
grown l = record l { end = l.size; start = l.size + list_increment; size = l.size + list_increment }

grow_full : (l : ObjectList) → l.start ≡ l.end → grow l ≡ grown l
unfolding grow grown
grow_full l e = let t : (l.start == l.end) ≡ true = ground arith in rw t refl

add_room :
    (ob : ℕ) (l : ObjectList)
    → IsRing l
    → IsLate l
    → l.start ≢ l.end
    → contents (write_slot ob (l.end % l.size) l) ≡ contents l ++ ob ∷ []
add_room ob l h late n = elim (Bool-cases (l.end == l.size)) [
  | inl e ↦
      let slot : l.end % l.size ≡ 0 =
        ap (λ n. n % l.size) ((==_iff l.end l.size).0 e) ∙ mod_self l.size in
      rw slot (
        write_slot_around ob l (ground (arith, h.starts, late, e)) (ground (arith, h.starts, e))
          ((==_iff l.end l.size).0 e))
  | inr m ↦
      let slot : l.end % l.size ≡ l.end = mod-eq_of_lt (ground (arith, h.ends, m)) in
      rw slot (elim (Bool-cases (ltb l.start l.end)) [
        | inl s ↦ write_slot_straight ob l (ground arith)
        | inr s ↦ write_slot_wrapped ob l (ground arith)
      ])
]

-- The contents of an enlarged list: its two parts have changed places.
contents-grown :
    (l : ObjectList)
    → IsRing l
    → l.start ≡ l.end
    → contents (grown l) ≡ entries l.list 0 l.start ++ entries l.list l.start (l.size - l.start)
unfolding grown
contents-grown l h e =
    let none_left : l.size + list_increment - (l.size + list_increment) ≡ 0 = omega arith in
    let parts : l.size ≡ l.start + (l.size - l.start) = omega (arith, h.starts) in
    let zero_add : 0 + l.start ≡ l.start = omega arith in
    contents_wrapped (grown l) (omega arith)
    ∙ ap (λ n. entries l.list (l.size + list_increment) n ++ entries l.list 0 l.size) none_left
    ∙ ap (entries l.list 0) parts
    ∙ entries-append l.list 0 l.start (l.size - l.start)
    ∙ ap (λ k. entries l.list 0 l.start ++ entries l.list k (l.size - l.start)) zero_add

write_slot-IsRing :
    (ob slot : ℕ) (l : ObjectList)
    → l.start ≤ l.size
    → slot < l.size
    → IsRing (write_slot ob slot l)
unfolding write_slot
write_slot-IsRing ob slot l h s = record {
  starts = h;
  ends = omega (arith, s);
  empty = λ e. absurd (omega (arith, e));
}

add_via :
    (ob : ℕ) (l g : ObjectList)
    → grow l ≡ g
    → add_to_object_list ob l ≡ write_slot ob (g.end % g.size) g
unfolding add_to_object_list
add_via ob l g e = ap (λ g. write_slot ob (g.end % g.size) g) e

add_via_grown :
    (ob : ℕ) (l : ObjectList)
    → l.start ≡ l.end
    → add_to_object_list ob l ≡ write_slot ob (grown l).end (grown l)
unfolding grown
add_via_grown ob l e =
    let slot : l.size % (l.size + list_increment) ≡ l.size = mod-eq_of_lt (omega arith) in
    add_via ob l (grown l) (grow_full l e) ∙ ap (λ k. write_slot ob k (grown l)) slot

-- ADD_TO_OBJECT_LIST keeps the bounds.
pub add_to_object_list-IsRing :
    (ob : ℕ) (l : ObjectList) → IsRing l → IsRing (add_to_object_list ob l)
unfolding grown
add_to_object_list-IsRing ob l h = elim (Bool-cases (l.start == l.end)) [
  | inr n ↦
      let apart : l.start ≢ l.end = ground (arith, n) in
      let slot : l.end % l.size < l.size = mod-lt l.end (ground (arith, h.starts, h.ends, apart)) in
      subst IsRing (sym (add_via ob l l (grow_room l apart)))
        (write_slot-IsRing ob (l.end % l.size) l h.starts slot)
  | inl y ↦
      subst IsRing (sym (add_via_grown ob l ((==_iff l.start l.end).0 y)))
        (write_slot-IsRing ob l.size (grown l) (omega arith) (omega arith))
]

-- ADD_TO_OBJECT_LIST adds its object at the end. Where the list was full its two parts change places
-- first, those that start at its start and at index 0.
pub contents-add_to_object_list :
    (ob : ℕ) (l : ObjectList)
    → IsRing l
    → IsLate l
    → (xs : List ℕ) × (ys : List ℕ) × (contents l ≡ xs ++ ys)
      × (contents (add_to_object_list ob l)
          ≡ (if l.start == l.end then ys ++ xs else xs ++ ys) ++ ob ∷ [])
unfolding grown
contents-add_to_object_list ob l h late = elim (Bool-cases (l.start == l.end)) [
  | inr n ↦
      let apart : l.start ≢ l.end = ground (arith, n) in
      let via = add_via ob l l (grow_room l apart) in
      (
        contents l,
        [],
        sym (append-nil (contents l)),
        rw (n, append-nil) (ap contents via ∙ add_room ob l h late apart),
      )
  | inl y ↦
      let e = (==_iff l.start l.end).0 y in
      let via = add_via_grown ob l e in
      let first = entries l.list l.start (l.size - l.start) in
      (
        first,
        entries l.list 0 l.start,
        contents_wrapped l (omega (arith, e)) ∙ ap (λ n. first ++ entries l.list 0 n) (sym e),
        rw y (
            ap contents via
            ∙ write_slot_wrapped ob (grown l) (omega arith)
            ∙ ap (λ xs. xs ++ ob ∷ []) (contents-grown l h e)),
      )
]

first_only : (ob : ℕ) (l : ObjectList) → l.start ≡ 0 → contents (write_slot ob 0 l) ≡ ob ∷ []
unfolding contents write_slot
first_only ob l s =
    let straight : ltb l.start 1 ≡ true = ground (arith, s) in
    let one : 1 - l.start ≡ 1 = omega (arith, s) in
    let here : (if l.start == 0 then ob else l.list l.start) ≡ ob = ground (arith, s) in
    rw (straight, one) (ap (λ x. x ∷ []) here)

-- While the entry at index 0 is processed, an object that is added to a full list is the only one left.
contents_early :
    (ob : ℕ) (l : ObjectList)
    → IsRing l
    → l.start ≡ 0
    → l.size ≢ 0
    → (contents (add_to_object_list ob l) ≡ ob ∷ [])
      ⊎ (contents (add_to_object_list ob l) ≡ contents l ++ ob ∷ [])
contents_early ob l h s n =
    let apart : l.start ≢ l.end = λ e. n (sym (h.empty (sym e ∙ s)) ∙ s) in
    let via = ap contents (add_via ob l l (grow_room l apart)) in
    elim (Bool-cases (l.end == l.size)) [
      | inl e ↦
          let slot : l.end % l.size ≡ 0 =
            ap (λ k. k % l.size) ((==_iff l.end l.size).0 e) ∙ mod_self l.size in
          inl (via ∙ ap (λ k. contents (write_slot ob k l)) slot ∙ first_only ob l s)
      | inr m ↦
          let slot : l.end % l.size ≡ l.end = mod-eq_of_lt (ground (arith, h.ends, m)) in
          inr (
            via
            ∙ ap (λ k. contents (write_slot ob k l)) slot
            ∙ write_slot_straight ob l (omega (arith, s, apart)))
    ]

-- What is in the list after ADD_TO_OBJECT_LIST was in it before or is the new object.
pub contents-added :
    (ob : ℕ) (l : ObjectList) (x : ℕ)
    → IsRing l
    → Memᴰ x (contents (add_to_object_list ob l))
    → Memᴰ x (contents l) ⊎ (x ≡ ob)
contents-added ob l x h m = elim (Bool-cases (ltb 0 l.start || l.size == 0)) [
  | inr early ↦ elim (contents_early ob l h (ground (arith, early)) (ground (arith, early))) [
    | inl e ↦ inr (Memᴰ.eq_of_singleton (subst (Memᴰ x) e m))
    | inr e ↦ elim (Memᴰ.append_cases _ (subst (Memᴰ x) e m)) [
      | inl old ↦ inl old
      | inr last ↦ inr (Memᴰ.eq_of_singleton last)
    ]
  ]
  | inl ok ↦
      let (xs, ys, before, after) = contents-add_to_object_list ob l h (ground (arith, ok)) in
      elim (Memᴰ.append_cases _ (subst (Memᴰ x) after m)) [
        | inr last ↦ inr (Memᴰ.eq_of_singleton last)
        | inl old ↦ inl (
            subst (Memᴰ x) (sym before) (elim (Bool-cases (l.start == l.end)) [
              | inr n ↦ subst (Memᴰ x) (ap (λ b. if b then ys ++ xs else xs ++ ys) n) old
              | inl y ↦
                  elim (Memᴰ.append_cases ys
                    (subst (Memᴰ x) (ap (λ b. if b then ys ++ xs else xs ++ ys) y) old)) [
                      | inl a ↦ Memᴰ.append_right xs a
                      | inr a ↦ Memᴰ.append_left ys a
                    ]
            ]))
      ]
]

written_ends : (ob : ℕ) (l : ObjectList) → l.start ≡ 0 → (next_process (write_slot ob 0 l)).0 ≡ none
unfolding next_process write_slot
written_ends ob l e = ground (arith, e)

written_empty :
    (ob : ℕ) (l : ObjectList) → l.start ≡ 0 → contents (next_process (write_slot ob 0 l)).1 ≡ []
unfolding next_process write_slot contents
written_empty ob l e =
    let none_left : l.size - l.size ≡ 0 = omega arith in
    let last : (l.start + 1 == 0 + 1) ≡ true = ground (arith, e) in
    let no_room : ltb l.size 0 ≡ false = ground arith in rw (last, no_room, none_left) refl

-- A list that is processed from index 0 and whose entries fill it does not look full to
-- ADD_TO_OBJECT_LIST: an object that is added meanwhile takes the place of the entry that is being
-- processed, and the processing then stops and empties the list, so that neither the object nor the
-- entries after the first are ever processed.
pub object_list_lost :
    (ob : ℕ) (l : ObjectList)
    → 1 < l.size
    → l.start ≡ l.size
    → l.end ≡ l.size
    → let processing = record l { start = 0 } in
      let (entry, left) = next_process (add_to_object_list ob processing) in
      (begin_process l ≡ some (l.list 0, processing))
      × (contents processing ≡ entries l.list 0 l.size)
      × (entry ≡ none)
      × (contents left ≡ [])
unfolding begin_process next_process
object_list_lost ob l big s e =
    let processing = record l { start = 0 } in
    let first : l.start % l.size ≡ 0 = ap (λ n. n % l.size) s ∙ mod_self l.size in
    let busy : (l.start == l.size && l.end == 0) ≡ false = ground (arith, big, e) in
    let via = add_via ob processing processing (grow_room processing (omega (arith, big, e))) in
    let slot : l.end % l.size ≡ 0 = ap (λ n. n % l.size) e ∙ mod_self l.size in
    let added : add_to_object_list ob processing ≡ write_slot ob 0 processing =
      via ∙ ap (λ k. write_slot ob k processing) slot in
    (
      rw (busy, first) refl,
      contents_straight processing (omega (arith, big, e))
          ∙ ap (entries l.list 0) (omega (arith, e)),
      ap (λ m. (next_process m).0) added ∙ written_ends ob processing refl,
      ap (λ m. contents (next_process m).1) added ∙ written_empty ob processing refl,
    )
