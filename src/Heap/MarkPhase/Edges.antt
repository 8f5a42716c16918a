-- ===== src/Heap/MarkPhase/Edges.antt =====
-- The references of an object as edges, each with the highest mark that it passes on, and markChildren
-- of src/alloc.c as a walk over them.
use jamiga_jamvm.Base.{
  ℕ, zero, suc, ◌+◌, ◌-◌, ◌/◌, ◌≤◌, min, ◌≡◌, refl, append-nil, ◌∙◌, ap, Bool, ◌&&◌, ◌||◌, not,
  List, [], ◌∷◌, ◌++◌, leb, ◌==◌, bit, if◌then◌else◌, arith, Bool-cases, inl, inr,
}
use jamiga_jamvm.Heap.Sweep.{phantom_mark}
use jamiga_jamvm.Heap.Marks.{MarkStack, mark_object}
use jamiga_jamvm.Heap.MarkPhase.Objects.{
  FieldBlock, CpEntry, ClassBlock, Memory, char_at, is_class_class, is_reference, is_soft_reference,
  is_weak_reference, is_phantom_reference, is_class_loader, is_special, class_linked,
  resolved_invoke_dynamic, resolved_string, resolved_poly_method, mark_objects, mark_static_fields,
  mark_constant_pool, mark_words, mark_offsets, mark_class_data, mark_loader_classes, referent_mark,
  mark_referent, mark_special, mark_instance, mark_array, mark_children,
}

-- A reference that passes on any mark.
abbrev pub strong : ℕ → ℕ × ℕ
strong q = (q, 3)

abbrev pub all_strong : List ℕ → List (ℕ × ℕ)
all_strong [] = []
all_strong (q ∷ qs) = strong q ∷ all_strong qs

abbrev pub static_edges : List FieldBlock → List (ℕ × ℕ)
static_edges [] = []
static_edges (fb ∷ fbs) =
    let rest = static_edges fbs in
    if bit fb.access_flags 3 && (fb.type == 76 || fb.type == 91)
    then strong fb.static_value ∷ rest
    else rest

abbrev pub pool_edges : List CpEntry → List (ℕ × ℕ)
pool_edges [] = []
pool_edges (e ∷ es) =
    let rest = pool_edges es in
    if leb resolved_string e.type
    then strong (if e.type == resolved_poly_method then e.appendix else e.info) ∷ rest
    else if e.type == resolved_invoke_dynamic
    then all_strong e.idmb_list ++ rest
    else rest

abbrev pub word_edges : (ℕ → ℕ) → ℕ → ℕ → List (ℕ × ℕ)
word_edges inst_data zero offset = []
word_edges inst_data (suc n) offset =
    strong (inst_data offset) ∷ word_edges inst_data n (offset + 8)

abbrev pub offset_edges : (ℕ → ℕ) → List (ℕ × ℕ) → List (ℕ × ℕ)
offset_edges inst_data [] = []
offset_edges inst_data ((start, end) ∷ table) =
    word_edges inst_data ((end - start + 7) / 8) start ++ offset_edges inst_data table

abbrev pub class_edges : ClassBlock → List (ℕ × ℕ)
class_edges cb =
    all_strong cb.classlib_refs
    ++ (if leb class_linked cb.state then static_edges cb.fields else [])
    ++ pool_edges cb.constant_pool

module _ (mem : Memory) where
  abbrev pub loader_edges : ℕ → List ℕ → List (ℕ × ℕ)
  loader_edges loader [] = []
  loader_edges loader (c ∷ cs) =
      let rest = loader_edges loader cs in
      if (mem.class_cb c).class_loader == loader then strong c ∷ rest else rest

-- A phantom reference passes on its own mark at most, a weak one nothing, and a soft one nothing
-- where soft references are to be cleared.
abbrev pub referent_edges : Bool → ClassBlock → ℕ → List (ℕ × ℕ)
referent_edges mark_soft_refs cb referent =
    if is_weak_reference cb
    then []
    else if is_phantom_reference cb
    then (referent, phantom_mark) ∷ []
    else if not (is_soft_reference cb) || mark_soft_refs
    then strong referent ∷ []
    else []

module _ (mem : Memory) (mark_soft_refs : Bool) where
  abbrev pub special_edges : ℕ → ClassBlock → List (ℕ × ℕ)
  special_edges ob cb =
      if is_class_class cb
      then class_edges (mem.class_cb ob)
      else if is_class_loader cb
      then loader_edges mem ob (mem.loader_table ob)
      else if is_reference cb
      then referent_edges mark_soft_refs cb ((mem.object_at ob).inst_data mem.ref_referent_offset)
      else if cb.is_classlib_special
      then all_strong (mem.classlib_special ob)
      else []

  unfoldable pub instance_edges : ℕ → ClassBlock → List (ℕ × ℕ)
  instance_edges ob cb =
      (if is_special cb then special_edges ob cb else [])
      ++ offset_edges (mem.object_at ob).inst_data cb.refs_offsets_table

  unfoldable pub array_edges : ℕ → ClassBlock → List (ℕ × ℕ)
  array_edges ob cb =
      if char_at cb.name 1 == 76 || char_at cb.name 1 == 91
      then all_strong (mem.object_at ob).elements
      else []

  -- The edges of an object, in the order in which markChildren goes through them.
  unfoldable pub edges : ℕ → List (ℕ × ℕ)
  unfolding instance_edges array_edges
  edges ob =
      let class = (mem.object_at ob).class in
      let cb = mem.class_cb class in
      if class == 0
      then []
      else strong class
        ∷ (if char_at cb.name 0 == 91 then array_edges ob cb else instance_edges ob cb)

-- markObject along each edge.
unfoldable pub mark_edges : ℕ → List (ℕ × ℕ) → MarkStack → MarkStack
mark_edges mark [] s = s
mark_edges mark ((q, cap) ∷ es) s = mark_edges mark es (mark_object q (min mark cap) s)

mark_edges-append :
    (mark : ℕ) (xs ys : List (ℕ × ℕ)) (s : MarkStack)
    → mark_edges mark (xs ++ ys) s ≡ mark_edges mark ys (mark_edges mark xs s)
unfolding mark_edges
mark_edges-append mark [] ys s = refl
mark_edges-append mark ((q, cap) ∷ xs) ys s = mark_edges-append mark xs ys _

module _ (mark : ℕ) (small : mark ≤ 3) where
  min_strong : min mark 3 ≡ mark
  min_strong = omega arith

  mark_objects-edges :
      (qs : List ℕ) (s : MarkStack) → mark_objects qs mark s ≡ mark_edges mark (all_strong qs) s
  unfolding mark_edges
  mark_objects-edges [] s = refl
  mark_objects-edges (q ∷ qs) s = rw (mark_edges, min_strong) (mark_objects-edges qs _)

  mark_static_fields-edges :
      (fbs : List FieldBlock) (s : MarkStack)
      → mark_static_fields fbs mark s ≡ mark_edges mark (static_edges fbs) s
  unfolding mark_edges mark_static_fields
  mark_static_fields-edges [] s = refl
  mark_static_fields-edges (fb ∷ fbs) s =
      elim (Bool-cases (bit fb.access_flags 3 && (fb.type == 76 || fb.type == 91))) [
        | inl h ↦ rw (h, mark_edges, min_strong) (mark_static_fields-edges fbs _)
        | inr h ↦ rw h (mark_static_fields-edges fbs s)
      ]

  mark_constant_pool-edges :
      (es : List CpEntry) (s : MarkStack)
      → mark_constant_pool es mark s ≡ mark_edges mark (pool_edges es) s
  unfolding mark_edges mark_constant_pool
  mark_constant_pool-edges [] s = refl
  mark_constant_pool-edges (e ∷ es) s = elim (Bool-cases (leb resolved_string e.type)) [
    | inl h ↦ rw (h, mark_edges, min_strong) (mark_constant_pool-edges es _)
    | inr h ↦ elim (Bool-cases (e.type == resolved_invoke_dynamic)) [
      | inl i ↦
          rw (h, i, mark_edges-append)
            (mark_constant_pool-edges es _
              ∙ ap (mark_edges mark (pool_edges es)) (mark_objects-edges e.idmb_list s))
      | inr i ↦ rw (h, i) (mark_constant_pool-edges es s)
    ]
  ]

  mark_words-edges :
      (data' : ℕ → ℕ) (n offset : ℕ) (s : MarkStack)
      → mark_words data' n offset mark s ≡ mark_edges mark (word_edges data' n offset) s
  unfolding mark_edges mark_words
  mark_words-edges data' zero offset s = refl
  mark_words-edges data' (suc n) offset s =
      rw (mark_edges, min_strong) (mark_words-edges data' n (offset + 8) _)

  mark_offsets-edges :
      (data' : ℕ → ℕ) (table : List (ℕ × ℕ)) (s : MarkStack)
      → mark_offsets data' table mark s ≡ mark_edges mark (offset_edges data' table) s
  unfolding mark_edges mark_offsets
  mark_offsets-edges data' [] s = refl
  mark_offsets-edges data' ((start, end) ∷ table) s = rw mark_edges-append (
      mark_offsets-edges data' table _
      ∙ ap (mark_edges mark (offset_edges data' table))
          (mark_words-edges data' ((end - start + 7) / 8) start s))

  mark_class_data-edges :
      (cb : ClassBlock) (s : MarkStack)
      → mark_class_data cb mark s ≡ mark_edges mark (class_edges cb) s
  unfolding mark_edges mark_class_data
  mark_class_data-edges cb s = elim (Bool-cases (leb class_linked cb.state)) [
    | inl h ↦
        rw (h, mark_edges-append, mark_edges-append)
          (mark_constant_pool-edges cb.constant_pool _
            ∙ ap (mark_edges mark (pool_edges cb.constant_pool)) (
                mark_static_fields-edges cb.fields _
                ∙ ap (mark_edges mark (static_edges cb.fields))
                    (mark_objects-edges cb.classlib_refs s)))
    | inr h ↦
        rw (h, mark_edges-append, append-nil)
          (mark_constant_pool-edges cb.constant_pool _
            ∙ ap (mark_edges mark (pool_edges cb.constant_pool))
                (mark_objects-edges cb.classlib_refs s))
  ]

  module _ (mem : Memory) where
    mark_loader_classes-edges :
        (loader : ℕ) (cs : List ℕ) (s : MarkStack)
        → mark_loader_classes mem loader cs mark s ≡ mark_edges mark (loader_edges mem loader cs) s
    unfolding mark_edges mark_loader_classes
    mark_loader_classes-edges loader [] s = refl
    mark_loader_classes-edges loader (c ∷ cs) s =
        elim (Bool-cases ((mem.class_cb c).class_loader == loader)) [
          | inl h ↦ rw (h, mark_edges, min_strong) (mark_loader_classes-edges loader cs _)
          | inr h ↦ rw h (mark_loader_classes-edges loader cs s)
        ]

    module _ (mark_soft_refs : Bool) (positive : 1 ≤ mark) where
      mark_referent-edges :
          (cb : ClassBlock) (referent : ℕ) (s : MarkStack)
          → mark_referent mem cb referent mark mark_soft_refs s
            ≡ mark_edges mark (referent_edges mark_soft_refs cb referent) s
      unfolding mark_edges mark_referent referent_mark mark_object
      mark_referent-edges cb referent s = ground arith

      mark_special-edges :
          (ob : ℕ) (cb : ClassBlock) (s : MarkStack)
          → mark_special mem ob cb mark mark_soft_refs s
            ≡ mark_edges mark (special_edges mem mark_soft_refs ob cb) s
      unfolding mark_edges mark_special
      mark_special-edges ob cb s = ground (
        arith,
        mark_class_data-edges (mem.class_cb ob) s,
        mark_loader_classes-edges ob (mem.loader_table ob) s,
        mark_referent-edges cb ((mem.object_at ob).inst_data mem.ref_referent_offset) s,
        mark_objects-edges (mem.classlib_special ob) s,
      )

      mark_instance-edges :
          (ob : ℕ) (cb : ClassBlock) (s : MarkStack)
          → mark_instance mem ob cb mark mark_soft_refs s
            ≡ mark_edges mark (instance_edges mem mark_soft_refs ob cb) s
      unfolding mark_instance instance_edges
      mark_instance-edges ob cb s = elim (Bool-cases (is_special cb)) [
        | inl h ↦
            rw (h, mark_edges-append)
              (mark_offsets-edges (mem.object_at ob).inst_data cb.refs_offsets_table _
                ∙ ap
                    (mark_edges mark
                      (offset_edges (mem.object_at ob).inst_data cb.refs_offsets_table))
                    (mark_special-edges ob cb s))
        | inr h ↦ rw h (mark_offsets-edges (mem.object_at ob).inst_data cb.refs_offsets_table s)
      ]

      mark_array-edges :
          (ob : ℕ) (cb : ClassBlock) (s : MarkStack)
          → mark_array mem ob cb mark s ≡ mark_edges mark (array_edges mem mark_soft_refs ob cb) s
      unfolding mark_edges mark_array array_edges
      mark_array-edges ob cb s = ground (arith, mark_objects-edges (mem.object_at ob).elements s)

      -- markChildren goes along the edges of its object.
      pub mark_children-edges :
          (ob : ℕ) (s : MarkStack)
          → mark_children mem ob mark mark_soft_refs s
            ≡ mark_edges mark (edges mem mark_soft_refs ob) s
      unfolding mark_edges mark_children edges
      mark_children-edges ob s =
          let class = (mem.object_at ob).class in
          let cb = mem.class_cb class in
          let s' = mark_object class mark s in
          ground (arith, mark_array-edges ob cb s', mark_instance-edges ob cb s', min_strong)
