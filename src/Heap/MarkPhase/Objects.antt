-- ===== src/Heap/MarkPhase/Objects.antt =====
-- What the mark phase of src/alloc.c reads of an object, and markChildren with the functions it calls:
-- markClassData, and markLoaderClasses of src/class.c. Address 0 is NULL.
use jamiga_jamvm.Base.{
  ℕ, zero, suc, ◌+◌, ◌-◌, ◌/◌, Bool, ◌&&◌, ◌||◌, not, List, [], ◌∷◌, leb, ltb, ◌==◌, bit,
  if◌then◌else◌,
}
use jamiga_jamvm.Heap.Sweep.{phantom_mark}
use jamiga_jamvm.Heap.Marks.{MarkStack, is_marked, mark_and_push, mark_object}

-- A field of a class: its flags, the first character of its type, and the value of a static one.
pub record FieldBlock : Type 0 where
  pub access_flags : ℕ
  pub type : ℕ
  pub static_value : ℕ

-- An entry of a constant pool: `info` is CP_INFO as an object, `appendix` that of the PolyMethodBlock
-- and `idmb_list` the appendices of the InvDynMethodBlocks that CP_INFO leads to for their types.
pub record CpEntry : Type 0 where
  pub type : ℕ
  pub info : ℕ
  pub appendix : ℕ
  pub idmb_list : List ℕ

-- The fields of src/jam.h's ClassBlock that are read here. `classlib_refs` are the fields that
-- CLASSLIB_CLASSBLOCK_REFS_DO names, and `is_classlib_special` is `flags & CLASSLIB_CLASS_SPECIAL`.
-- The constant pool is listed from its entry 1.
pub record ClassBlock : Type 0 where
  pub name : List ℕ
  pub flags : ℕ
  pub is_classlib_special : Bool
  pub state : ℕ
  pub class_loader : ℕ
  pub classlib_refs : List ℕ
  pub fields : List FieldBlock
  pub constant_pool : List CpEntry
  pub refs_offsets_table : List (ℕ × ℕ)

-- An object: its class, the words of its instance data by offset, and its elements if an array.
pub record Object : Type 0 where
  pub class : ℕ
  pub inst_data : ℕ → ℕ
  pub elements : List ℕ

-- The objects by address, and the class block of a class object. The class library gives the classes
-- in a loader's table, and the objects that classlibMarkSpecial passes to markObject.
pub record Memory : Type 0 where
  pub object_at : ℕ → Object
  pub class_cb : ℕ → ClassBlock
  pub loader_table : ℕ → List ℕ
  pub classlib_special : ℕ → List ℕ
  pub ref_referent_offset : ℕ

-- A character of a string; past its end is the terminator.
abbrev pub char_at : List ℕ → ℕ → ℕ
char_at [] i = 0
char_at (c ∷ cs) zero = c
char_at (c ∷ cs) (suc i) = char_at cs i

-- IS_CLASS_CLASS, IS_REFERENCE, IS_SOFT_REFERENCE, IS_WEAK_REFERENCE, IS_PHANTOM_REFERENCE and
-- IS_CLASS_LOADER.
abbrev pub is_class_class : ClassBlock → Bool
is_class_class cb = bit cb.flags 0

abbrev pub is_reference : ClassBlock → Bool
is_reference cb = bit cb.flags 1

abbrev pub is_soft_reference : ClassBlock → Bool
is_soft_reference cb = bit cb.flags 2

abbrev pub is_weak_reference : ClassBlock → Bool
is_weak_reference cb = bit cb.flags 3

abbrev pub is_phantom_reference : ClassBlock → Bool
is_phantom_reference cb = bit cb.flags 4

abbrev pub is_class_loader : ClassBlock → Bool
is_class_loader cb = bit cb.flags 6

-- IS_SPECIAL.
abbrev pub is_special : ClassBlock → Bool
is_special cb = cb.is_classlib_special || is_class_class cb || is_reference cb || is_class_loader cb

-- CLASS_LINKED, ACC_STATIC, and the types of the constant pool that are tested.
abbrev pub class_linked : ℕ
class_linked = 2

abbrev pub resolved_invoke_dynamic : ℕ
resolved_invoke_dynamic = 103

abbrev pub resolved_string : ℕ
resolved_string = 105

abbrev pub resolved_poly_method : ℕ
resolved_poly_method = 108

-- `if(ob != NULL && mark > IS_MARKED(ob)) MARK_AND_PUSH(ob, mark)` for each of a list.
abbrev pub mark_objects : List ℕ → ℕ → MarkStack → MarkStack
mark_objects [] mark s = s
mark_objects (ob ∷ obs) mark s = mark_objects obs mark (mark_object ob mark s)

-- The loop over the fields of a linked class.
unfoldable pub mark_static_fields : List FieldBlock → ℕ → MarkStack → MarkStack
mark_static_fields [] mark s = s
mark_static_fields (fb ∷ fbs) mark s = mark_static_fields fbs mark (
    if bit fb.access_flags 3 && (fb.type == 76 || fb.type == 91)
    then mark_object fb.static_value mark s
    else s)

-- The loop over the constant pool.
unfoldable pub mark_constant_pool : List CpEntry → ℕ → MarkStack → MarkStack
mark_constant_pool [] mark s = s
mark_constant_pool (e ∷ es) mark s = mark_constant_pool es mark (
    if leb resolved_string e.type
    then mark_object (if e.type == resolved_poly_method then e.appendix else e.info) mark s
    else if e.type == resolved_invoke_dynamic
    then mark_objects e.idmb_list mark s
    else s)

-- The loop over one entry of the reference offsets table, for so many words from `offset` on.
unfoldable pub mark_words : (ℕ → ℕ) → ℕ → ℕ → ℕ → MarkStack → MarkStack
mark_words inst_data zero offset mark s = s
mark_words inst_data (suc n) offset mark s =
    mark_words inst_data n (offset + 8) mark (mark_object (inst_data offset) mark s)

-- The loop over the reference offsets table; `for(; offset < end; offset += 8)` has that many rounds.
unfoldable pub mark_offsets : (ℕ → ℕ) → List (ℕ × ℕ) → ℕ → MarkStack → MarkStack
unfolding mark_words
mark_offsets inst_data [] mark s = s
mark_offsets inst_data ((start, end) ∷ table) mark s =
    mark_offsets inst_data table mark (mark_words inst_data ((end - start + 7) / 8) start mark s)

-- markClassData, of the class block of a class object.
unfoldable pub mark_class_data : ClassBlock → ℕ → MarkStack → MarkStack
unfolding mark_static_fields mark_constant_pool
mark_class_data cb mark s =
    let s₁ = mark_objects cb.classlib_refs mark s in
    let s₂ = if leb class_linked cb.state then mark_static_fields cb.fields mark s₁ else s₁ in
    mark_constant_pool cb.constant_pool mark s₂

module _ (mem : Memory) where
  -- The iteration of markLoaderClasses over a loader's table.
  unfoldable pub mark_loader_classes : ℕ → List ℕ → ℕ → MarkStack → MarkStack
  mark_loader_classes loader [] mark s = s
  mark_loader_classes loader (c ∷ cs) mark s =
      mark_loader_classes loader cs mark
        (if (mem.class_cb c).class_loader == loader then mark_object c mark s else s)

  -- The mark that the referent of a Reference gets.
  unfoldable pub referent_mark : ClassBlock → ℕ → Bool → ℕ
  referent_mark cb mark mark_soft_refs =
      if is_phantom_reference cb
      then phantom_mark
      else if not (is_soft_reference cb) || mark_soft_refs
      then mark
      else 0

  unfoldable pub mark_referent : ClassBlock → ℕ → ℕ → Bool → MarkStack → MarkStack
  unfolding referent_mark
  mark_referent cb referent mark mark_soft_refs s =
      let new_mark = referent_mark cb mark mark_soft_refs in
      if not (is_weak_reference cb) && not (referent == 0)
      then if ltb (is_marked s.marks referent) new_mark
        then mark_and_push referent new_mark s
        else s
      else s

  -- The cases of `if(IS_SPECIAL(cb))`.
  unfoldable pub mark_special : ℕ → ClassBlock → ℕ → Bool → MarkStack → MarkStack
  unfolding mark_class_data mark_loader_classes mark_referent
  mark_special ob cb mark mark_soft_refs s =
      if is_class_class cb
      then mark_class_data (mem.class_cb ob) mark s
      else if is_class_loader cb
      then mark_loader_classes ob (mem.loader_table ob) mark s
      else if is_reference cb
      then mark_referent cb ((mem.object_at ob).inst_data mem.ref_referent_offset) mark
          mark_soft_refs s
      else if cb.is_classlib_special
      then mark_objects (mem.classlib_special ob) mark s
      else s

  -- The branch of markChildren for an object that is no array.
  unfoldable pub mark_instance : ℕ → ClassBlock → ℕ → Bool → MarkStack → MarkStack
  unfolding mark_special mark_offsets
  mark_instance ob cb mark mark_soft_refs s =
      mark_offsets (mem.object_at ob).inst_data cb.refs_offsets_table mark
        (if is_special cb then mark_special ob cb mark mark_soft_refs s else s)

  -- The branch for an array.
  unfoldable pub mark_array : ℕ → ClassBlock → ℕ → MarkStack → MarkStack
  mark_array ob cb mark s =
      if char_at cb.name 1 == 76 || char_at cb.name 1 == 91
      then mark_objects (mem.object_at ob).elements mark s
      else s

  -- markChildren.
  unfoldable pub mark_children : ℕ → ℕ → Bool → MarkStack → MarkStack
  unfolding mark_instance mark_array
  mark_children ob mark mark_soft_refs s =
      let class = (mem.object_at ob).class in
      let cb = mem.class_cb class in
      let s' = mark_object class mark s in
      if class == 0
      then s
      else if char_at cb.name 0 == 91
      then mark_array ob cb mark s'
      else mark_instance ob cb mark mark_soft_refs s'
