-- ===== src/Heap/MarkPhase/ObjectList.antt =====
-- The circular lists of src/alloc.c that hold objects to be finalized and references to be enqueued: the
-- macros ADD_TO_OBJECT_LIST, ITERATE_OBJECT_LIST and PROCESS_OBJECT_LIST.
use jamiga_jamvm.Base.{
  ℕ, zero, suc, ◌+◌, ◌-◌, ◌%◌, ◌&&◌, List, [], ◌∷◌, ◌++◌, ◌==◌, ltb, if◌then◌else◌, Option, none,
  some,
}

abbrev pub list_increment : ℕ
list_increment = 100

-- The variables list##_list, list##_start, list##_end and list##_size.
pub record ObjectList : Type 0 where
  pub list : ℕ → ℕ
  pub start : ℕ
  pub end : ℕ
  pub size : ℕ

-- A list before anything is added to it.
abbrev pub no_references : ObjectList
no_references = record { list = λ i. 0; start = 0; end = 0; size = 0 }

-- The reallocation of a full list.
unfoldable pub grow : ObjectList → ObjectList
grow l =
    if l.start == l.end
    then record l { end = l.size; start = l.size + list_increment; size = l.size + list_increment }
    else l

-- `list##_list[list##_end++] = ob`, where the end is `slot`.
unfoldable pub write_slot : ℕ → ℕ → ObjectList → ObjectList
write_slot ob slot l = record l { list = λ i. if i == slot then ob else l.list i; end = slot + 1 }

-- ADD_TO_OBJECT_LIST.
unfoldable pub add_to_object_list : ℕ → ObjectList → ObjectList
unfolding grow write_slot
add_to_object_list ob l = let g = grow l in write_slot ob (g.end % g.size) g

-- So many entries from `i` on.
abbrev pub entries : (ℕ → ℕ) → ℕ → ℕ → List ℕ
entries list i zero = []
entries list i (suc n) = list i ∷ entries list (i + 1) n

-- The entries in the order in which ITERATE_OBJECT_LIST goes through them.
unfoldable pub contents : ObjectList → List ℕ
contents l =
    if ltb l.start l.end
    then entries l.list l.start (l.end - l.start)
    else entries l.list l.start (l.size - l.start) ++ entries l.list 0 l.end

-- PROCESS_OBJECT_LIST, up to the call of the object's method: the test for an empty list, and the first
-- entry. None where there is nothing to do.
unfoldable pub begin_process : ObjectList → Option (ℕ × ObjectList)
begin_process l =
    if l.start == l.size && l.end == 0
    then none
    else some (l.list (l.start % l.size), record l { start = l.start % l.size })

-- `while(++start != end)` with the next entry, or the reset of the list at the end.
unfoldable pub next_process : ObjectList → Option ℕ × ObjectList
next_process l =
    let next = l.start + 1 in
    if next == l.end
    then (none, record l { start = l.size; end = 0 })
    else (some (l.list (next % l.size)), record l { start = next % l.size })
