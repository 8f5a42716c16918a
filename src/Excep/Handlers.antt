-- ===== src/Excep/Handlers.antt =====
-- findCatchBlockInMethod and findCatchBlock of src/excep.c. Resolving a class of the constant pool and
-- isInstanceOf are parameters.
use jamiga_jamvm.Base.{
  ℕ, ◌+◌, Bool, true, false, leb, ltb, ◌==◌, if◌then◌else◌, ◌&&◌, List, [], ◌∷◌, ◌++◌, Option, none,
  some,
}

pub record ExceptionTableEntry : Type 0 where
  pub start_pc : ℕ
  pub end_pc : ℕ
  pub handler_pc : ℕ
  pub catch_type : ℕ

-- What is read of a method: `code` is the address of its code, `class` its class object.
pub record MethodBlock : Type 0 where
  pub code : ℕ
  pub class : ℕ
  pub is_synchronized : Bool
  pub is_static : Bool
  pub exception_table : List ExceptionTableEntry

-- A frame with a method; `this` is its first local variable.
pub record Frame : Type 0 where
  pub mb : MethodBlock
  pub last_pc : ℕ
  pub this : ℕ

-- The object whose lock findCatchBlock gives up for a frame.
abbrev pub sync_ob : Frame → List ℕ
sync_ob f =
    if f.mb.is_synchronized then (if f.mb.is_static then f.mb.class else f.this) ∷ [] else []

-- What findCatchBlock leaves: the handler, the locks that it gave up, and the frames that are left.
pub record Caught : Type 0 where
  pub handler_pc : Option ℕ
  pub unlocked : List ℕ
  pub frames : List Frame

abbrev pub with_unlocked : List ℕ → Caught → Caught
with_unlocked obs c = record c { unlocked = obs ++ c.unlocked }

module _ (resolve_class : ℕ → ℕ → Option ℕ) (is_instance_of : ℕ → ℕ → Bool) where
  -- The tests on one entry, at the offset `pc`.
  abbrev pub catches : MethodBlock → ℕ → ℕ → ExceptionTableEntry → Bool
  catches mb exception pc e =
      (leb e.start_pc pc && ltb pc e.end_pc)
      && (if e.catch_type == 0 then true else elim (resolve_class mb.class e.catch_type) [
        | none ↦ false
        | some caught_class ↦ is_instance_of caught_class exception
      ])

  -- The `for` of findCatchBlockInMethod.
  unfoldable pub search_table : MethodBlock → ℕ → ℕ → List ExceptionTableEntry → Option ℕ
  search_table mb exception pc [] = none
  search_table mb exception pc (e ∷ table) =
      if catches mb exception pc e
      then some (mb.code + e.handler_pc)
      else search_table mb exception pc table

  -- findCatchBlockInMethod, at the offset `pc_pntr - mb->code`.
  unfoldable pub find_catch_block_in_method : MethodBlock → ℕ → ℕ → Option ℕ
  unfolding search_table
  find_catch_block_in_method mb exception pc = search_table mb exception pc mb.exception_table

  -- The loop of findCatchBlock at `frame`, with the frames under it that have methods; offsets as above.
  unfoldable pub find_catch_block : ℕ → Frame → List Frame → Caught
  unfolding find_catch_block_in_method
  find_catch_block exception frame [] = record {
    handler_pc = find_catch_block_in_method frame.mb exception frame.last_pc;
    unlocked = [];
    frames = frame ∷ [];
  }
  find_catch_block exception frame (prev ∷ below) =
      elim (find_catch_block_in_method frame.mb exception frame.last_pc) [
        | none ↦ with_unlocked (sync_ob frame) (find_catch_block exception prev below)
        | some pc ↦ record { handler_pc = some pc; unlocked = []; frames = frame ∷ prev ∷ below }
      ]
