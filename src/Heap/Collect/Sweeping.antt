-- ===== src/Heap/Collect/Sweeping.antt =====
-- The interface `Collector` filled by doSweep of src/alloc.c, for a mark phase with a given result and
-- no finalizers to run.
use jamiga_jamvm.Base.{ℕ, false, [], refl, ◌∙◌, ◌+◌, ap}
use jamiga_jamvm.Heap.Block.{largest_chunk}
use jamiga_jamvm.Heap.Sweep.{Sweep, do_sweep}
use jamiga_jamvm.Heap.Sweep.Correct.{do_sweep-free_list}
use jamiga_jamvm.Heap.MarkPhase.ObjectList.{no_references}
use jamiga_jamvm.Heap.Malloc.{Heap, IsValid}
use jamiga_jamvm.Heap.Collect.{Collector}
use jamiga_jamvm.Heap.Collect.Total.{IsLawful}

-- The heap that doSweep leaves: `chunkpp` is reset to the head of the new free list.
pub swept_heap : Heap → Sweep → Heap
swept_heap h s = record h {
  blocks = s.blocks;
  passed = [];
  ahead = s.freelist;
  heapfree = s.heapfree;
}

module _ (marks : ℕ → ℕ) where
  abbrev pub sweep_of : Heap → Sweep
  sweep_of h = do_sweep marks h.base no_references false h.blocks

  -- A collection that only sweeps. Its result is computed from the heap, which is well-formed.
  pub sweep_collector : Collector
  unfolding swept_heap
  sweep_collector = record {
    gc0 = λ _ _ h. (swept_heap h (sweep_of h), largest_chunk (sweep_of h).blocks);
    run_finalizers0 = λ st h. (st, h);
  }

  swept-IsValid : (h : Heap) → IsValid h → IsValid (swept_heap h (sweep_of h))
  unfolding swept_heap
  swept-IsValid h v =
      let (same, formed, list, free, _) =
        do_sweep-free_list marks h.base no_references false h.blocks v.formed in
      record {
        formed = formed;
        tiled = ap (λ n. h.base + n) same ∙ v.tiled;
        listed = list;
        counted = free;
        bounded = v.bounded;
      }

  pub sweep_collector-IsLawful : IsLawful sweep_collector
  unfolding sweep_collector
  sweep_collector-IsLawful = record {
    gc0_valid = λ _ _ h v. swept-IsValid h v;
    gc0_bounds = λ _ _ h. record { base = refl; limit = refl; top = refl };
    gc0_cursor = λ _ _ h. refl;
    gc0_largest = λ _ _ h. refl;
    finalizers_valid = λ st h v. v;
    finalizers_bounds = λ st h. record { base = refl; limit = refl; top = refl };
    undisturbed = λ st h. refl;
  }
