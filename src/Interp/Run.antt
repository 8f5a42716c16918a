-- ===== src/Interp/Run.antt =====
-- Runs of the dispatch loop of src/interp/engine/interp.c: each handler ends with DISPATCH, which goes on
-- with the handler of the instruction at the new pc, at the level that the handler leaves.
use jamiga_jamvm.Base.{ℕ, zero, suc, ◌≡◌, refl, ap, ◌∙◌, Bool, List, [], ◌∷◌, length}
use jamiga_jamvm.Interp.State.{
  Insn, Frame, Outcome, dispatch, throw, return_words, underflow, undefined,
}
use jamiga_jamvm.Interp.Plain.{Machine, plain_step}
use jamiga_jamvm.Interp.Cached.{Level, Regs, Step, cached_step}
use jamiga_jamvm.Interp.Refine.{stack_of, seen}
use jamiga_jamvm.Interp.Refine.Steps.{cached_step-Refines}

-- DISPATCH: a handler that throws or returns ends the run.
abbrev pub and_then {ℓ} : {S : Type ℓ} → Outcome S → (S → Outcome S) → Outcome S
and_then (dispatch s) k = k s
and_then (throw e f) k = throw e f
and_then (return_words ws) k = return_words ws
and_then underflow k = underflow
and_then undefined k = undefined

-- `code` is the instruction at a pc.
module _ (array_store_check : ℕ → ℕ → Bool) (code : ℕ → Insn) where
  -- At most `n` instructions of the cached interpreter.
  unfoldable pub cached_run : ℕ → Level → Regs → Step
  cached_run zero l r = dispatch (l, r)
  cached_run (suc n) l r =
      and_then (cached_step array_store_check (code r.frame.pc) l r) λ (l, r). cached_run n l r

  -- One instruction without a cache for each content of a long's second slot.
  unfoldable pub plain_run : List ℕ → List ℕ → Frame → Outcome Machine
  plain_run [] ws f = dispatch (record { ostack = ws; frame = f })
  plain_run (junk ∷ junks) ws f =
      and_then (plain_step array_store_check junk (code f.pc) ws f)
        λ m. plain_run junks m.ostack m.frame

  some_words : (n : ℕ) → (junks : List ℕ) × (length junks ≡ n)
  some_words zero = ([], refl)
  some_words (suc n) = let (junks, e) = some_words n in (0 ∷ junks, ap suc e)

  abbrev IsRefined : ℕ → Level → Regs → Type 0
  IsRefined n l r =
      (junks : List ℕ) × (length junks ≡ n)
      × (seen (cached_run n l r) ≡ plain_run junks (stack_of l r) r.frame)

  -- A step is followed by a run, or ends the run.
  and_then-seen :
      (n : ℕ) (s : Step)
      → ((l : Level) (r : Regs) → IsRefined n l r)
      → (junks : List ℕ) × (length junks ≡ n)
        × (seen (and_then s λ (l, r). cached_run n l r)
            ≡ and_then (seen s) λ m. plain_run junks m.ostack m.frame)
  and_then-seen n (dispatch (l, r)) ih = ih l r
  and_then-seen n (throw e f) ih = let (junks, q) = some_words n in (junks, q, refl)
  and_then-seen n (return_words ws) ih = let (junks, q) = some_words n in (junks, q, refl)
  and_then-seen n undefined ih = let (junks, q) = some_words n in (junks, q, refl)
  and_then-seen n underflow ih = let (junks, q) = some_words n in (junks, q, refl)

  -- A run of the cached interpreter is a run of as many instructions without a cache, from the operand
  -- stack that has the cached slots on top: it dispatches with the same stack and frame, throws the same
  -- exception in the same frame, or returns the same words. The second slots of the longs that are
  -- pushed hold some `junks`.
  pub cached_run-plain_run :
      (n : ℕ) (l : Level) (r : Regs)
      → (junks : List ℕ) × (length junks ≡ n)
        × (seen (cached_run n l r) ≡ plain_run junks (stack_of l r) r.frame)
  unfolding cached_run plain_run
  cached_run-plain_run zero l r = ([], refl, refl)
  cached_run-plain_run (suc n) l r =
      let (junk, e) = cached_step-Refines array_store_check (code r.frame.pc) l r in
      let (junks, q, h) =
        and_then-seen n (cached_step array_store_check (code r.frame.pc) l r)
          (cached_run-plain_run n) in
      (junk ∷ junks, ap suc q, h ∙ ap (λ s. and_then s λ m. plain_run junks m.ostack m.frame) e)
