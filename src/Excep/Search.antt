-- ===== src/Excep/Search.antt =====
-- Which handler the searches of src/excep.c find, and which locks are given up on the way.
use jamiga_jamvm.Base.{
  ℕ, ◌+◌, ◌≤◌, ◌<◌, ◌==◌, ◌&&◌, leb, ltb, inl, inr, ◌⊎◌, arith, Bool-cases, Option-cases, ◌≡◌, refl,
  ap, ◌∙◌, Bool, true, false, List, [], ◌∷◌, ◌++◌, Option, none, some, All,
}
use jamiga_jamvm.Excep.Handlers.{
  ExceptionTableEntry, MethodBlock, Frame, catches, search_table, find_catch_block_in_method,
  sync_ob, Caught, with_unlocked, find_catch_block,
}

module _ (resolve_class : ℕ → ℕ → Option ℕ) (is_instance_of : ℕ → ℕ → Bool) (exception : ℕ) where
  -- Whether the entry catches the exception at `pc`.
  abbrev pub is_caught : MethodBlock → ℕ → ExceptionTableEntry → Bool
  is_caught mb pc e = catches resolve_class is_instance_of mb exception pc e

  search_table_lem :
      (mb : MethodBlock) (pc : ℕ) (before after : List ExceptionTableEntry)
      (e : ExceptionTableEntry)
      → All (λ x. is_caught mb pc x ≡ false) before
      → is_caught mb pc e ≡ true
      → search_table resolve_class is_instance_of mb exception pc (before ++ e ∷ after)
        ≡ some (mb.code + e.handler_pc)
  unfolding search_table
  search_table_lem mb pc [] after e b q = rw q refl
  search_table_lem mb pc (x ∷ before) after e b q =
      let n = b.0 in rw n (search_table_lem mb pc before after e b.1 q)

  -- The handler is that of the first entry of the table that covers the pc and whose class catches the
  -- exception; entries whose class cannot be resolved are passed over.
  pub find_first_handler :
      (mb : MethodBlock) (pc : ℕ) (before after : List ExceptionTableEntry)
      (e : ExceptionTableEntry)
      → mb.exception_table ≡ before ++ e ∷ after
      → All (λ x. is_caught mb pc x ≡ false) before
      → is_caught mb pc e ≡ true
      → find_catch_block_in_method resolve_class is_instance_of mb exception pc
        ≡ some (mb.code + e.handler_pc)
  unfolding find_catch_block_in_method
  find_first_handler mb pc before after e h b q =
      ap (search_table resolve_class is_instance_of mb exception pc) h
      ∙ search_table_lem mb pc before after e b q

  -- The handler of the frame.
  abbrev pub handler_of : Frame → Option ℕ
  handler_of f = find_catch_block_in_method resolve_class is_instance_of f.mb exception f.last_pc

  abbrev pub unwind : Frame → List Frame → Caught
  unwind f below = find_catch_block resolve_class is_instance_of exception f below

  unwind-caught :
      (pc : ℕ) (f : Frame) (below : List Frame)
      → handler_of f ≡ some pc
      → unwind f below ≡ record { handler_pc = some pc; unlocked = []; frames = f ∷ below }
  unfolding find_catch_block
  unwind-caught pc f [] h = rw h refl
  unwind-caught pc f (g ∷ below) h = rw (h, find_catch_block) refl

  unwind-passed :
      (f g : Frame) (below : List Frame)
      → handler_of f ≡ none
      → unwind f (g ∷ below) ≡ with_unlocked (sync_ob f) (unwind g below)
  unfolding find_catch_block
  unwind-passed f g below h = rw (h, find_catch_block) refl

  -- The entry covers the pc at which the frame was left, and is for any exception or for a class that can
  -- be resolved and of which the exception is an instance.
  pub record Catches (f : Frame) (e : ExceptionTableEntry) : Type 0 where
    pub from : e.start_pc ≤ f.last_pc
    pub to : f.last_pc < e.end_pc
    pub of_class :
        (e.catch_type ≡ 0)
        ⊎ ((c : ℕ) × (resolve_class f.mb.class e.catch_type ≡ some c)
            × (is_instance_of c exception ≡ true))

  Catches-is_caught :
      (f : Frame) (e : ExceptionTableEntry) → Catches f e → is_caught f.mb f.last_pc e ≡ true
  Catches-is_caught f e h =
      let from = h.from in
      let to = h.to in
      elim h.of_class [
        | inl any ↦ ground (arith, from, to, any)
        | inr (c, r, i) ↦ ground (arith, from, to, r, i)
      ]

  is_caught-Catches :
      (f : Frame) (e : ExceptionTableEntry) → is_caught f.mb f.last_pc e ≡ true → Catches f e
  is_caught-Catches f e h =
      let inside : leb e.start_pc f.last_pc && ltb f.last_pc e.end_pc ≡ true = ground (arith, h) in
      record {
        from = ground (arith, inside);
        to = ground (arith, inside);
        of_class = elim (Bool-cases (e.catch_type == 0)) [
          | inl z ↦ inl (ground (arith, z))
          | inr n ↦ elim (Option-cases (resolve_class f.mb.class e.catch_type)) [
            | inl r ↦ absurd (ground (arith, h, n, r))
            | inr (c, r) ↦ inr (c, r, ground (arith, h, n, r))
          ]
        ];
      }

  not_caught :
      (f : Frame) (e : ExceptionTableEntry) → ¬ (Catches f e) → is_caught f.mb f.last_pc e ≡ false
  not_caught f e n = elim (Bool-cases (is_caught f.mb f.last_pc e)) [
    | inl y ↦ absurd (n (is_caught-Catches f e y))
    | inr y ↦ y
  ]

  none_caught :
      (f : Frame) (table : List ExceptionTableEntry)
      → All (λ x. ¬ (Catches f x)) table
      → All (λ x. is_caught f.mb f.last_pc x ≡ false) table
  none_caught f [] a = tt
  none_caught f (x ∷ table) a = (not_caught f x a.0, none_caught f table a.1)

  search_table-none :
      (mb : MethodBlock) (pc : ℕ) (table : List ExceptionTableEntry)
      → All (λ x. is_caught mb pc x ≡ false) table
      → search_table resolve_class is_instance_of mb exception pc table ≡ none
  unfolding search_table
  search_table-none mb pc [] a = refl
  search_table-none mb pc (x ∷ table) a = let n = a.0 in rw n (search_table-none mb pc table a.1)

  no_handlers :
      (fs : List Frame)
      → All (λ g. All (λ x. ¬ (Catches g x)) g.mb.exception_table) fs
      → All (λ g. handler_of g ≡ none) fs
  unfolding find_catch_block_in_method
  no_handlers [] a = tt
  no_handlers (g ∷ fs) a = (
    search_table-none g.mb g.last_pc g.mb.exception_table (none_caught g g.mb.exception_table a.0),
    no_handlers fs a.1,
  )

  -- The locks of synchronized methods, from the top: the class of a static method, and otherwise the object
  -- on which it was called.
  abbrev pub locks_of : List Frame → List ℕ
  locks_of [] = []
  locks_of (f ∷ fs) = elim f.mb.is_synchronized [
    | false ↦ locks_of fs
    | true ↦ elim f.mb.is_static [ true ↦ f.mb.class ∷ locks_of fs | false ↦ f.this ∷ locks_of fs ]
  ]

  sync_ob-locks_of : (f : Frame) (fs : List Frame) → sync_ob f ++ locks_of fs ≡ locks_of (f ∷ fs)
  sync_ob-locks_of f fs = ground arith

  unwind_over :
      (pc : ℕ) (top : Frame) (left : List Frame) (f : Frame) (below : List Frame)
      → All (λ g. handler_of g ≡ none) (top ∷ left)
      → handler_of f ≡ some pc
      → unwind top (left ++ f ∷ below)
        ≡ record { handler_pc = some pc; unlocked = locks_of (top ∷ left); frames = f ∷ below }
  unwind_over pc top [] f below a h =
      unwind-passed top f below a.0
      ∙ ap (with_unlocked (sync_ob top)) (unwind-caught pc f below h)
      ∙ ap (λ l. record { handler_pc = some pc; unlocked = l; frames = f ∷ below })
          (sync_ob-locks_of top [])
  unwind_over pc top (g ∷ left) f below a h =
      unwind-passed top g (left ++ f ∷ below) a.0
      ∙ ap (with_unlocked (sync_ob top)) (unwind_over pc g left f below a.1 h)
      ∙ ap (λ l. record { handler_pc = some pc; unlocked = l; frames = f ∷ below })
          (sync_ob-locks_of top (g ∷ left))

  -- An exception that no entry of the frames above `f` catches, and that the entry `e` of that frame's table
  -- is the first to catch: findCatchBlock gives up the locks of exactly the synchronized methods above,
  -- innermost first, and goes on in that frame at the handler of `e`.
  pub find_catch_block_unlocks :
      (top : Frame) (left : List Frame) (f : Frame) (below : List Frame)
      (before after : List ExceptionTableEntry) (e : ExceptionTableEntry)
      → All (λ g. All (λ x. ¬ (Catches g x)) g.mb.exception_table) (top ∷ left)
      → f.mb.exception_table ≡ before ++ e ∷ after
      → All (λ x. ¬ (Catches f x)) before
      → Catches f e
      → let c = find_catch_block resolve_class is_instance_of exception top (left ++ f ∷ below) in
        (c.handler_pc ≡ some (f.mb.code + e.handler_pc))
        × (c.unlocked ≡ locks_of (top ∷ left))
        × (c.frames ≡ f ∷ below)
  find_catch_block_unlocks top left f below before after e skipped table passed caught =
      let h =
        find_first_handler f.mb f.last_pc before after e table (none_caught f before passed)
          (Catches-is_caught f e caught) in
      let u =
        unwind_over (f.mb.code + e.handler_pc) top left f below (no_handlers (top ∷ left) skipped)
          h in
      (ap (λ c. c.handler_pc) u, ap (λ c. c.unlocked) u, ap (λ c. c.frames) u)
