-- ===== src/Lock/Object/Inv.antt =====
-- inflate, and the loop at the end of objectLock, in terms of the abstract lock (src/lock.c).
use jamiga_jamvm.Base.{
  ℕ, ◌+◌, ◌%◌, ◌≡◌, ◌≢◌, refl, ◌∙◌, true, false, arith, ◌==◌, if◌then◌else◌, [], ◌∷◌, Bool-cases,
  inl, inr, length-append,
}
use jamiga_jamvm.Lock.Word.{thin_locked, is_fat}
use jamiga_jamvm.Lock.Monitor.{monitor_lock, begin_wait}
use jamiga_jamvm.Lock.Monitor.Queue.{monitor_notify_all_lem}
use jamiga_jamvm.Lock.Object.{
  Object, with_mon, Outcome, acquired, blocked, waiting, inflate, drop_entering, lock_loop,
  enter_monitor,
}
use jamiga_jamvm.Lock.Object.Spec.{holder, depth, is_available, is_acquired, IsThread, IsValid}

-- A call that ends with the lock held once more, or that leaves it with another thread.
pub record Locks (self : ℕ) (o : Object) (out : Outcome) (o' : Object) : Type 0 where
  pub valid : IsValid o'
  pub outcome : is_acquired out ≡ is_available self o
  pub holder' : holder o' ≡ (if is_available self o then self else holder o)
  pub depth' : depth o' ≡ (if is_available self o then depth o + 1 else depth o)

-- inflate by a thread that has just taken the monitor.
pub inflate_lem :
    (self : ℕ) (o : Object)
    → IsThread self
    → o.addr % 2 ≡ 0
    → o.w.mon.owner ≡ self
    → o.w.mon.mutex ≡ self
    → IsValid (inflate self o)
      × (holder (inflate self o) ≡ self)
      × (depth (inflate self o) ≡ o.w.mon.count + 1)
      × (is_fat (inflate self o).lock ≡ true)
unfolding inflate
inflate_lem self o t a e m =
    let (owns, woken, s) = monitor_notify_all_lem self o.w e in
    (
      record { aligned = a; waiters = rw s.queue (omega arith); mode = inr (ground arith) },
      ground arith,
      ground arith,
      ground arith,
    )

-- The thread has just taken the monitor, which nobody owned, of an object in the state `o`.
module _ (self : ℕ) (o : Object) (t : IsThread self) (v : IsValid o) (n : holder o ≢ self)
    (e : o.w.mon.owner ≡ 0) where
  abbrev pub taken : Object
  taken = let m = o.w.mon in with_mon o (record m { mutex = self; owner = self })

  -- The lock is fat and free.
  loop_fat : is_fat o.lock ≡ true → Locks self o acquired taken
  loop_fat f = record {
    valid = record { aligned = v.aligned; waiters = v.waiters; mode = inr (ground arith) };
    outcome = ground arith;
    holder' = ground arith;
    depth' = ground arith;
  }

  -- The thin lock is free.
  loop_free :
      o.lock ≡ 0
      → let o' = record taken { flc = true; lock = thin_locked self } in
        Locks self o acquired (inflate self o')
  loop_free z =
      let i =
        inflate_lem self (record taken { flc = true; lock = thin_locked self }) t v.aligned refl
          refl in
      record {
        valid = i.0;
        outcome = ground arith;
        holder' = i.1 ∙ ground arith;
        depth' = i.2 ∙ ground arith;
      }

  -- Another thread holds the thin lock.
  loop_held :
      is_fat o.lock ≡ false
      → o.lock ≢ 0
      → let o' = taken in Locks self o waiting (record o' { flc = true; w = begin_wait self o'.w })
  unfolding begin_wait
  loop_held f z = record {
    valid = record {
      aligned = v.aligned;
      waiters = rw (length-append o.w.mon.wait_set (self ∷ [])) (ground arith);
      mode = inl (ground arith);
    };
    outcome = ground arith;
    holder' = ground arith;
    depth' = ground arith;
  }

  pub lock_loop-Locks : Locks self o (lock_loop self taken).0 (lock_loop self taken).1
  unfolding lock_loop
  lock_loop-Locks = elim (Bool-cases (is_fat o.lock)) [
    | inl f ↦ rw f (loop_fat f)
    | inr f ↦ elim (Bool-cases (o.lock == 0)) [
      | inl z ↦ rw (f, z) (loop_free (ground arith))
      | inr z ↦ rw (f, z) (loop_held f (ground arith))
    ]
  ]

-- A fat word ends the loop.
pub lock_loop_fat :
    (self : ℕ) (o : Object) → is_fat o.lock ≡ true → lock_loop self o ≡ (acquired, o)
unfolding lock_loop
lock_loop_fat self o f = rw f

-- The three outcomes of monitorLock in objectLock.
module _ (self : ℕ) (o : Object) where
  pub enter_again :
      o.w.mon.owner ≡ self
      → let m = o.w.mon in
        enter_monitor self o
        ≡ lock_loop self (drop_entering (with_mon o (record m { count = m.count + 1 })))
  unfolding enter_monitor monitor_lock
  enter_again e = ground arith

  pub enter_free :
      o.w.mon.owner ≢ self
      → o.w.mon.mutex ≡ 0
      → let m = o.w.mon in
        enter_monitor self o
        ≡ lock_loop self (drop_entering (with_mon o (record m { mutex = self; owner = self })))
  unfolding enter_monitor monitor_lock
  enter_free n e = ground arith

  pub enter_blocks : o.w.mon.owner ≢ self → o.w.mon.mutex ≢ 0 → enter_monitor self o ≡ (blocked, o)
  unfolding enter_monitor monitor_lock
  enter_blocks n e = ground arith
