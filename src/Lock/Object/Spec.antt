-- ===== src/Lock/Object/Spec.antt =====
-- An abstract lock, for src/lock.c: who holds it and how often, and what the calls promise of it.
use jamiga_jamvm.Base.{
  ℕ, ◌+◌, ◌%◌, ◌^◌, ◌≤◌, ◌<◌, ◌≡◌, ◌⊎◌, Bool, true, false, ◌==◌, ◌||◌, if◌then◌else◌, [], length,
}
use jamiga_jamvm.Lock.Word.{is_fat, tid_of, count_of, fat_word}
use jamiga_jamvm.Lock.Object.{Object, Outcome, acquired}

-- The holding thread, or 0, and the number of its locks that are not undone.
abbrev pub holder : Object → ℕ
holder o = if is_fat o.lock then o.w.mon.owner else tid_of o.lock

abbrev pub depth : Object → ℕ
depth o =
    if holder o == 0 then 0 else if is_fat o.lock then o.w.mon.count + 1 else count_of o.lock + 1

-- Whether a thread can have the lock at once.
abbrev pub is_available : ℕ → Object → Bool
is_available self o = holder o == 0 || holder o == self

abbrev pub is_acquired : Outcome → Bool
is_acquired acquired = true
is_acquired _ = false

-- A thread's id: positive, and such that `id<<TID_SHIFT` is an int.
pub record IsThread (self : ℕ) : Type 0 where
  pub positive : 0 < self
  pub small : self < 2 ^ 22

-- Under a thin word nobody owns the monitor, and whoever waits for the lock has set the FLC bit.
pub record Thin (o : Object) : Type 0 where
  pub shape : o.lock % 2 ≡ 0
  pub tid : o.lock < 2 ^ 31
  pub free : (o.lock ≡ 0) ⊎ (2 ^ 9 ≤ o.lock)
  pub mutex : o.w.mon.mutex ≡ 0
  pub owner : o.w.mon.owner ≡ 0
  pub count : o.w.mon.count ≡ 0
  pub contended : (o.w.mon.wait_set ≡ []) ⊎ (o.flc ≡ true)

-- Under a fat word the owner of the monitor is the holder of its mutex.
pub record Fat (o : Object) : Type 0 where
  pub word : o.lock ≡ fat_word o.addr
  pub mutex : o.w.mon.mutex ≡ o.w.mon.owner
  pub count : (o.w.mon.count ≡ 0) ⊎ (0 < o.w.mon.owner)
  pub flc : o.flc ≡ false

pub record IsValid (o : Object) : Type 0 where
  pub aligned : o.addr % 2 ≡ 0
  pub waiters : length o.w.mon.wait_set ≤ o.w.mon.in_wait
  pub mode : Thin o ⊎ Fat o
