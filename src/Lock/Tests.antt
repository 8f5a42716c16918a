-- ===== src/Lock/Tests.antt =====
-- The theorems of this library on concrete states of one lock (src/lock.c).
use jamiga_jamvm.Base.{
  ℕ, ◌+◌, ◌<◌, ◌≡◌, refl, true, false, arith, List, [], ◌∷◌, Option, some, inl, inr,
}
use jamiga_jamvm.Lock.Word.{thin_locked, fat_word, is_fat}
use jamiga_jamvm.Lock.Monitor.{Waiting, fresh_monitor, interrupting, end_wait}
use jamiga_jamvm.Lock.Monitor.PassOn.{notify_and_unlock, end_wait_passes}
use jamiga_jamvm.Lock.Object.{
  Object, acquired, object_lock, object_unlock, object_wait, object_notify, object_notify_all,
  object_locked_by_current, illegal_state,
}
use jamiga_jamvm.Lock.Object.Spec.{holder, depth, IsThread, IsValid}
use jamiga_jamvm.Lock.Object.Inv.{Locks}
use jamiga_jamvm.Lock.Object.Refine.{object_lock-Locks}
use jamiga_jamvm.Lock.Object.Release.{Unlocks}
use jamiga_jamvm.Lock.Object.Unlock.{object_unlock-Unlocks, object_unlock_deflates}
use jamiga_jamvm.Lock.Object.Wait.{Waits, Refused, object_wait-Waits, object_wait_lem}
use jamiga_jamvm.Lock.Object.Resume.{object_wait_restores}
use jamiga_jamvm.Lock.Object.Notify.{illegal_state_lem}

-- Threads 5 and 7; 3 and 4 wait.
five : IsThread 5
five = record { positive = omega arith; small = omega arith }

seven : IsThread 7
seven = record { positive = omega arith; small = omega arith }

abbrev waiters : List ℕ → Waiting
waiters ts = record {
  mon = record fresh_monitor { in_wait = 2; wait_count = 6; wait_set = ts };
  wait_id = λ t. t;
  notify_id = λ _. 0;
  saved = λ _. 0;
}

-- Thread 5 has locked the object three times; 3 and 4 wait for the lock.
abbrev thin : Object
thin = record { lock = thin_locked 5 + 4; flc = true; addr = 4096; w = waiters (3 ∷ 4 ∷ []) }

-- It has one lock left.
abbrev thin_once : Object
thin_once = record thin { lock = thin_locked 5 }

-- The same with a fat lock, where 3 and 4 are in Object.wait.
abbrev fat : Object
fat =
    let w = waiters (3 ∷ 4 ∷ []) in
    record {
      lock = fat_word 4096;
      flc = false;
      addr = 4096;
      w = record w { mon = record w.mon { mutex = 5; owner = 5; count = 2 } };
    }

-- A fat lock of thread 5 with an idle monitor.
abbrev idle : Object
idle = record fat {
  w = record (waiters []) { mon = record fresh_monitor { mutex = 5; owner = 5 } };
}

thin-IsValid : IsValid thin
thin-IsValid = record { aligned = refl; waiters = omega arith; mode = inl (ground arith) }

thin_once-IsValid : IsValid thin_once
thin_once-IsValid = record { aligned = refl; waiters = omega arith; mode = inl (ground arith) }

fat-IsValid : IsValid fat
fat-IsValid = record { aligned = refl; waiters = omega arith; mode = inr (ground arith) }

idle-IsValid : IsValid idle
idle-IsValid = record { aligned = refl; waiters = omega arith; mode = inr (ground arith) }

object_lock-Locks_example : Locks 7 thin (object_lock 7 thin).0 (object_lock 7 thin).1
object_lock-Locks_example = object_lock-Locks 7 thin seven thin-IsValid

object_unlock-Unlocks_example :
    Unlocks 5 thin_once (object_unlock 5 thin_once).0 (object_unlock 5 thin_once).1
object_unlock-Unlocks_example = object_unlock-Unlocks 5 thin_once five thin_once-IsValid refl

object_unlock_deflates_example :
    let o' = (object_unlock 7 idle).1 in
    (o'.w.mon.owner ≡ 5) × (holder o' ≡ 0) × ((object_lock 7 o').0 ≡ acquired)
object_unlock_deflates_example =
    object_unlock_deflates 7 7 idle seven seven idle-IsValid refl (omega arith) (omega arith) refl

object_wait_lem_example :
    Waits 5 thin [] (object_wait 5 false thin).0 (object_wait 5 false thin).1
    × Refused 5 thin (object_wait 5 true thin).0 (object_wait 5 true thin).1
object_wait_lem_example = object_wait_lem 5 thin five thin-IsValid refl

-- Thread 7 holds the lock, and thread 5 waits and has saved its count.
abbrev waited : Object
waited =
    let w = waiters (4 ∷ 5 ∷ []) in
    record fat { w = record w { mon = record w.mon { mutex = 7; owner = 7 }; saved = λ _. 2 } }

thin_saved : 2 ≡ (object_wait 5 false thin).1.w.saved 5
thin_saved = let s = (object_wait-Waits 5 thin five thin-IsValid refl).saved in omega (arith, s)

object_wait_restores_example :
    let x = (object_unlock 7 waited).1 in
    (0 < (object_wait 5 false thin).1.w.mon.in_wait)
    × (is_fat x.lock ≡ true)
    × (x.w.mon.in_wait ≡ 2)
    × ((r : Option ℕ × Waiting) × (end_wait interrupting 5 x.w ≡ some r)
        × (holder (record x { w = r.1 }) ≡ 5)
        × (depth (record x { w = r.1 }) ≡ depth thin))
object_wait_restores_example =
    object_wait_restores interrupting 5 7 thin waited five seven thin-IsValid refl refl refl refl
      (omega arith) thin_saved

illegal_state_lem_example :
    (object_wait 7 false fat ≡ (illegal_state, fat))
    × (object_notify 7 fat ≡ (illegal_state, fat))
    × (object_notify_all 7 fat ≡ (illegal_state, fat))
    × (object_locked_by_current 7 fat ≡ false)
illegal_state_lem_example = illegal_state_lem 7 false fat seven fat-IsValid (omega arith)

-- Thread 5 owns the monitor and notifies.
abbrev notifying : List ℕ → Waiting
notifying ts = let w = waiters ts in record w { mon = record w.mon { mutex = 5; owner = 5 } }

end_wait_passes_example :
    (r : Option ℕ × Waiting) × (end_wait interrupting 3
        (notify_and_unlock 5 (notifying (3 ∷ 4 ∷ [])))
      ≡ some r)
    × (r.0 ≡ some 4)
    × (r.1.mon.wait_set ≡ [])
end_wait_passes_example =
    end_wait_passes interrupting 5 3 (4 ∷ []) (notifying (3 ∷ 4 ∷ [])) (λ p. ground (arith, p)) refl
      refl refl refl (omega arith, (omega arith, tt))
