-- ===== src/Class/Tests.antt =====
-- Two threads that initialise a class at the same time.
use jamiga_jamvm.Base.{◌≡◌, refl, false, [], ◌∷◌}
use jamiga_jamvm.Class.Init.{
  initing, System, initial, begin_call, enter, finish, waiting, running, Reached, start, call,
  enter_step, finish_step,
}
use jamiga_jamvm.Class.Once.{IsValid, begun, Reached-IsValid, Reached-begun}

-- Thread 1 runs the initialisation and thread 2 waits for it.
abbrev busy : System
busy = enter 2 [] (begin_call 2 (enter 1 [] (begin_call 1 initial)))

busy_waits : (busy.calls 1 ≡ running ∷ []) × (busy.calls 2 ≡ waiting ∷ []) × (busy.state ≡ initing)
busy_waits = (refl, refl, refl)

busy-Reached : Reached 1 busy
busy-Reached = enter_step 2 [] refl (call 2 refl (enter_step 1 [] refl (call 1 refl start)))

abbrev ready : System
ready = finish false 1 [] busy

ready-Reached : Reached 1 ready
ready-Reached = finish_step false 1 [] refl busy-Reached

Reached-IsValid_example : IsValid busy
Reached-IsValid_example = Reached-IsValid busy-Reached

Reached-begun_example : 1 ≡ begun ready.state
Reached-begun_example = Reached-begun ready-Reached
