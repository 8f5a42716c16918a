-- ===== src/Class/Init.antt =====
-- initClass of src/class.c, for one class and any number of threads. A call runs under the lock of the
-- class from one point to the next: what happens between two of them is one step. The initialisation of the
-- superclass, the constant fields and the static initializer are code that runs in between, may call
-- initClass of the same class again, and ends with an exception or without one.
use jamiga_jamvm.Base.{ℕ, ◌+◌, ◌≡◌, Bool, true, false, List, [], ◌∷◌, map, ◌==◌, if◌then◌else◌}

-- The states of src/jam.h from CLASS_LOADED to CLASS_INITED.
pub data ClassState : Type 0 where
  loaded linked bad initing inited : ClassState

-- A call of initClass: before its locked part, in objectWait, and between setting CLASS_INITING and
-- set_state_and_notify.
pub data Call : Type 0 where
  entering waiting running : Call

-- The class, and the calls of each thread, the innermost first.
pub record System : Type 0 where
  pub state : ClassState
  pub initing_tid : ℕ
  pub calls : ℕ → List Call

abbrev pub set_calls : ℕ → List Call → (ℕ → List Call) → ℕ → List Call
set_calls self cs calls t = if t == self then cs else calls t

-- linkClass, as far as the state of the class goes.
abbrev pub link_class : ClassState → ClassState
link_class loaded = linked
link_class st = st

-- The start of initClass: the test of the state without the lock, and linkClass.
abbrev pub begin_call : ℕ → System → System
begin_call self s = elim s.state [
  | inited ↦ s
  | _ ↦ record s {
    state = link_class s.state;
    calls = set_calls self (entering ∷ s.calls self) s.calls;
  }
]

-- What the part under the lock, up to the objectUnlock or the objectWait, decides.
pub data Decision : Type 0 where
  return_class throw_no_class_def wait initialise : Decision

abbrev pub decide : ClassState → ℕ → ℕ → Decision
decide loaded tid self = initialise
decide linked tid self = initialise
decide bad tid self = throw_no_class_def
decide initing tid self = if tid == self then return_class else wait
decide inited tid self = return_class

-- Its effect; `cs` are the calls that the thread goes on with when this one returns.
abbrev pub act : Decision → ℕ → List Call → System → System
act return_class self cs s = record s { calls = set_calls self cs s.calls }
act throw_no_class_def self cs s = record s { calls = set_calls self cs s.calls }
act wait self cs s = record s { calls = set_calls self (waiting ∷ cs) s.calls }
act initialise self cs s = record {
  state = initing;
  initing_tid = self;
  calls = set_calls self (running ∷ cs) s.calls;
}

abbrev pub enter : ℕ → List Call → System → System
enter self cs s = act (decide s.state s.initing_tid self) self cs s

-- objectNotifyAll: the calls that wait go through the loop again.
abbrev pub wake : Call → Call
wake waiting = entering
wake c = c

-- set_state_and_notify.
abbrev pub finish : Bool → ℕ → List Call → System → System
finish failed self cs s = record s {
  state = if failed then bad else inited;
  calls = λ t. map wake (set_calls self cs s.calls t);
}

-- A thread calls initClass while it is in no other call of it or runs the initialisation.
abbrev pub runs_code : List Call → Bool
runs_code [] = true
runs_code (running ∷ cs) = true
runs_code (c ∷ cs) = false

abbrev pub initial : System
initial = record { state = loaded; initing_tid = 0; calls = λ t. [] }

-- The systems that threads reach in any order of their steps, and how often they began to initialise.
abbrev pub begins : Decision → ℕ
begins initialise = 1
begins d = 0

pub data Reached : ℕ → System → Type 0 where
  start : Reached 0 initial
  call :
      {n : ℕ} {s : System} (self : ℕ)
      → runs_code (s.calls self) ≡ true
      → Reached n s
      → Reached n (begin_call self s)
  enter_step :
      {n : ℕ} {s : System} (self : ℕ) (cs : List Call)
      → s.calls self ≡ entering ∷ cs
      → Reached n s
      → Reached (begins (decide s.state s.initing_tid self) + n) (enter self cs s)
  finish_step :
      {n : ℕ} {s : System} (failed : Bool) (self : ℕ) (cs : List Call)
      → s.calls self ≡ running ∷ cs
      → Reached n s
      → Reached n (finish failed self cs s)
