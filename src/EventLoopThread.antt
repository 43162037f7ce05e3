-- ===== src/EventLoopThread.antt =====
-- src/nev/event_loop_thread.cc and src/nev/event_loop_thread.h: the class `EventLoopThread`, as the steps of two
-- threads, that which calls `startLoop` and the new one in `ThreadMain`, and of the owner of the object.
pub mod Handshake
pub mod Ownership
mod Tests
use nev.Base.{
  ℕ, ◌+◌, ◌≡◌, Bool, true, false, ◌||◌, if◌then◌else◌, ltb, List, [], ◌∷◌, ◌++◌, Option, none, some,
}

-- Where the caller of `startLoop` stands; `done` carries the result.
pub data Caller : Type 0 where
  ready waiting woken : Caller
  done : Option ℕ → Caller

-- Where the new thread stands in `ThreadMain`: each name tells what it has done last.
pub data Worker : Type 0 where
  absent created constructed initialized published signaling left cleared ended : Worker

-- `loop_ptr` is the field `loop_`, and `signaled` the state of `event_`, which resets itself. `called` lists
-- the loops on which the callback was called; `deleted` counts the deletes of the object, and
-- `late_use` tells whether one of its fields was used behind a delete.
pub record Thread : Type 0 where
  pub loop_ptr : Option ℕ
  pub signaled : Bool
  pub caller : Caller
  pub worker : Worker
  pub called : List ℕ
  pub deleted : ℕ
  pub late_use : Bool
  pub owner_gone : Bool

-- The constructor.
unfoldable pub new_thread : Thread
new_thread = record {
  loop_ptr = none;
  signaled = false;
  caller = ready;
  worker = absent;
  called = [];
  deleted = 0;
  late_use = false;
  owner_gone = false;
}

abbrev pub touch : Thread → Thread
touch s = record s { late_use = s.late_use || ltb 0 s.deleted }

-- `startLoop` up to `event_.Wait()`.
unfoldable pub create_thread : Thread → Thread
create_thread s = record (touch s) { signaled = false; worker = created; caller = waiting }

-- `event_.Wait()` returns.
unfoldable pub wait_returns : Thread → Thread
wait_returns s = record (touch s) { signaled = false; caller = woken }

-- The rest of `startLoop`.
unfoldable pub read_loop : Thread → Thread
read_loop s = record (touch s) { caller = done s.loop_ptr }

-- `loop` is the address of the local variable of `ThreadMain`.
module _ (has_cb : Bool) (loop : ℕ) where
  unfoldable pub call_back : Thread → Thread
  call_back s = record (touch s) { called = if has_cb then s.called ++ loop ∷ [] else s.called }

  -- The next statement of `ThreadMain`; from `signaling` on the thread is in `loop.loop()`.
  unfoldable pub work : Worker → Thread → Thread
  unfolding call_back
  work created s = record s { worker = constructed }
  work constructed s = record (call_back s) { worker = initialized }
  work initialized s = record (touch s) { loop_ptr = some loop; worker = published }
  work published s = record (touch s) { signaled = true; worker = signaling }
  work signaling s = record s { worker = left }
  work left s = record (touch s) { loop_ptr = none; worker = cleared }
  work cleared s = record (touch s) { deleted = s.deleted + 1; worker = ended }
  work _ s = s

-- `threads_` of `EventLoopThreadPool` is destroyed: each `std::unique_ptr` deletes its object.
unfoldable pub drop_owner : Thread → Thread
drop_owner s = record (touch s) { deleted = s.deleted + 1; owner_gone = true }

abbrev pub is_done : Caller → Bool
is_done (done _) = true
is_done _ = false

-- What can happen, one statement after the other. The owner goes after `startLoop` has returned.
pub data Step (has_cb : Bool) (loop : ℕ) : Thread → Thread → Type 0 where
  starts : (s : Thread) → s.caller ≡ ready → Step has_cb loop s (create_thread s)
  wakes :
      (s : Thread) → s.caller ≡ waiting → s.signaled ≡ true → Step has_cb loop s (wait_returns s)
  gets : (s : Thread) → s.caller ≡ woken → Step has_cb loop s (read_loop s)
  works : (s : Thread) → Step has_cb loop s (work has_cb loop s.worker s)
  drops :
      (s : Thread)
      → is_done s.caller ≡ true
      → s.owner_gone ≡ false
      → Step has_cb loop s (drop_owner s)

pub data Reach (has_cb : Bool) (loop : ℕ) (s : Thread) : Thread → Type 0 where
  here : Reach has_cb loop s s
  next : {t u : Thread} → Reach has_cb loop s t → Step has_cb loop t u → Reach has_cb loop s u
