-- ===== src/EventLoop.antt =====
-- src/nev/event_loop.cc, include/nev/event_loop.h and src/nev/timer.cc: the classes `EventLoop` and
-- `Timer`. A callback of type `F` is the users' code: what it calls on its loop is given as a list of
-- actions. `async_sent` is libev's flag of an `ev_async_send` that the loop has not handled, and
-- `breaking` that of an `ev_break`.
pub mod Step
pub mod Extends
pub mod Queue
pub mod Wakeups
pub mod Pass
pub mod Timers
pub mod Destroy
pub mod ThreadLocal
mod Tests
use nev.Base.{
  ℕ, suc, ◌-◌, ◌+◌, Bool, true, false, not, ◌||◌, if◌then◌else◌, ltb, ◌==◌, List, [], ◌∷◌, ◌++◌,
  length,
}

-- `after` is in microseconds; the start of the timer's watcher is `started`.
pub record Timer (F : Type 0) : Type 0 where
  pub sequence : ℕ
  pub timer_cb : F
  pub after : ℕ
  pub repeats : Bool
  pub started : Bool

-- What is bound and queued: a callback, `addTimerInLoop` or `cancelTimerInLoop`.
pub data Functor (F : Type 0) : Type 0 where
  callback : F → Functor F
  add_timer_in_loop_functor : Timer F → Functor F
  cancel_timer_in_loop_functor : ℕ → Functor F

-- A call that a callback makes on its loop: `queueInLoop`, `quit`, `cancel` and `runAfter` or `runEvery`.
pub data Action (F : Type 0) : Type 0 where
  queues : F → Action F
  quits : Action F
  cancels : ℕ → Action F
  starts_timer : ℕ → Bool → F → Action F

-- Where the thread of the loop is: outside of `loop()`, in libev's poll, in the watchers' callbacks, or in
-- `doPendingFunctors` with these functors left.
pub data Phase (F : Type 0) : Type 0 where
  outside polling dispatching : Phase F
  running : List (Functor F) → Phase F

-- `created` is `Timer::s_num_created_`, which all loops share: timers of other loops increment it, too.
-- `queued` and `ran` log the functors, in order.
pub record Loop (F : Type 0) : Type 0 where
  pub thread_id : ℕ
  pub looping : Bool
  pub quit_flag : Bool
  pub calling_pending_functors : Bool
  pub pending_functors : List (Functor F)
  pub timers : List (Timer F)
  pub created : ℕ
  pub async_sent : Bool
  pub breaking : Bool
  pub phase : Phase F
  pub queued : List (Functor F)
  pub ran : List (Functor F)

unfoldable pub new_loop : {F : Type 0} → ℕ → Loop F
new_loop thread = record {
  thread_id = thread;
  looping = false;
  quit_flag = false;
  calling_pending_functors = false;
  pending_functors = [];
  timers = [];
  created = 0;
  async_sent = false;
  breaking = false;
  phase = outside;
  queued = [];
  ran = [];
}

unfoldable pub is_in_loop_thread : {F : Type 0} → ℕ → Loop F → Bool
is_in_loop_thread thread s = thread == s.thread_id

abbrev pub wakeup : {F : Type 0} → Loop F → Loop F
wakeup s = record s { async_sent = true }

unfoldable pub quit : {F : Type 0} → ℕ → Loop F → Loop F
unfolding is_in_loop_thread
quit thread s =
    let told = record s { quit_flag = true } in
    if not (is_in_loop_thread thread told) then wakeup told else record told { breaking = true }

-- The lock makes the `push_back` atomic.
unfoldable pub queue_in_loop : {F : Type 0} → ℕ → Functor F → Loop F → Loop F
unfolding is_in_loop_thread
queue_in_loop thread f s =
    let pushed = record s {
      pending_functors = s.pending_functors ++ f ∷ [];
      queued = s.queued ++ f ∷ [];
    } in
    if not (is_in_loop_thread thread pushed) || pushed.calling_pending_functors
    then wakeup pushed
    else pushed

unfoldable pub queue_size : {F : Type 0} → Loop F → ℕ
queue_size s = length s.pending_functors

unfoldable pub handle_wakeup : {F : Type 0} → Loop F → Loop F
handle_wakeup s = if s.quit_flag then record s { breaking = true } else s

-- `loop()` up to the first poll; `ev_run` forgets an earlier `ev_break`.
unfoldable pub start_loop : {F : Type 0} → Loop F → Loop F
start_loop s = record s { looping = true; quit_flag = false; breaking = false; phase = polling }

-- The poll returns; a handled `ev_async_send` is cleared first.
unfoldable pub poll_returns : {F : Type 0} → Loop F → Loop F
unfolding handle_wakeup
poll_returns s =
    if s.async_sent
    then handle_wakeup (record s { async_sent = false; phase = dispatching })
    else record s { phase = dispatching }

-- The map `timers_`: a key erased, and how often it occurs.
unfoldable pub erase_timer : {F : Type 0} → ℕ → List (Timer F) → List (Timer F)
erase_timer id [] = []
erase_timer id (t ∷ ts) = if t.sequence == id then erase_timer id ts else (t ∷ erase_timer id ts)

unfoldable pub count_timer : {F : Type 0} → ℕ → List (Timer F) → ℕ
count_timer id [] = 0
count_timer id (t ∷ ts) = if t.sequence == id then suc (count_timer id ts) else count_timer id ts

-- `timers_[sequence] = timer` and `Timer::start`.
unfoldable pub add_timer_in_loop : {F : Type 0} → Timer F → Loop F → Loop F
unfolding erase_timer
add_timer_in_loop t s = record s {
  timers = record t { started = true } ∷ erase_timer t.sequence s.timers;
}

unfoldable pub cancel_timer_in_loop : {F : Type 0} → ℕ → Loop F → Loop F
unfolding erase_timer
cancel_timer_in_loop id s = record s { timers = erase_timer id s.timers }

-- `~Timer` stops the watcher.
unfoldable pub destroy_timer : {F : Type 0} → ℕ → Loop F → Loop F
unfolding erase_timer
destroy_timer id s = record s { timers = erase_timer id s.timers }

-- `EventLoop::Impl::~Impl`: the map of the timers is cleared.
unfoldable pub destroy_impl : {F : Type 0} → Loop F → Loop F
destroy_impl s = record s { timers = [] }

unfoldable pub cancel : {F : Type 0} → ℕ → ℕ → Loop F → Loop F
unfolding queue_in_loop
cancel thread id s = queue_in_loop thread (cancel_timer_in_loop_functor id) s

-- The constructor of `Timer`: the sequence is the incremented counter.
abbrev pub new_timer : {F : Type 0} → ℕ → ℕ → Bool → F → Timer F
new_timer sequence after repeats f = record {
  sequence = sequence;
  timer_cb = f;
  after = after;
  repeats = repeats;
  started = false;
}

-- `runAfter` and `runEvery`: the timer is made in the calling thread, and `runInLoop` adds it.
unfoldable pub run_timer : {F : Type 0} → ℕ → ℕ → Bool → F → Loop F → ℕ × Loop F
unfolding is_in_loop_thread queue_in_loop add_timer_in_loop
run_timer thread after repeats f s =
    let t = new_timer (suc s.created) after repeats f in
    let made = record s { created = suc s.created } in
    (
      t.sequence,
      if is_in_loop_thread thread made
          then add_timer_in_loop t made
          else queue_in_loop thread (add_timer_in_loop_functor t) made,
    )

-- The delay of `runAt`, in microseconds: at least 100 ms.
unfoldable pub run_at_delay : ℕ → ℕ → ℕ
run_at_delay now tm =
    if ltb now tm then (if ltb (tm - now) 100000 then 100000 else tm - now) else 100000

unfoldable pub run_at : {F : Type 0} → ℕ → ℕ → ℕ → F → Loop F → ℕ × Loop F
unfolding run_at_delay run_timer
run_at thread now tm f s = run_timer thread (run_at_delay now tm) false f s

unfoldable pub perform : {F : Type 0} → Loop F → Action F → Loop F
unfolding queue_in_loop quit cancel run_timer
perform s (queues f) = queue_in_loop s.thread_id (callback f) s
perform s quits = quit s.thread_id s
perform s (cancels id) = cancel s.thread_id id s
perform s (starts_timer after repeats f) = (run_timer s.thread_id after repeats f s).1

unfoldable pub perform_all : {F : Type 0} → Loop F → List (Action F) → Loop F
unfolding perform
perform_all s [] = s
perform_all s (a ∷ rest) = perform_all (perform s a) rest

-- `body` tells what each callback calls.
module _ {F : Type 0} (body : F → List (Action F)) where
  -- The call of a functor.
  unfoldable pub run_functor : Loop F → Functor F → Loop F
  unfolding perform_all add_timer_in_loop cancel_timer_in_loop
  run_functor s (callback f) = perform_all s (body f)
  run_functor s (add_timer_in_loop_functor t) = add_timer_in_loop t s
  run_functor s (cancel_timer_in_loop_functor id) = cancel_timer_in_loop id s

  unfoldable pub run_in_loop : ℕ → Functor F → Loop F → Loop F
  unfolding is_in_loop_thread run_functor queue_in_loop
  run_in_loop thread f s =
      if is_in_loop_thread thread s then run_functor s f else queue_in_loop thread f s

  -- The swap, which the lock makes atomic.
  unfoldable pub take_pending : Loop F → Loop F
  take_pending s = record s {
    calling_pending_functors = true;
    pending_functors = [];
    phase = running s.pending_functors;
  }

  -- One turn of the loop of `doPendingFunctors`.
  unfoldable pub run_next : Loop F → Functor F → List (Functor F) → Loop F
  unfolding run_functor
  run_next s f fs = run_functor (record s { phase = running fs; ran = s.ran ++ f ∷ [] }) f

  unfoldable pub run_all : Loop F → List (Functor F) → Loop F
  unfolding run_next
  run_all s [] = s
  run_all s (f ∷ fs) = run_all (run_next s f fs) fs

  -- Behind `doPendingFunctors` libev polls again, or `ev_run` and `loop()` return after an `ev_break`.
  unfoldable pub finish_pending : Loop F → Loop F
  finish_pending s =
      let done = record s { calling_pending_functors = false } in
      if done.breaking
      then record done { looping = false; phase = outside }
      else record done { phase = polling }

  unfoldable pub do_pending_functors : Loop F → Loop F
  unfolding take_pending run_all finish_pending
  do_pending_functors s = finish_pending (run_all (take_pending s) s.pending_functors)

  -- `handleTimerCb`, with `Timer::handleEvent`.
  unfoldable pub handle_timer_cb : Timer F → Loop F → Loop F
  unfolding perform_all destroy_timer
  handle_timer_cb t s =
      let called = perform_all s (body t.timer_cb) in
      if not t.repeats then destroy_timer t.sequence called else called
