-- ===== src/EventLoop/Tests.antt =====
-- A loop at work: another thread queues, a callback queues again and sets a timer, and the loop quits.
use nev.Base.{◌≡◌, refl, true, false, List, [], ◌∷◌}
use nev.EventLoop.{
  Timer, callback, cancel_timer_in_loop_functor, Action, queues, cancels, starts_timer, polling,
  dispatching, Loop, new_loop, is_in_loop_thread, quit, queue_in_loop, start_loop, poll_returns,
  perform_all, do_pending_functors, handle_timer_cb, handle_wakeup, count_timer, take_pending,
  run_all, run_next, run_functor, finish_pending, run_timer, cancel, perform, add_timer_in_loop,
  erase_timer, run_at_delay,
}
use nev.EventLoop.Step.{
  is_polling, has_any, starts, other_queues, other_quits, polls, handles, checks, runs, finishes,
  Reach, here, next, Reach-Inv, new_loop-Inv,
}
use nev.EventLoop.Queue.{InOrder, Reach-new_loop-InOrder}
use nev.EventLoop.Wakeups.{NeverQueuesOutside, sleeping-woken}
use nev.EventLoop.Pass.{
  Passed, do_pending_functors-Reach, do_pending_functors-Passed, quit_ends-loop, queue_before_loop,
}
use nev.EventLoop.Destroy.{TimersTold, Reach-new_loop-TimersTold, handle_timer_cb-destroys}

data Job : Type 0 where
  leaf chain timed : Job

abbrev body : Job → List (Action Job)
body leaf = []
body chain = queues leaf ∷ cancels 1 ∷ []
body timed = starts_timer 500 false chain ∷ []

-- The loop of thread 1 is asleep; thread 2 queues; the poll returns; the functors run.
abbrev asleep : Loop Job
asleep = start_loop (new_loop 1)

abbrev told : Loop Job
told = queue_in_loop 2 (callback chain) asleep

abbrev up : Loop Job
up = poll_returns told

abbrev passed : Loop Job
passed = do_pending_functors body up

to_up : Reach body (new_loop 1) up
unfolding new_loop start_loop queue_in_loop is_in_loop_thread
to_up =
    next (next (next here (starts (new_loop 1) refl)) (other_queues asleep 2 chain refl))
      (polls told refl)

up_dispatches : up.phase ≡ dispatching
unfolding new_loop start_loop queue_in_loop poll_returns handle_wakeup is_in_loop_thread
up_dispatches = refl

join : {s t u : Loop Job} → Reach body s t → Reach body t u → Reach body s u
join r here = r
join r (next q st) = next (join r q) st

to_passed : Reach body (new_loop 1) passed
to_passed = join to_up (do_pending_functors-Reach body up up_dispatches)

passed_state :
    (passed.ran ≡ callback chain ∷ [])
    × (passed.pending_functors ≡ callback leaf ∷ cancel_timer_in_loop_functor 1 ∷ [])
    × (passed.phase ≡ polling)
unfolding new_loop start_loop queue_in_loop poll_returns handle_wakeup is_in_loop_thread
    do_pending_functors take_pending run_all run_next run_functor finish_pending perform_all perform
    cancel
passed_state = (refl, refl, refl)

Reach-new_loop-InOrder_example : InOrder passed
Reach-new_loop-InOrder_example = Reach-new_loop-InOrder body 1 to_passed

passed_polls : is_polling passed.phase ≡ true
passed_polls = rw passed_state.2 refl

passed_waits : has_any passed.pending_functors ≡ true
passed_waits = rw passed_state.1 refl

quiet_passed : (r : Reach body (new_loop 1) passed) × NeverQueuesOutside body r
unfolding new_loop start_loop queue_in_loop poll_returns handle_wakeup is_in_loop_thread
    do_pending_functors take_pending run_all run_next run_functor finish_pending perform_all perform
    cancel
quiet_passed = (
  next
      (next
        (next
          (next (next (next here (starts (new_loop 1) refl)) (other_queues asleep 2 chain refl))
            (polls told refl))
          (checks up refl))
        (runs (take_pending body up) (callback chain) [] refl))
      (finishes (run_next body (take_pending body up) (callback chain) []) refl),
  ((((((tt, refl), refl), refl), refl), refl), refl),
)

sleeping-woken_example : passed.async_sent ≡ true
sleeping-woken_example =
    sleeping-woken body 1 quiet_passed.0 quiet_passed.1 passed_polls passed_waits

do_pending_functors-Passed_example : Passed body up passed
do_pending_functors-Passed_example =
    do_pending_functors-Passed body up (Reach-Inv body to_up (new_loop-Inv 1)) up_dispatches

abbrev stopping : Loop Job
stopping = quit 2 asleep

to_stopping : Reach body (new_loop 1) stopping
unfolding new_loop start_loop is_in_loop_thread
to_stopping = next (next here (starts (new_loop 1) refl)) (other_quits asleep 2 refl)

stopping_state : (stopping.phase ≡ polling) × (stopping.quit_flag ≡ true)
unfolding new_loop start_loop quit is_in_loop_thread
stopping_state = (refl, refl)

quit_ends-loop_example :
    (stopping.async_sent ≡ true)
    × ((do_pending_functors body (poll_returns stopping)).looping ≡ false)
quit_ends-loop_example = quit_ends-loop body 1 to_stopping stopping_state.0 stopping_state.1

-- A callback sets a one-shot timer.
abbrev armed : Loop Job
armed = perform_all up (body timed)

abbrev alarm : Timer Job
alarm = record { sequence = 1; timer_cb = chain; after = 500; repeats = false; started = true }

to_armed : Reach body (new_loop 1) armed
to_armed = next to_up (handles up timed up_dispatches)

armed_once : count_timer 1 armed.timers ≡ 1
unfolding new_loop start_loop queue_in_loop poll_returns handle_wakeup is_in_loop_thread perform_all
    perform run_timer add_timer_in_loop erase_timer count_timer
armed_once = refl

Reach-new_loop-TimersTold_example : TimersTold body armed
Reach-new_loop-TimersTold_example = Reach-new_loop-TimersTold body 1 to_armed

handle_timer_cb-destroys_example :
    (count_timer 1 (perform_all armed (body chain)).timers ≡ 1)
    × (count_timer 1 (handle_timer_cb body alarm armed).timers ≡ 0)
handle_timer_cb-destroys_example = handle_timer_cb-destroys body 1 alarm to_armed armed_once

queue_before_loop_run :
    let s = start_loop (queue_in_loop 1 (callback leaf) (new_loop 1)) in
    (s.phase ≡ polling) × (s.pending_functors ≡ callback leaf ∷ []) × (s.async_sent ≡ false)
queue_before_loop_run = queue_before_loop 1 (callback leaf)

soon : run_at_delay 1000 1500 ≡ 100000
unfolding run_at_delay
soon = refl
