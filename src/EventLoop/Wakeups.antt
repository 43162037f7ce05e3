-- ===== src/EventLoop/Wakeups.antt =====
-- The wakeups over a run of the loop.
use nev.Base.{ℕ, ◌≡◌, refl, ap, ◌∙◌, Bool, true, false, not, ◌||◌, ◌&&◌, List, [], ◌∷◌, ◌++◌, arith}
use nev.EventLoop.{
  Phase, Functor, callback, Action, queues, quits, cancels, starts_timer, dispatching, running,
  Loop, new_loop, is_in_loop_thread, quit, queue_in_loop, start_loop, poll_returns, run_timer,
  cancel, handle_wakeup, perform, perform_all, run_functor, take_pending, run_next, finish_pending,
  handle_timer_cb, destroy_timer, add_timer_in_loop, cancel_timer_in_loop,
  add_timer_in_loop_functor, cancel_timer_in_loop_functor,
}
use nev.EventLoop.Step.{
  is_polling, is_running, is_outside, has_any, Step, starts, calls_outside, other_loop_makes_timer,
  other_queues, other_cancels, other_quits, other_starts_timer, polls, handles, fires, checks, runs,
  finishes, Reach, here, next, Inv, new_loop-Inv, Reach-Inv, perform-Inv, perform-phase,
}

-- Before the thread sleeps, and while it runs functors, whatever waits in the queue has sent a wakeup.
pub record IsHeard {F : Type 0} (s : Loop F) : Type 0 where
  pub listens :
      (is_polling s.phase || is_running s.phase) ≡ true
      → has_any s.pending_functors ≡ true
      → s.async_sent ≡ true
  pub idle : is_outside s.phase ≡ true → has_any s.pending_functors ≡ true → s.async_sent ≡ true

module _ {F : Type 0} (body : F → List (Action F)) where
  -- The loop's own thread queues a functor outside of `loop()`.
  abbrev pub queues_outside : {s t : Loop F} → Step body s t → Bool
  queues_outside (calls_outside s (queues f) e) = true
  queues_outside (calls_outside s (cancels id) e) = true
  queues_outside _ = false

  -- A run in which this never happens.
  abbrev pub NeverQueuesOutside : {s t : Loop F} → Reach body s t → Type 0
  NeverQueuesOutside here = Unit
  NeverQueuesOutside (next r st) = NeverQueuesOutside r × (queues_outside st ≡ false)

-- The thread of the loop is in a callback.
abbrev pub is_busy : {F : Type 0} → Phase F → Bool
is_busy p = not (is_polling p) && not (is_outside p)

module _ {F : Type 0} where
  queue_in_loop-IsHeard :
      (thread : ℕ) (f : Functor F) (s : Loop F)
      → Inv s
      → IsHeard s
      → (not (is_in_loop_thread thread s) || is_busy s.phase) ≡ true
      → IsHeard (queue_in_loop thread f s)
  unfolding queue_in_loop is_in_loop_thread
  queue_in_loop-IsHeard thread f s v w h = ground arith

  quit-IsHeard : (thread : ℕ) (s : Loop F) → IsHeard s → IsHeard (quit thread s)
  unfolding quit is_in_loop_thread
  quit-IsHeard thread s w = ground arith

  -- The thread of the loop adds the timer at once.
  run_timer-IsHeard :
      (thread after : ℕ) (repeats : Bool) (f : F) (s : Loop F)
      → IsHeard s
      → IsHeard (run_timer thread after repeats f s).1
  unfolding run_timer add_timer_in_loop queue_in_loop is_in_loop_thread
  run_timer-IsHeard thread after repeats f s w = ground arith

  perform-IsHeard :
      (s : Loop F) (a : Action F)
      → Inv s
      → IsHeard s
      → is_busy s.phase ≡ true
      → IsHeard (perform s a)
  unfolding perform cancel
  perform-IsHeard s (queues f) v w h =
      queue_in_loop-IsHeard s.thread_id (callback f) s v w (ground arith)
  perform-IsHeard s quits v w h = quit-IsHeard s.thread_id s w
  perform-IsHeard s (cancels id) v w h =
      queue_in_loop-IsHeard s.thread_id (cancel_timer_in_loop_functor id) s v w (ground arith)
  perform-IsHeard s (starts_timer after repeats f) v w h =
      run_timer-IsHeard s.thread_id after repeats f s w

  perform_all-IsHeard :
      (s : Loop F) (calls : List (Action F))
      → Inv s
      → IsHeard s
      → is_busy s.phase ≡ true
      → IsHeard (perform_all s calls)
  unfolding perform_all
  perform_all-IsHeard s [] v w h = w
  perform_all-IsHeard s (a ∷ rest) v w h =
      perform_all-IsHeard (perform s a) rest (perform-Inv s a v (ground arith))
        (perform-IsHeard s a v w h) (ap is_busy (perform-phase s a) ∙ h)

module _ {F : Type 0} (body : F → List (Action F)) where
  run_functor-IsHeard :
      (s : Loop F) (f : Functor F)
      → Inv s
      → IsHeard s
      → is_busy s.phase ≡ true
      → IsHeard (run_functor body s f)
  unfolding run_functor add_timer_in_loop cancel_timer_in_loop
  run_functor-IsHeard s (callback f) v w h = perform_all-IsHeard s (body f) v w h
  run_functor-IsHeard s (add_timer_in_loop_functor t) v w h = ground arith
  run_functor-IsHeard s (cancel_timer_in_loop_functor id) v w h = ground arith

  pub run_next-IsHeard :
      (s : Loop F) (f : Functor F) (fs : List (Functor F))
      → s.phase ≡ running (f ∷ fs)
      → Inv s
      → IsHeard s
      → IsHeard (run_next body s f fs)
  unfolding run_next
  run_next-IsHeard s f fs e v w =
      run_functor-IsHeard (record s { phase = running fs; ran = s.ran ++ f ∷ [] }) f (ground arith)
        (ground arith) refl

  pub take_pending-IsHeard : (s : Loop F) → IsHeard (take_pending body s)
  unfolding take_pending
  take_pending-IsHeard s = ground arith

  pub finish_pending-IsHeard :
      (s : Loop F) → s.phase ≡ running [] → IsHeard s → IsHeard (finish_pending body s)
  unfolding finish_pending
  finish_pending-IsHeard s e w = ground arith

  -- No thread of a watcher's callback sleeps.
  dispatching-IsHeard : (s : Loop F) → s.phase ≡ dispatching → IsHeard s
  dispatching-IsHeard s e = ground arith

  Step-IsHeard :
      {s t : Loop F} (st : Step body s t)
      → queues_outside body st ≡ false
      → Inv s
      → IsHeard s
      → IsHeard t
  Step-IsHeard (starts s e) q v w = unfold start_loop in ground arith
  Step-IsHeard (calls_outside s (queues f) e) q v w = absurd (ground arith)
  Step-IsHeard (calls_outside s quits e) q v w = unfold perform in quit-IsHeard s.thread_id s w
  Step-IsHeard (calls_outside s (cancels id) e) q v w = absurd (ground arith)
  Step-IsHeard (calls_outside s (starts_timer after repeats f) e) q v w =
      unfold perform in run_timer-IsHeard s.thread_id after repeats f s w
  Step-IsHeard (other_loop_makes_timer s) q v w = ground arith
  Step-IsHeard (other_queues s thread f h) q v w =
      queue_in_loop-IsHeard thread (callback f) s v w (ground arith)
  Step-IsHeard (other_cancels s thread id h) q v w =
      unfold cancel in
      queue_in_loop-IsHeard thread (cancel_timer_in_loop_functor id) s v w (ground arith)
  Step-IsHeard (other_quits s thread h) q v w = quit-IsHeard thread s w
  Step-IsHeard (other_starts_timer s thread after repeats f h) q v w =
      run_timer-IsHeard thread after repeats f s w
  Step-IsHeard (polls s e) q v w = unfold poll_returns handle_wakeup in ground arith
  Step-IsHeard (handles s f e) q v w = perform_all-IsHeard s (body f) v w (ap is_busy e)
  Step-IsHeard (fires s t e) q v w =
      let k = perform_all-IsHeard s (body t.timer_cb) v w (ap is_busy e) in
      unfold handle_timer_cb destroy_timer in ground arith
  Step-IsHeard (checks s e) q v w = take_pending-IsHeard s
  Step-IsHeard (runs s f fs e) q v w = run_next-IsHeard s f fs e v w
  Step-IsHeard (finishes s e) q v w = finish_pending-IsHeard s e w

  Reach-IsHeard :
      {s t : Loop F} (r : Reach body s t)
      → NeverQueuesOutside body r
      → Inv s
      → IsHeard s
      → IsHeard t
  Reach-IsHeard here n v w = w
  Reach-IsHeard (next r st) n v w =
      Step-IsHeard st n.1 (Reach-Inv body r v) (Reach-IsHeard r n.0 v w)

  new_loop-IsHeard : (thread : ℕ) → IsHeard (new_loop {F = F} thread)
  unfolding new_loop
  new_loop-IsHeard thread = ground arith

  -- In every state that a new loop reaches, by a run in which its own thread queues nothing
  -- outside of loop(), in which its thread sleeps while functors wait in the queue, a wakeup was
  -- sent.
  pub sleeping-woken :
      (thread : ℕ) {t : Loop F} (r : Reach body (new_loop thread) t)
      → NeverQueuesOutside body r
      → is_polling t.phase ≡ true
      → has_any t.pending_functors ≡ true
      → t.async_sent ≡ true
  sleeping-woken thread r n p w =
      (Reach-IsHeard r n (new_loop-Inv thread) (new_loop-IsHeard thread)).listens (ground arith) w
