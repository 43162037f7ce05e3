-- ===== src/EventLoop/Step.antt =====
-- The steps that a loop's thread and the other threads take, in any order, and what every reached state
-- satisfies.
use nev.Base.{ℕ, suc, ◌≡◌, refl, ap, ◌∙◌, Bool, true, false, not, ◌||◌, List, [], ◌∷◌, ◌++◌, arith}
use nev.EventLoop.{
  Timer, Functor, callback, Action, queues, quits, cancels, starts_timer, Phase, outside, polling,
  dispatching, running, Loop, new_loop, is_in_loop_thread, quit, queue_in_loop, start_loop,
  poll_returns, run_timer, cancel, handle_wakeup, perform, perform_all, run_functor, take_pending,
  run_next, finish_pending, handle_timer_cb, destroy_timer, add_timer_in_loop, cancel_timer_in_loop,
  add_timer_in_loop_functor, cancel_timer_in_loop_functor,
}

-- The functors taken from the queue that have still to run.
abbrev pub in_flight : {F : Type 0} → Phase F → List (Functor F)
in_flight (running fs) = fs
in_flight _ = []

-- The thread of the loop sleeps, or is about to.
abbrev pub is_polling : {F : Type 0} → Phase F → Bool
is_polling polling = true
is_polling _ = false

abbrev pub is_running : {F : Type 0} → Phase F → Bool
is_running (running fs) = true
is_running _ = false

abbrev pub is_outside : {F : Type 0} → Phase F → Bool
is_outside outside = true
is_outside _ = false

abbrev pub has_any : {A : Type 0} → List A → Bool
has_any [] = false
has_any (x ∷ xs) = true

module _ {F : Type 0} (body : F → List (Action F)) where
  -- The poll may return at any time, since a descriptor or a timer is ready. Outside of `loop()` its thread
  -- may call what a callback may; timers of other loops draw on the same counter.
  pub data Step : Loop F → Loop F → Type 0 where
    starts : (s : Loop F) → s.phase ≡ outside → Step s (start_loop s)
    calls_outside : (s : Loop F) (a : Action F) → s.phase ≡ outside → Step s (perform s a)
    other_loop_makes_timer : (s : Loop F) → Step s (record s { created = suc s.created })
    other_queues :
        (s : Loop F) (thread : ℕ) (f : F)
        → is_in_loop_thread thread s ≡ false
        → Step s (queue_in_loop thread (callback f) s)
    other_cancels :
        (s : Loop F) (thread id : ℕ)
        → is_in_loop_thread thread s ≡ false
        → Step s (cancel thread id s)
    other_quits :
        (s : Loop F) (thread : ℕ) → is_in_loop_thread thread s ≡ false → Step s (quit thread s)
    other_starts_timer :
        (s : Loop F) (thread after : ℕ) (repeats : Bool) (f : F)
        → is_in_loop_thread thread s ≡ false
        → Step s (run_timer thread after repeats f s).1
    polls : (s : Loop F) → s.phase ≡ polling → Step s (poll_returns s)
    handles : (s : Loop F) (f : F) → s.phase ≡ dispatching → Step s (perform_all s (body f))
    fires : (s : Loop F) (t : Timer F) → s.phase ≡ dispatching → Step s (handle_timer_cb body t s)
    checks : (s : Loop F) → s.phase ≡ dispatching → Step s (take_pending body s)
    runs :
        (s : Loop F) (f : Functor F) (fs : List (Functor F))
        → s.phase ≡ running (f ∷ fs)
        → Step s (run_next body s f fs)
    finishes : (s : Loop F) → s.phase ≡ running [] → Step s (finish_pending body s)

  pub data Reach (s : Loop F) : Loop F → Type 0 where
    here : Reach s s
    next : {t u : Loop F} → Reach s t → Step t u → Reach s u

-- `hears`: a `quit` of a running loop has sent a wakeup or has broken the loop.
pub record Inv {F : Type 0} (s : Loop F) : Type 0 where
  pub calls_iff : s.calling_pending_functors ≡ is_running s.phase
  pub loops_iff : s.looping ≡ not (is_outside s.phase)
  pub asleep_unbroken : is_polling s.phase ≡ true → s.breaking ≡ false
  pub hears : is_outside s.phase ≡ false → s.quit_flag ≡ true → (s.async_sent || s.breaking) ≡ true

pub new_loop-Inv : {F : Type 0} (thread : ℕ) → Inv (new_loop {F = F} thread)
unfolding new_loop
new_loop-Inv thread = ground arith

-- The thread of the loop can make calls.
abbrev pub is_awake : {F : Type 0} → Phase F → Bool
is_awake p = not (is_polling p)

module _ {F : Type 0} where
  pub queue_in_loop-Inv :
      (thread : ℕ) (f : Functor F) (s : Loop F)
      → Inv s
      → (not (is_in_loop_thread thread s) || is_awake s.phase) ≡ true
      → Inv (queue_in_loop thread f s)
  unfolding queue_in_loop is_in_loop_thread
  queue_in_loop-Inv thread f s v h = ground arith

  pub quit-Inv :
      (thread : ℕ) (s : Loop F)
      → Inv s
      → (not (is_in_loop_thread thread s) || is_awake s.phase) ≡ true
      → Inv (quit thread s)
  unfolding quit is_in_loop_thread
  quit-Inv thread s v h = ground arith

  pub run_timer-Inv :
      (thread after : ℕ) (repeats : Bool) (f : F) (s : Loop F)
      → Inv s
      → (not (is_in_loop_thread thread s) || is_awake s.phase) ≡ true
      → Inv (run_timer thread after repeats f s).1
  unfolding run_timer add_timer_in_loop queue_in_loop is_in_loop_thread
  run_timer-Inv thread after repeats f s v h = ground arith

  -- What a callback calls leaves the phase and the thread as they are.
  pub perform-phase : (s : Loop F) (a : Action F) → (perform s a).phase ≡ s.phase
  unfolding perform queue_in_loop quit cancel run_timer add_timer_in_loop
  perform-phase s (queues f) = ground arith
  perform-phase s quits = ground arith
  perform-phase s (cancels id) = ground arith
  perform-phase s (starts_timer after repeats f) = ground arith

  pub perform-Inv :
      (s : Loop F) (a : Action F) → Inv s → is_awake s.phase ≡ true → Inv (perform s a)
  unfolding perform cancel
  perform-Inv s (queues f) v h = queue_in_loop-Inv s.thread_id (callback f) s v (ground arith)
  perform-Inv s quits v h = quit-Inv s.thread_id s v (ground arith)
  perform-Inv s (cancels id) v h =
      queue_in_loop-Inv s.thread_id (cancel_timer_in_loop_functor id) s v (ground arith)
  perform-Inv s (starts_timer after repeats f) v h =
      run_timer-Inv s.thread_id after repeats f s v (ground arith)

  pub perform_all-phase :
      (s : Loop F) (calls : List (Action F)) → (perform_all s calls).phase ≡ s.phase
  unfolding perform_all
  perform_all-phase s [] = refl
  perform_all-phase s (a ∷ rest) = perform_all-phase (perform s a) rest ∙ perform-phase s a

  perform_all-Inv :
      (s : Loop F) (calls : List (Action F))
      → Inv s
      → is_awake s.phase ≡ true
      → Inv (perform_all s calls)
  unfolding perform_all
  perform_all-Inv s [] v h = v
  perform_all-Inv s (a ∷ rest) v h =
      perform_all-Inv (perform s a) rest (perform-Inv s a v h) (ap is_awake (perform-phase s a) ∙ h)

module _ {F : Type 0} (body : F → List (Action F)) where
  pub run_functor-phase : (s : Loop F) (f : Functor F) → (run_functor body s f).phase ≡ s.phase
  unfolding run_functor add_timer_in_loop cancel_timer_in_loop
  run_functor-phase s (callback f) = perform_all-phase s (body f)
  run_functor-phase s (add_timer_in_loop_functor t) = refl
  run_functor-phase s (cancel_timer_in_loop_functor id) = refl

  run_functor-Inv :
      (s : Loop F) (f : Functor F) → Inv s → is_awake s.phase ≡ true → Inv (run_functor body s f)
  unfolding run_functor add_timer_in_loop cancel_timer_in_loop
  run_functor-Inv s (callback f) v h = perform_all-Inv s (body f) v h
  run_functor-Inv s (add_timer_in_loop_functor t) v h = ground arith
  run_functor-Inv s (cancel_timer_in_loop_functor id) v h = ground arith

  handle_timer_cb-Inv :
      (t : Timer F) (s : Loop F) → Inv s → s.phase ≡ dispatching → Inv (handle_timer_cb body t s)
  unfolding handle_timer_cb destroy_timer
  handle_timer_cb-Inv t s v h =
      let w = perform_all-Inv s (body t.timer_cb) v (ap is_awake h) in ground arith

  pub Step-Inv : {s t : Loop F} → Step body s t → Inv s → Inv t
  Step-Inv (starts s e) v = unfold start_loop in ground arith
  Step-Inv (calls_outside s a e) v = perform-Inv s a v (ap is_awake e)
  Step-Inv (other_loop_makes_timer s) v = ground arith
  Step-Inv (other_queues s thread f h) v = queue_in_loop-Inv thread (callback f) s v (ground arith)
  Step-Inv (other_cancels s thread id h) v =
      unfold cancel in queue_in_loop-Inv thread (cancel_timer_in_loop_functor id) s v (ground arith)
  Step-Inv (other_quits s thread h) v = quit-Inv thread s v (ground arith)
  Step-Inv (other_starts_timer s thread after repeats f h) v =
      run_timer-Inv thread after repeats f s v (ground arith)
  Step-Inv (polls s e) v = unfold poll_returns handle_wakeup in ground arith
  Step-Inv (handles s f e) v = perform_all-Inv s (body f) v (ap is_awake e)
  Step-Inv (fires s t e) v = handle_timer_cb-Inv t s v e
  Step-Inv (checks s e) v = unfold take_pending in ground arith
  Step-Inv (runs s f fs e) v =
      unfold run_next in
      run_functor-Inv (record s { phase = running fs; ran = s.ran ++ f ∷ [] }) f (ground arith) refl
  Step-Inv (finishes s e) v = unfold finish_pending in ground arith

  pub Reach-Inv : {s t : Loop F} → Reach body s t → Inv s → Inv t
  Reach-Inv here v = v
  Reach-Inv (next r st) v = Step-Inv st (Reach-Inv r v)
