-- ===== src/EventLoop/Destroy.antt =====
-- The timers over a run of the loop, and the end of one that fires.
use nev.Base.{
  ℕ, ltb, ltb→lt, ltb→ge, ◌≤◌, ◌≡◌, ◌==◌, true, false, Bool, refl, ap, ◌∙◌, not, if◌then◌else◌,
  List, [], ◌∷◌, ◌++◌, arith, Bool-cases, inl, inr,
}
use nev.EventLoop.{
  Timer, Functor, callback, add_timer_in_loop_functor, cancel_timer_in_loop_functor, Action,
  outside, polling, dispatching, running, Loop, new_loop, start_loop, poll_returns, handle_wakeup,
  count_timer, erase_timer, add_timer_in_loop, run_timer, cancel_timer_in_loop, destroy_timer,
  cancel, perform_all, run_functor, run_next, take_pending, finish_pending, handle_timer_cb,
}
use nev.EventLoop.Step.{
  Step, starts, calls_outside, other_loop_makes_timer, other_queues, other_cancels, other_quits,
  other_starts_timer, polls, handles, fires, checks, runs, finishes, Reach, here, next,
}
use nev.EventLoop.Timers.{
  count_adds, total, TimersInv, Shrinks-TimersInv, Arms, run_timer-Arms, either_one, count-erase,
  count-erase_other, count-erase-bound, erase-TimersInv, queue-TimersInv, made-TimersInv,
  quit-TimersInv, run_timer-TimersInv, perform-TimersInv, perform_all-TimersInv,
  perform_all-Untouched,
}

module _ {F : Type 0} where
  new_loop-TimersInv : (thread : ℕ) → TimersInv (new_loop {F = F} thread)
  unfolding new_loop count_timer count_adds
  new_loop-TimersInv thread = record { unique = λ id. omega arith; made = λ id h. refl }

  poll_returns-TimersInv :
      (s : Loop F) → s.phase ≡ polling → TimersInv s → TimersInv (poll_returns s)
  unfolding poll_returns handle_wakeup count_adds
  poll_returns-TimersInv s e v =
      Shrinks-TimersInv s (poll_returns s)
        (record { fewer = λ id. ground arith; later = ground arith }) v

module _ {F : Type 0} (body : F → List (Action F)) where
  -- A functor that is taken from the pass and runs.
  run_next-TimersInv :
      (s : Loop F) (f : Functor F) (fs : List (Functor F))
      → s.phase ≡ running (f ∷ fs)
      → TimersInv s
      → TimersInv (run_next body s f fs)
  unfolding run_next run_functor add_timer_in_loop cancel_timer_in_loop count_adds count_timer
  run_next-TimersInv s (callback f) fs e v =
      let taken = record s { phase = running fs; ran = s.ran ++ callback f ∷ [] } in
      perform_all-TimersInv taken (body f)
        (Shrinks-TimersInv s taken (record { fewer = λ id. ground arith; later = omega arith }) v)
  run_next-TimersInv s (add_timer_in_loop_functor t) fs e v =
      Shrinks-TimersInv s (run_next body s (add_timer_in_loop_functor t) fs)
        (record {
          fewer = λ id.
              ground (arith, count-erase id s.timers, count-erase-bound id t.sequence s.timers);
          later = omega arith;
        })
        v
  run_next-TimersInv s (cancel_timer_in_loop_functor c) fs e v =
      Shrinks-TimersInv s (run_next body s (cancel_timer_in_loop_functor c) fs)
        (record {
          fewer = λ id. ground (arith, count-erase-bound id c s.timers);
          later = omega arith;
        })
        v

  handle_timer_cb-TimersInv :
      (t : Timer F) (s : Loop F) → TimersInv s → TimersInv (handle_timer_cb body t s)
  unfolding handle_timer_cb destroy_timer
  handle_timer_cb-TimersInv t s v =
      let called = perform_all s (body t.timer_cb) in
      let w = perform_all-TimersInv s (body t.timer_cb) v in
      either_one TimersInv (not t.repeats) (destroy_timer t.sequence called) called
        (erase-TimersInv t.sequence called w) w

  take_pending-TimersInv :
      (s : Loop F) → s.phase ≡ dispatching → TimersInv s → TimersInv (take_pending body s)
  unfolding take_pending count_adds
  take_pending-TimersInv s e v =
      Shrinks-TimersInv s (take_pending body s)
        (record { fewer = λ id. ground arith; later = omega arith }) v

  finish_pending-TimersInv :
      (s : Loop F) → s.phase ≡ running [] → TimersInv s → TimersInv (finish_pending body s)
  unfolding finish_pending count_adds
  finish_pending-TimersInv s e v =
      Shrinks-TimersInv s (finish_pending body s)
        (record { fewer = λ id. ground arith; later = ground arith }) v

  start_loop-TimersInv : (s : Loop F) → s.phase ≡ outside → TimersInv s → TimersInv (start_loop s)
  unfolding start_loop count_adds
  start_loop-TimersInv s e v =
      Shrinks-TimersInv s (start_loop s)
        (record { fewer = λ id. ground arith; later = omega arith }) v

  Step-TimersInv : {s t : Loop F} → Step body s t → TimersInv s → TimersInv t
  Step-TimersInv (starts s e) v = start_loop-TimersInv s e v
  Step-TimersInv (calls_outside s a e) v = perform-TimersInv s a v
  Step-TimersInv (other_loop_makes_timer s) v = made-TimersInv s v
  Step-TimersInv (other_queues s thread f h) v =
      queue-TimersInv thread (callback f) s (λ id. unfold count_adds in refl) v
  Step-TimersInv (other_cancels s thread c h) v =
      unfold cancel in
      queue-TimersInv thread (cancel_timer_in_loop_functor c) s (λ id. unfold count_adds in refl) v
  Step-TimersInv (other_quits s thread h) v = quit-TimersInv thread s v
  Step-TimersInv (other_starts_timer s thread after repeats f h) v =
      run_timer-TimersInv thread after repeats f s v
  Step-TimersInv (polls s e) v = poll_returns-TimersInv s e v
  Step-TimersInv (handles s f e) v = perform_all-TimersInv s (body f) v
  Step-TimersInv (fires s t e) v = handle_timer_cb-TimersInv t s v
  Step-TimersInv (checks s e) v = take_pending-TimersInv s e v
  Step-TimersInv (runs s f fs e) v = run_next-TimersInv s f fs e v
  Step-TimersInv (finishes s e) v = finish_pending-TimersInv s e v

  Reach-TimersInv : {s t : Loop F} → Reach body s t → TimersInv s → TimersInv t
  Reach-TimersInv here v = v
  Reach-TimersInv (next r st) v = Step-TimersInv st (Reach-TimersInv r v)

  Reach-new_loop-TimersInv :
      (thread : ℕ) {t : Loop F} → Reach body (new_loop thread) t → TimersInv t
  Reach-new_loop-TimersInv thread r = Reach-TimersInv r (new_loop-TimersInv thread)

  -- What starts, adds and cancels timers, in a state `s`.
  pub record TimersTold (s : Loop F) : Type 0 where
    pub unique : (id : ℕ) → total id s ≤ 1
    pub arms :
        (thread after : ℕ) (repeats : Bool) (f : F)
        → let r = run_timer thread after repeats f s in Arms s r.0 r.1
    pub adds :
        (t : Timer F) (fs : List (Functor F))
        → s.phase ≡ running (add_timer_in_loop_functor t ∷ fs)
        → (run_next body s (add_timer_in_loop_functor t) fs).timers
          ≡ record t { started = true } ∷ s.timers
    pub cancels :
        (id : ℕ)
        → let t = run_functor body s (cancel_timer_in_loop_functor id) in
          (count_timer id t.timers ≡ 0)
          × ((other : ℕ)
              → (other == id) ≡ false
              → count_timer other t.timers ≡ count_timer other s.timers)

  erase_absent : (id : ℕ) (ts : List (Timer F)) → count_timer id ts ≡ 0 → erase_timer id ts ≡ ts
  unfolding count_timer erase_timer
  erase_absent id [] h = refl
  erase_absent id (t ∷ ts) h = ground (arith, erase_absent id ts)

  -- The timer that waits to be added is not in the map.
  adds_alone :
      (s : Loop F) (t : Timer F) (fs : List (Functor F))
      → s.phase ≡ running (add_timer_in_loop_functor t ∷ fs)
      → total t.sequence s ≤ 1
      → count_timer t.sequence s.timers ≡ 0
  unfolding count_adds
  adds_alone s t fs e h = ground arith

  -- In every state that a new loop reaches, each sequence is that of at most one timer, in the
  -- map or waiting to be added; a timer that is started, in any thread, gets a sequence that no
  -- timer has, and is then the one timer of it, the others as before; a timer that is added
  -- overwrites none; and a cancel that runs erases the timer of its sequence and no other.
  pub Reach-new_loop-TimersTold :
      (thread : ℕ) {t : Loop F} → Reach body (new_loop thread) t → TimersTold t
  Reach-new_loop-TimersTold thread {t} r =
      let v = Reach-new_loop-TimersInv thread r in
      record {
        unique = v.unique;
        arms = λ other after repeats f. run_timer-Arms other after repeats f t v;
        adds = λ m fs e.
            unfold run_next run_functor add_timer_in_loop in
            ap (λ ts. record m { started = true } ∷ ts)
              (erase_absent m.sequence t.timers (adds_alone t m fs e (v.unique m.sequence)));
        cancels = λ id.
            unfold run_functor cancel_timer_in_loop in
            (count-erase id t.timers, λ other n. count-erase_other other id t.timers n);
      }

  made_of_count : (s : Loop F) (id : ℕ) → TimersInv s → count_timer id s.timers ≡ 1 → id ≤ s.created
  made_of_count s id v h = elim (Bool-cases (ltb s.created id)) [
    | inl t ↦ omega (arith, h, v.made id (ltb→lt s.created id t))
    | inr t ↦ ltb→ge s.created id t
  ]

  -- In a reached state, a timer of the map that fires still stands in it once behind its
  -- callback, and then is gone if it is a one-shot timer, and stays otherwise.
  pub handle_timer_cb-destroys :
      (thread : ℕ) {s : Loop F} (t : Timer F)
      → Reach body (new_loop thread) s
      → count_timer t.sequence s.timers ≡ 1
      → (count_timer t.sequence (perform_all s (body t.timer_cb)).timers ≡ 1)
        × (count_timer t.sequence (handle_timer_cb body t s).timers ≡ (if t.repeats then 1 else 0))
  unfolding handle_timer_cb destroy_timer
  handle_timer_cb-destroys thread {s} t r h =
      let v = Reach-new_loop-TimersInv thread r in
      let k =
        perform_all-Untouched t.sequence s (body t.timer_cb) (made_of_count s t.sequence v h) ∙ h in
      (k, ground (arith, k, count-erase t.sequence (perform_all s (body t.timer_cb)).timers))
