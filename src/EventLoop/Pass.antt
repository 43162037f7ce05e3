-- ===== src/EventLoop/Pass.antt =====
-- One pass of `doPendingFunctors`, and the end of a loop.
use nev.Base.{
  ℕ, ◌≡◌, refl, sym, ap, ◌∙◌, true, false, ◌||◌, List, [], ◌∷◌, ◌++◌, arith, append_assoc,
  append-nil,
}
use nev.EventLoop.{
  Functor, Action, polling, dispatching, running, Loop, new_loop, is_in_loop_thread, queue_in_loop,
  start_loop, poll_returns, handle_wakeup, run_all, run_next, take_pending, finish_pending,
  do_pending_functors,
}
use nev.EventLoop.Step.{
  is_polling, has_any, Step-Inv, new_loop-Inv, polls, is_outside, checks, runs, finishes, Reach,
  here, next, Inv, Reach-Inv, run_functor-phase,
}
use nev.EventLoop.Wakeups.{IsHeard, run_next-IsHeard, take_pending-IsHeard, finish_pending-IsHeard}
use nev.EventLoop.Extends.{run_functor-Extends}

told :
    {F : Type 0} (s : Loop F)
    → Inv s
    → s.phase ≡ polling
    → s.quit_flag ≡ true
    → (s.async_sent ≡ true)
      × ((poll_returns s).phase ≡ dispatching)
      × ((poll_returns s).breaking ≡ true)
unfolding poll_returns handle_wakeup
told s v e q = ground arith

module _ {F : Type 0} (body : F → List (Action F)) where
  -- What one pass of `doPendingFunctors` leaves: all that waited has run, in order; what waits now was
  -- queued meanwhile, and a loop that goes on has a wakeup for it; a broken loop ends.
  pub record Passed (s t : Loop F) : Type 0 where
    pub ran_all : t.ran ≡ s.ran ++ s.pending_functors
    pub new_wait : t.queued ≡ s.queued ++ t.pending_functors
    pub woken : has_any t.pending_functors ≡ true → t.async_sent ≡ true
    pub ends : s.breaking ≡ true → t.looping ≡ false

  -- While a pass runs.
  record Ran (s t : Loop F) (fs : List (Functor F)) : Type 0 where
    new : List (Functor F)
    ran : t.ran ≡ s.ran ++ fs
    waits : t.pending_functors ≡ s.pending_functors ++ new
    logged : t.queued ≡ s.queued ++ new
    broken : s.breaking ≡ true → t.breaking ≡ true

  run_all-Ran : (s : Loop F) (fs : List (Functor F)) → Ran s (run_all body s fs) fs
  unfolding run_all run_next
  run_all-Ran s [] = record {
    new = [];
    ran = sym (append-nil s.ran);
    waits = sym (append-nil s.pending_functors);
    logged = sym (append-nil s.queued);
    broken = λ b. b;
  }
  run_all-Ran s (f ∷ fs) =
      let x = run_functor-Extends body (record s { phase = running fs; ran = s.ran ++ f ∷ [] }) f in
      let y = run_all-Ran (run_next body s f fs) fs in
      record {
        new = x.new ++ y.new;
        ran = y.ran ∙ ap (λ r. r ++ fs) x.same_ran ∙ append_assoc s.ran (f ∷ []) fs;
        waits =
            y.waits ∙ ap (λ p. p ++ y.new) x.waits ∙ append_assoc s.pending_functors x.new y.new;
        logged = y.logged ∙ ap (λ p. p ++ y.new) x.logged ∙ append_assoc s.queued x.new y.new;
        broken = λ b. y.broken (x.stays_broken b);
      }

  run_all-phase :
      (s : Loop F) (fs : List (Functor F))
      → s.phase ≡ running fs
      → (run_all body s fs).phase ≡ running []
  unfolding run_all run_next
  run_all-phase s [] e = e
  run_all-phase s (f ∷ fs) e =
      run_all-phase (run_next body s f fs) fs
        (run_functor-phase body (record s { phase = running fs; ran = s.ran ++ f ∷ [] }) f)

  run_all-Reach :
      {r : Loop F} (s : Loop F) (fs : List (Functor F))
      → s.phase ≡ running fs
      → Reach body r s
      → Reach body r (run_all body s fs)
  unfolding run_all
  run_all-Reach s [] e r = r
  run_all-Reach s (f ∷ fs) e r =
      run_all-Reach (run_next body s f fs) fs
        (unfold run_next in
          run_functor-phase body (record s { phase = running fs; ran = s.ran ++ f ∷ [] }) f)
        (next r (runs s f fs e))

  -- The function is a run of the steps that it is made of.
  pub do_pending_functors-Reach :
      (s : Loop F) → s.phase ≡ dispatching → Reach body s (do_pending_functors body s)
  unfolding do_pending_functors
  do_pending_functors-Reach s e =
      next
        (run_all-Reach (take_pending body s) s.pending_functors (unfold take_pending in refl)
          (next here (checks s e)))
        (finishes (run_all body (take_pending body s) s.pending_functors)
          (run_all-phase (take_pending body s) s.pending_functors (unfold take_pending in refl)))

  run_all-IsHeard :
      (s : Loop F) (fs : List (Functor F))
      → s.phase ≡ running fs
      → Inv s
      → IsHeard s
      → IsHeard (run_all body s fs)
  unfolding run_all
  run_all-IsHeard s [] e v w = w
  run_all-IsHeard s (f ∷ fs) e v w =
      run_all-IsHeard (run_next body s f fs) fs
        (unfold run_next in
          run_functor-phase body (record s { phase = running fs; ran = s.ran ++ f ∷ [] }) f)
        (Step-Inv body (runs s f fs e) v) (run_next-IsHeard body s f fs e v w)

  -- What `finish_pending` changes.
  record Finished (s t : Loop F) : Type 0 where
    same_ran : t.ran ≡ s.ran
    same_pending : t.pending_functors ≡ s.pending_functors
    same_queued : t.queued ≡ s.queued
    rests : (is_polling t.phase || is_outside t.phase) ≡ true
    stops : s.breaking ≡ true → t.looping ≡ false

  finish_pending-Finished : (s : Loop F) → Finished s (finish_pending body s)
  unfolding finish_pending
  finish_pending-Finished s = record {
    same_ran = ground arith;
    same_pending = ground arith;
    same_queued = ground arith;
    rests = ground arith;
    stops = λ b. ground arith;
  }

  rested :
      (t : Loop F)
      → IsHeard t
      → (is_polling t.phase || is_outside t.phase) ≡ true
      → has_any t.pending_functors ≡ true
      → t.async_sent ≡ true
  rested t v r w = ground arith

  -- When the watchers of a loop in a state of the invariant are done, a pass runs all functors
  -- that waited, in order; those that are queued meanwhile wait for the next pass, with a wakeup,
  -- and a broken loop ends.
  pub do_pending_functors-Passed :
      (s : Loop F) → Inv s → s.phase ≡ dispatching → Passed s (do_pending_functors body s)
  unfolding do_pending_functors
  do_pending_functors-Passed s v e =
      let t = do_pending_functors body s in
      let w =
        finish_pending-IsHeard body (run_all body (take_pending body s) s.pending_functors)
          (run_all-phase (take_pending body s) s.pending_functors (unfold take_pending in refl))
          (run_all-IsHeard (take_pending body s) s.pending_functors (unfold take_pending in refl)
            (Step-Inv body (checks s e) v) (take_pending-IsHeard body s)) in
      let x = run_all-Ran (take_pending body s) s.pending_functors in
      let y = finish_pending-Finished (run_all body (take_pending body s) s.pending_functors) in
      unfold take_pending in
      record {
        ran_all = y.same_ran ∙ x.ran;
        new_wait = y.same_queued ∙ x.logged ∙ ap (◌++◌ s.queued) (sym (y.same_pending ∙ x.waits));
        woken = rested t w y.rests;
        ends = λ b. y.stops (x.broken b);
      }

  -- In a reached state in which a loop that was told to quit is asleep, a wakeup was sent, and
  -- the loop ends behind the next iteration.
  pub quit_ends-loop :
      (thread : ℕ) {s : Loop F}
      → Reach body (new_loop thread) s
      → s.phase ≡ polling
      → s.quit_flag ≡ true
      → (s.async_sent ≡ true) × ((do_pending_functors body (poll_returns s)).looping ≡ false)
  quit_ends-loop thread {s} r e q =
      let v = Reach-Inv body r (new_loop-Inv thread) in
      let a = told s v e q in
      let w = Step-Inv body (polls s e) v in
      (a.0, (do_pending_functors-Passed (poll_returns s) w a.1).ends a.2)

-- A functor that the loop's own thread queues before loop() sends no wakeup: the loop falls
-- asleep with it in the queue.
pub queue_before_loop :
    {F : Type 0} (thread : ℕ) (f : Functor F)
    → let s = start_loop (queue_in_loop thread f (new_loop thread)) in
      (s.phase ≡ polling) × (s.pending_functors ≡ f ∷ []) × (s.async_sent ≡ false)
unfolding start_loop queue_in_loop new_loop is_in_loop_thread
queue_before_loop thread f = ground arith
