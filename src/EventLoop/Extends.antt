-- ===== src/EventLoop/Extends.antt =====
-- What a call on the loop does to its queue.
use nev.Base.{
  ℕ, suc, ◌≡◌, refl, sym, ap, ◌∙◌, Bool, true, false, not, if◌then◌else◌, List, [], ◌∷◌, ◌++◌,
  arith, append_assoc, append-nil,
}
use nev.EventLoop.{
  Timer, new_timer, Functor, callback, Action, queues, quits, cancels, starts_timer, Loop,
  is_in_loop_thread, quit, queue_in_loop, run_timer, cancel, perform, perform_all, run_functor,
  handle_timer_cb, destroy_timer, add_timer_in_loop, cancel_timer_in_loop,
  add_timer_in_loop_functor, cancel_timer_in_loop_functor,
}

-- What a call on the loop does to the queue: it puts functors behind, and each is logged.
pub record Extends {F : Type 0} (s t : Loop F) : Type 0 where
  pub new : List (Functor F)
  pub waits : t.pending_functors ≡ s.pending_functors ++ new
  pub logged : t.queued ≡ s.queued ++ new
  pub same_ran : t.ran ≡ s.ran
  pub same_phase : t.phase ≡ s.phase
  pub stays_broken : s.breaking ≡ true → t.breaking ≡ true
  pub same_calling : t.calling_pending_functors ≡ s.calling_pending_functors

module _ {F : Type 0} where
  extend_none :
      (s t : Loop F)
      → t.pending_functors ≡ s.pending_functors
      → t.queued ≡ s.queued
      → t.ran ≡ s.ran
      → t.phase ≡ s.phase
      → (s.breaking ≡ true → t.breaking ≡ true)
      → t.calling_pending_functors ≡ s.calling_pending_functors
      → Extends s t
  extend_none s t p q r h b c = record {
    new = [];
    waits = p ∙ sym (append-nil s.pending_functors);
    logged = q ∙ sym (append-nil s.queued);
    same_ran = r;
    same_phase = h;
    stays_broken = b;
    same_calling = c;
  }

  pub queue_in_loop-Extends :
      (thread : ℕ) (f : Functor F) (s : Loop F) → Extends s (queue_in_loop thread f s)
  unfolding queue_in_loop
  queue_in_loop-Extends thread f s = record {
    new = f ∷ [];
    waits = ground arith;
    logged = ground arith;
    same_ran = ground arith;
    same_phase = ground arith;
    stays_broken = λ b. ground arith;
    same_calling = ground arith;
  }

  either_Extends :
      {s : Loop F} (b : Bool) (t u : Loop F)
      → Extends s t
      → Extends s u
      → Extends s (if b then t else u)
  either_Extends true t u x y = x
  either_Extends false t u x y = y

  pub run_timer-Extends :
      (thread after : ℕ) (repeats : Bool) (f : F) (s : Loop F)
      → Extends s (run_timer thread after repeats f s).1
  unfolding run_timer add_timer_in_loop
  run_timer-Extends thread after repeats f s =
      let t = new_timer (suc s.created) after repeats f in
      let e =
        queue_in_loop-Extends thread (add_timer_in_loop_functor t)
          (record s { created = suc s.created }) in
      let made = record s { created = suc s.created } in
      either_Extends (is_in_loop_thread thread s) (add_timer_in_loop t made)
        (queue_in_loop thread (add_timer_in_loop_functor t) made)
        (extend_none s (add_timer_in_loop t made) refl refl refl refl (λ b. b) refl)
        (record {
          new = e.new;
          waits = e.waits;
          logged = e.logged;
          same_ran = e.same_ran;
          same_phase = e.same_phase;
          stays_broken = e.stays_broken;
          same_calling = e.same_calling;
        })

  pub quit-Extends : (thread : ℕ) (s : Loop F) → Extends s (quit thread s)
  unfolding quit
  quit-Extends thread s =
      extend_none s (quit thread s) (ground arith) (ground arith) (ground arith) (ground arith)
        (λ b. ground arith) (ground arith)

  Extends-trans : {s t u : Loop F} → Extends s t → Extends t u → Extends s u
  Extends-trans {s} x y = record {
    new = x.new ++ y.new;
    waits = y.waits ∙ ap (λ xs. xs ++ y.new) x.waits ∙ append_assoc s.pending_functors x.new y.new;
    logged = y.logged ∙ ap (λ xs. xs ++ y.new) x.logged ∙ append_assoc s.queued x.new y.new;
    same_ran = y.same_ran ∙ x.same_ran;
    same_phase = y.same_phase ∙ x.same_phase;
    stays_broken = λ b. y.stays_broken (x.stays_broken b);
    same_calling = y.same_calling ∙ x.same_calling;
  }

  pub perform-Extends : (s : Loop F) (a : Action F) → Extends s (perform s a)
  unfolding perform cancel
  perform-Extends s (queues f) = queue_in_loop-Extends s.thread_id (callback f) s
  perform-Extends s quits = quit-Extends s.thread_id s
  perform-Extends s (cancels id) =
      queue_in_loop-Extends s.thread_id (cancel_timer_in_loop_functor id) s
  perform-Extends s (starts_timer after repeats f) = run_timer-Extends s.thread_id after repeats f s

  pub perform_all-Extends : (s : Loop F) (calls : List (Action F)) → Extends s (perform_all s calls)
  unfolding perform_all
  perform_all-Extends s [] = extend_none s s refl refl refl refl (λ b. b) refl
  perform_all-Extends s (a ∷ rest) =
      Extends-trans (perform-Extends s a) (perform_all-Extends (perform s a) rest)

module _ {F : Type 0} (body : F → List (Action F)) where
  pub run_functor-Extends : (s : Loop F) (f : Functor F) → Extends s (run_functor body s f)
  unfolding run_functor add_timer_in_loop cancel_timer_in_loop
  run_functor-Extends s (callback f) = perform_all-Extends s (body f)
  run_functor-Extends s (add_timer_in_loop_functor t) =
      extend_none s (add_timer_in_loop t s) refl refl refl refl (λ b. b) refl
  run_functor-Extends s (cancel_timer_in_loop_functor id) =
      extend_none s (cancel_timer_in_loop id s) refl refl refl refl (λ b. b) refl

  pub handle_timer_cb-Extends : (t : Timer F) (s : Loop F) → Extends s (handle_timer_cb body t s)
  unfolding handle_timer_cb destroy_timer
  handle_timer_cb-Extends t s =
      let called = perform_all s (body t.timer_cb) in
      let x = perform_all-Extends s (body t.timer_cb) in
      either_Extends (not t.repeats) (destroy_timer t.sequence called) called
        (record {
          new = x.new;
          waits = x.waits;
          logged = x.logged;
          same_ran = x.same_ran;
          same_phase = x.same_phase;
          stays_broken = x.stays_broken;
          same_calling = x.same_calling;
        })
        x
