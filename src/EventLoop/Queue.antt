-- ===== src/EventLoop/Queue.antt =====
-- The order of the queue over a run of the loop.
use nev.Base.{ℕ, ◌≡◌, refl, sym, ap, ap₂, ◌∙◌, List, [], ◌∷◌, ◌++◌, arith, append_assoc, append-nil}
use nev.EventLoop.{
  Functor, callback, Action, polling, running, Loop, new_loop, start_loop, poll_returns, cancel,
  handle_wakeup, take_pending, run_next, finish_pending, cancel_timer_in_loop_functor,
}
use nev.EventLoop.Step.{
  in_flight, Step, starts, other_queues, other_cancels, other_quits, other_starts_timer, polls,
  calls_outside, other_loop_makes_timer, handles, fires, checks, runs, finishes, Reach, here, next,
}
use nev.EventLoop.Extends.{
  Extends, queue_in_loop-Extends, run_timer-Extends, quit-Extends, perform-Extends,
  perform_all-Extends, run_functor-Extends, handle_timer_cb-Extends,
}

-- Every queued functor has run, is in flight or waits, in this order.
abbrev pub InOrder : {F : Type 0} → Loop F → Type 0
InOrder s = s.ran ++ in_flight s.phase ++ s.pending_functors ≡ s.queued

module _ {F : Type 0} where
  Extends-InOrder : {s t : Loop F} → Extends s t → InOrder s → InOrder t
  Extends-InOrder {s} {t} x h =
      ap (λ r. r ++ in_flight t.phase ++ t.pending_functors) x.same_ran
      ∙ ap (λ p. s.ran ++ in_flight p ++ t.pending_functors) x.same_phase
      ∙ ap (λ p. s.ran ++ in_flight s.phase ++ p) x.waits
      ∙ sym (append_assoc (s.ran ++ in_flight s.phase) s.pending_functors x.new)
      ∙ ap (λ p. p ++ x.new) h
      ∙ sym x.logged

  -- A change of phase that neither takes nor loses a functor.
  rephased :
      (s t : Loop F)
      → t.ran ≡ s.ran
      → in_flight t.phase ≡ in_flight s.phase
      → t.pending_functors ≡ s.pending_functors
      → t.queued ≡ s.queued
      → InOrder s
      → InOrder t
  rephased s t r f p q h = ap₂ ◌++◌ (ap₂ ◌++◌ r f) p ∙ h ∙ sym q

  poll_returns-InOrder : (s : Loop F) → s.phase ≡ polling → InOrder s → InOrder (poll_returns s)
  unfolding poll_returns handle_wakeup
  poll_returns-InOrder s e h =
      rephased s (poll_returns s) (ground arith) (ground arith) (ground arith) (ground arith) h

module _ {F : Type 0} (body : F → List (Action F)) where
  run_next-InOrder :
      (s : Loop F) (f : Functor F) (fs : List (Functor F))
      → s.phase ≡ running (f ∷ fs)
      → InOrder s
      → InOrder (run_next body s f fs)
  unfolding run_next
  run_next-InOrder s f fs e h =
      let moved = record s { phase = running fs; ran = s.ran ++ f ∷ [] } in
      Extends-InOrder (run_functor-Extends body moved f) (
        ap (λ xs. xs ++ s.pending_functors)
          (append_assoc s.ran (f ∷ []) fs ∙ ap (λ p. s.ran ++ in_flight p) (sym e))
        ∙ h)

  finish_pending-InOrder :
      (s : Loop F) → s.phase ≡ running [] → InOrder s → InOrder (finish_pending body s)
  unfolding finish_pending
  finish_pending-InOrder s e h =
      rephased s (finish_pending body s) (ground arith) (ground arith) (ground arith) (ground arith)
        h

  Step-InOrder : {s t : Loop F} → Step body s t → InOrder s → InOrder t
  Step-InOrder (starts s e) h =
      unfold start_loop in rephased s (start_loop s) refl (ap in_flight (sym e)) refl refl h
  Step-InOrder (calls_outside s a e) h = Extends-InOrder (perform-Extends s a) h
  Step-InOrder (other_loop_makes_timer s) h = h
  Step-InOrder (other_queues s thread f k) h =
      Extends-InOrder (queue_in_loop-Extends thread (callback f) s) h
  Step-InOrder (other_cancels s thread id k) h =
      unfold cancel in
      Extends-InOrder (queue_in_loop-Extends thread (cancel_timer_in_loop_functor id) s) h
  Step-InOrder (other_quits s thread k) h = Extends-InOrder (quit-Extends thread s) h
  Step-InOrder (other_starts_timer s thread after repeats f k) h =
      Extends-InOrder (run_timer-Extends thread after repeats f s) h
  Step-InOrder (polls s e) h = poll_returns-InOrder s e h
  Step-InOrder (handles s f e) h = Extends-InOrder (perform_all-Extends s (body f)) h
  Step-InOrder (fires s t e) h = Extends-InOrder (handle_timer_cb-Extends body t s) h
  Step-InOrder (checks s e) h =
      unfold take_pending in
      append-nil (s.ran ++ s.pending_functors)
      ∙ ap (λ xs. xs ++ s.pending_functors) (sym (append-nil s.ran))
      ∙ ap (λ p. s.ran ++ in_flight p ++ s.pending_functors) (sym e)
      ∙ h
  Step-InOrder (runs s f fs e) h = run_next-InOrder s f fs e h
  Step-InOrder (finishes s e) h = finish_pending-InOrder s e h

  Reach-InOrder : {s t : Loop F} → Reach body s t → InOrder s → InOrder t
  Reach-InOrder here h = h
  Reach-InOrder (next r st) h = Step-InOrder st (Reach-InOrder r h)

  -- In every state that a new loop reaches, the functors that have run, those in flight and those
  -- that wait are all that were queued, each once and in the order of the queueing.
  pub Reach-new_loop-InOrder :
      (thread : ℕ) {t : Loop F} → Reach body (new_loop thread) t → InOrder t
  unfolding new_loop
  Reach-new_loop-InOrder thread r = Reach-InOrder r refl
