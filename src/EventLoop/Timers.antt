-- ===== src/EventLoop/Timers.antt =====
-- The timers of a loop, in the map and waiting to be added: every sequence is that of one at most.
use nev.Base.{
  ℕ, suc, ◌≤◌, ◌<◌, ◌≡◌, ◌==◌, refl, ◌∙◌, Bool, true, false, if◌then◌else◌, List, [], ◌∷◌, ◌++◌,
  arith, ◌+◌, Bool-cases, inl, inr,
}
use nev.EventLoop.{
  Timer, new_timer, Functor, callback, add_timer_in_loop_functor, cancel_timer_in_loop_functor,
  Action, queues, quits, cancels, starts_timer, Loop, is_in_loop_thread, quit, queue_in_loop,
  erase_timer, count_timer, add_timer_in_loop, cancel, run_timer, perform, perform_all,
}
use nev.EventLoop.Step.{in_flight}

module _ {F : Type 0} where
  pub count-erase : (id : ℕ) (ts : List (Timer F)) → count_timer id (erase_timer id ts) ≡ 0
  unfolding count_timer erase_timer
  count-erase id [] = refl
  count-erase id (t ∷ ts) = ground (arith, count-erase id ts)

  pub count-erase_other :
      (id other : ℕ) (ts : List (Timer F))
      → (id == other) ≡ false
      → count_timer id (erase_timer other ts) ≡ count_timer id ts
  unfolding count_timer erase_timer
  count-erase_other id other [] h = refl
  count-erase_other id other (t ∷ ts) h = ground (arith, count-erase_other id other ts h)

  pub count-erase-bound :
      (id other : ℕ) (ts : List (Timer F))
      → count_timer id (erase_timer other ts) ≤ count_timer id ts
  unfolding count_timer erase_timer
  count-erase-bound id other [] = omega arith
  count-erase-bound id other (t ∷ ts) = ground (arith, count-erase-bound id other ts)

-- How often a timer waits to be added.
unfoldable pub count_adds : {F : Type 0} → ℕ → List (Functor F) → ℕ
count_adds id [] = 0
count_adds id (add_timer_in_loop_functor t ∷ fs) =
    if t.sequence == id then suc (count_adds id fs) else count_adds id fs
count_adds id (_ ∷ fs) = count_adds id fs

-- The timers of a sequence: in the map, in a pass of the queue, and in the queue.
abbrev pub total : {F : Type 0} → ℕ → Loop F → ℕ
total id s =
    count_timer id s.timers + (count_adds id (in_flight s.phase) + count_adds id s.pending_functors)

pub either_one :
    {A : Type 0} (P : A → Type 0) (b : Bool) (x y : A) → P x → P y → P (if b then x else y)
either_one P true x y h k = h
either_one P false x y h k = k

-- Every sequence is that of one timer at most, and a sequence that was not given out is that of none.
pub record TimersInv {F : Type 0} (s : Loop F) : Type 0 where
  pub unique : (id : ℕ) → total id s ≤ 1
  pub made : (id : ℕ) → s.created < id → total id s ≡ 0

-- No timer more, and no sequence taken back.
pub record Shrinks {F : Type 0} (s t : Loop F) : Type 0 where
  pub fewer : (id : ℕ) → total id t ≤ total id s
  pub later : s.created ≤ t.created

module _ {F : Type 0} where
  pub Shrinks-TimersInv : (s t : Loop F) → Shrinks s t → TimersInv s → TimersInv t
  Shrinks-TimersInv s t k v = record {
    unique = λ id. omega (arith, k.fewer id, v.unique id);
    made = λ id h. omega (arith, k.fewer id, v.made id (omega (arith, k.later, h)));
  }

  pub count_adds-append :
      (id : ℕ) (fs gs : List (Functor F))
      → count_adds id (fs ++ gs) ≡ count_adds id fs + count_adds id gs
  unfolding count_adds
  count_adds-append id [] gs = omega arith
  count_adds-append id (callback f ∷ fs) gs = count_adds-append id fs gs
  count_adds-append id (add_timer_in_loop_functor t ∷ fs) gs =
      ground (arith, count_adds-append id fs gs)
  count_adds-append id (cancel_timer_in_loop_functor c ∷ fs) gs = count_adds-append id fs gs

  queue-total :
      (id thread : ℕ) (f : Functor F) (s : Loop F)
      → (total id (queue_in_loop thread f s) ≡ total id s + count_adds id (f ∷ []))
        × ((queue_in_loop thread f s).created ≡ s.created)
  unfolding queue_in_loop
  queue-total id thread f s = ground (arith, count_adds-append id s.pending_functors (f ∷ []))

  pub queue-TimersInv :
      (thread : ℕ) (f : Functor F) (s : Loop F)
      → ((id : ℕ) → count_adds id (f ∷ []) ≡ 0)
      → TimersInv s
      → TimersInv (queue_in_loop thread f s)
  queue-TimersInv thread f s h v =
      Shrinks-TimersInv s (queue_in_loop thread f s)
        (record {
          fewer = λ id. omega (arith, (queue-total id thread f s).0, h id);
          later = omega (arith, (queue-total 0 thread f s).1);
        })
        v

  pub quit-TimersInv : (thread : ℕ) (s : Loop F) → TimersInv s → TimersInv (quit thread s)
  unfolding quit
  quit-TimersInv thread s v =
      Shrinks-TimersInv s (quit thread s)
        (record { fewer = λ id. ground arith; later = ground arith }) v

  pub erase-TimersInv :
      (id : ℕ) (s : Loop F)
      → TimersInv s
      → TimersInv (record s { timers = erase_timer id s.timers })
  erase-TimersInv id s v =
      Shrinks-TimersInv s (record s { timers = erase_timer id s.timers })
        (record {
          fewer = λ i. omega (arith, count-erase-bound i id s.timers);
          later = omega arith;
        })
        v

  pub made-TimersInv : (s : Loop F) → TimersInv s → TimersInv (record s { created = suc s.created })
  made-TimersInv s v =
      Shrinks-TimersInv s (record s { created = suc s.created })
        (record { fewer = λ id. omega arith; later = omega arith }) v

  -- The new timer is one of a sequence that was not given out, and the others are as before.
  pub record Arms (s : Loop F) (id : ℕ) (t : Loop F) : Type 0 where
    pub unused : total id s ≡ 0
    pub armed : total id t ≡ 1
    pub others : (other : ℕ) → (id == other) ≡ false → total other t ≡ total other s

  added-Arms :
      (s : Loop F) (t : Timer F)
      → TimersInv s
      → t.sequence ≡ suc s.created
      → Arms s t.sequence (add_timer_in_loop t (record s { created = suc s.created }))
  unfolding add_timer_in_loop count_timer
  added-Arms s t v e =
      let z = v.made t.sequence (omega (arith, e)) in
      record {
        unused = z;
        armed = ground (arith, z, count-erase t.sequence s.timers);
        others =
            λ other n. ground (arith, count-erase_other other t.sequence s.timers (ground arith));
      }

  queued-Arms :
      (thread : ℕ) (s : Loop F) (t : Timer F)
      → TimersInv s
      → t.sequence ≡ suc s.created
      → Arms s t.sequence (
          queue_in_loop thread (add_timer_in_loop_functor t) (record s { created = suc s.created }))
  queued-Arms thread s t v e =
      let z = v.made t.sequence (omega (arith, e)) in
      let m = record s { created = suc s.created } in
      let q = λ (id : ℕ). (queue-total id thread (add_timer_in_loop_functor t) m).0 in
      unfold count_adds in
      record {
        unused = z;
        armed = ground (arith, z, q t.sequence);
        others = λ other n. ground (arith, q other);
      }

  pub run_timer-Arms :
      (thread after : ℕ) (repeats : Bool) (f : F) (s : Loop F)
      → TimersInv s
      → let r = run_timer thread after repeats f s in Arms s r.0 r.1
  unfolding run_timer
  run_timer-Arms thread after repeats f s v =
      let t = new_timer (suc s.created) after repeats f in
      let m = record s { created = suc s.created } in
      either_one (Arms s (suc s.created)) (is_in_loop_thread thread s) (add_timer_in_loop t m)
        (queue_in_loop thread (add_timer_in_loop_functor t) m) (added-Arms s t v refl)
        (queued-Arms thread s t v refl)

  run_timer-created :
      (thread after : ℕ) (repeats : Bool) (f : F) (s : Loop F)
      → let r = run_timer thread after repeats f s in
        (r.1.created ≡ suc s.created) × (r.0 ≡ suc s.created)
  unfolding run_timer queue_in_loop add_timer_in_loop
  run_timer-created thread after repeats f s = ground arith

  pub run_timer-TimersInv :
      (thread after : ℕ) (repeats : Bool) (f : F) (s : Loop F)
      → TimersInv s
      → TimersInv (run_timer thread after repeats f s).1
  run_timer-TimersInv thread after repeats f s v =
      let r = run_timer thread after repeats f s in
      let a = run_timer-Arms thread after repeats f s v in
      let c = run_timer-created thread after repeats f s in
      record {
        unique = λ id. elim (Bool-cases (r.0 == id)) [
          | inl t ↦ ground (arith, a.armed)
          | inr t ↦ omega (arith, a.others id t, v.unique id)
        ];
        made = λ id h.
            omega (arith, a.others id (ground (arith, c)), v.made id (omega (arith, c.0, h)));
      }

  pub perform-TimersInv : (s : Loop F) (a : Action F) → TimersInv s → TimersInv (perform s a)
  unfolding perform cancel
  perform-TimersInv s (queues f) v =
      queue-TimersInv s.thread_id (callback f) s (λ id. unfold count_adds in refl) v
  perform-TimersInv s quits v = quit-TimersInv s.thread_id s v
  perform-TimersInv s (cancels id) v =
      queue-TimersInv s.thread_id (cancel_timer_in_loop_functor id) s
        (λ i. unfold count_adds in refl) v
  perform-TimersInv s (starts_timer after repeats f) v =
      run_timer-TimersInv s.thread_id after repeats f s v

  pub perform_all-TimersInv :
      (s : Loop F) (calls : List (Action F)) → TimersInv s → TimersInv (perform_all s calls)
  unfolding perform_all
  perform_all-TimersInv s [] v = v
  perform_all-TimersInv s (a ∷ rest) v =
      perform_all-TimersInv (perform s a) rest (perform-TimersInv s a v)

  -- Calls of a callback touch no timer that was made before.
  Untouched : ℕ → Loop F → Loop F → Type 0
  Untouched id s t = (count_timer id t.timers ≡ count_timer id s.timers) × (s.created ≤ t.created)

  perform-Untouched :
      (id : ℕ) (s : Loop F) (a : Action F) → id ≤ s.created → Untouched id s (perform s a)
  unfolding perform Untouched queue_in_loop quit cancel run_timer add_timer_in_loop count_timer
  perform-Untouched id s (queues f) h = ground arith
  perform-Untouched id s quits h = ground arith
  perform-Untouched id s (cancels other) h = ground arith
  perform-Untouched id s (starts_timer after repeats f) h =
      ground (arith, count-erase_other id (suc s.created) s.timers)

  pub perform_all-Untouched :
      (id : ℕ) (s : Loop F) (calls : List (Action F))
      → id ≤ s.created
      → count_timer id (perform_all s calls).timers ≡ count_timer id s.timers
  unfolding perform_all Untouched
  perform_all-Untouched id s [] h = refl
  perform_all-Untouched id s (a ∷ rest) h =
      let x = perform-Untouched id s a h in
      perform_all-Untouched id (perform s a) rest (omega (arith, x.1)) ∙ x.0
