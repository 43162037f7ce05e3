-- ===== src/EventLoopThread/Handshake.antt =====
-- What `startLoop` returns, and that it does.
use nev.Base.{
  ℕ, zero, suc, sym, ap, ◌∙◌, Bool-cases, ◌≡◌, refl, ◌⊎◌, inl, inr, Bool, true, false, not, ◌&&◌,
  if◌then◌else◌, [], ◌∷◌, Option, none, some, arith,
}
use nev.EventLoopThread.{
  Caller, ready, waiting, woken, done, Worker, absent, created, constructed, initialized, published,
  signaling, left, cleared, ended, Thread, new_thread, create_thread, wait_returns, read_loop,
  call_back, work, drop_owner, is_done, Step, starts, wakes, gets, works, drops, Reach, here, next,
}

-- `startLoop` was called.
abbrev pub is_started : Caller → Bool
is_started ready = false
is_started _ = true

-- `event_.Wait()` has returned.
abbrev pub is_awake : Caller → Bool
is_awake woken = true
is_awake (done _) = true
is_awake _ = false

abbrev pub is_absent : Worker → Bool
is_absent absent = true
is_absent _ = false

-- The callback, if any, was called.
abbrev pub has_called : Worker → Bool
has_called absent = false
has_called created = false
has_called constructed = false
has_called _ = true

-- The thread has signaled.
abbrev pub has_signaled : Worker → Bool
has_signaled signaling = true
has_signaled left = true
has_signaled cleared = true
has_signaled ended = true
has_signaled _ = false

-- `loop.loop()` has returned.
abbrev pub has_left : Worker → Bool
has_left left = true
has_left cleared = true
has_left ended = true
has_left _ = false

-- `loop_` points to the loop.
abbrev pub points : Worker → Bool
points published = true
points signaling = true
points left = true
points _ = false

abbrev pub result : Caller → Option ℕ → Option ℕ
result (done r) other = r
result _ other = other

module _ (has_cb : Bool) (loop : ℕ) where
  pub record Inv (s : Thread) : Type 0 where
    pub begun : is_absent s.worker ≡ not (is_started s.caller)
    pub pointer : s.loop_ptr ≡ (if points s.worker then some loop else none)
    pub event : s.signaled ≡ (has_signaled s.worker && not (is_awake s.caller))
    pub woke : is_awake s.caller ≡ true → has_signaled s.worker ≡ true
    pub calls : s.called ≡ (if has_called s.worker && has_cb then loop ∷ [] else [])
    pub returned :
        is_done s.caller ≡ true → has_left s.worker ≡ false → result s.caller none ≡ some loop

  pub new_thread-Inv : Inv new_thread
  unfolding new_thread
  new_thread-Inv = ground arith

  work-Inv : (w : Worker) (s : Thread) → s.worker ≡ w → Inv s → Inv (work has_cb loop w s)
  unfolding work call_back
  work-Inv absent s e v = ground arith
  work-Inv created s e v = ground arith
  work-Inv constructed s e v = ground arith
  work-Inv initialized s e v = ground arith
  work-Inv published s e v = ground arith
  work-Inv signaling s e v = ground arith
  work-Inv left s e v = ground arith
  work-Inv cleared s e v = ground arith
  work-Inv ended s e v = ground arith

  Step-Inv : {s t : Thread} → Step has_cb loop s t → Inv s → Inv t
  Step-Inv (starts s e) v = unfold create_thread in ground arith
  Step-Inv (wakes s e f) v = unfold wait_returns in ground arith
  Step-Inv (gets s e) v = unfold read_loop in ground arith
  Step-Inv (works s) v = work-Inv s.worker s refl v
  Step-Inv (drops s e f) v = unfold drop_owner in ground arith

  pub Reach-Inv : {s t : Thread} → Reach has_cb loop s t → Inv s → Inv t
  Reach-Inv here v = v
  Reach-Inv (next r st) v = Step-Inv st (Reach-Inv r v)

  returned_loop :
      (s : Thread)
      → Inv s
      → is_done s.caller ≡ true
      → (s.called ≡ (if has_cb then loop ∷ [] else []))
        × ((s.caller ≡ done (some loop)) ⊎ (has_left s.worker ≡ true))
  returned_loop s v h = elim (Bool-cases (has_left s.worker)) [
    | inl gone ↦ (ground arith, inr gone)
    | inr stays ↦ (ground arith, inl (ground (arith, v.returned h stays)))
  ]

  pointer_at :
      (s : Thread) → Inv s → s.signaled ≡ true → has_left s.worker ≡ false → s.loop_ptr ≡ some loop
  pointer_at s v on stays = ground arith

  -- When startLoop has returned in any run, the callback, if there is one, was called once on the
  -- new loop, and the result is that loop unless the loop has already ended.
  pub start_loop_returns :
      {s : Thread}
      → Reach has_cb loop new_thread s
      → is_done s.caller ≡ true
      → (s.called ≡ (if has_cb then loop ∷ [] else []))
        × ((s.caller ≡ done (some loop)) ⊎ (has_left s.worker ≡ true))
  start_loop_returns {s} r h = let v = Reach-Inv r new_thread-Inv in returned_loop s v h

  -- The statements of `ThreadMain` up to the signal.
  abbrev pub to_signal : Worker → ℕ
  to_signal created = 4
  to_signal constructed = 3
  to_signal initialized = 2
  to_signal published = 1
  to_signal _ = 0

  closer :
      (w : Worker) (n : ℕ) (s : Thread)
      → s.worker ≡ w
      → to_signal w ≡ suc n
      → s.caller ≡ waiting
      → (to_signal (work has_cb loop w s).worker ≡ n)
        × ((work has_cb loop w s).caller ≡ waiting)
        × (has_left (work has_cb loop w s).worker ≡ false)
        × (has_left w ≡ false)
  unfolding work call_back
  closer created n s e h c = ground arith
  closer constructed n s e h c = ground arith
  closer initialized n s e h c = ground arith
  closer published n s e h c = ground arith
  closer absent n s e h c = absurd (omega arith)
  closer signaling n s e h c = absurd (omega arith)
  closer left n s e h c = absurd (omega arith)
  closer cleared n s e h c = absurd (omega arith)
  closer ended n s e h c = absurd (omega arith)

  signals :
      (n : ℕ) (s t : Thread)
      → Reach has_cb loop s t
      → Inv t
      → to_signal t.worker ≡ n
      → t.caller ≡ waiting
      → (u : Thread) × Reach has_cb loop s u
        × Inv u
        × (u.signaled ≡ true)
        × (u.caller ≡ waiting)
        × (has_left u.worker ≡ has_left t.worker)
  signals zero s t r v h c = (t, r, v, ground arith, c, refl)
  signals (suc n) s t r v h c =
      let (nearer, still, stays, was) = closer t.worker n t refl h c in
      let (u, reached, w, on, waits, same) =
        signals n s (work has_cb loop t.worker t) (next r (works t)) (work-Inv t.worker t refl v)
          nearer still in
      (u, reached, w, on, waits, same ∙ stays ∙ sym was)

  -- From every reached state in which startLoop waits, the run can be continued to its return,
  -- with the new loop if this has not yet ended: no signal is lost.
  pub start_loop_ends :
      {s : Thread}
      → Reach has_cb loop new_thread s
      → s.caller ≡ waiting
      → (u : Thread) × Reach has_cb loop s u
        × (is_done u.caller ≡ true)
        × (has_left s.worker ≡ false → u.caller ≡ done (some loop))
  unfolding wait_returns read_loop
  start_loop_ends {s} r c =
      let (u, reached, v, on, waits, same) =
        signals (to_signal s.worker) s s here (Reach-Inv r new_thread-Inv) refl c in
      (
        read_loop (wait_returns u),
        next (next reached (wakes u waits on)) (gets (wait_returns u) refl),
        refl,
        λ h. ap done (pointer_at u v on (same ∙ h)),
      )
