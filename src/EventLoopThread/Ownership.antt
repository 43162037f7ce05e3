-- ===== src/EventLoopThread/Ownership.antt =====
-- Who deletes an `EventLoopThread`: its own thread behind the loop, and the pool that owns it.
use nev.Base.{ℕ, ◌+◌, ◌≡◌, refl, Bool, true, false, ◌&&◌, ◌||◌, if◌then◌else◌, arith}
use nev.EventLoopThread.{
  ready, Worker, absent, created, constructed, initialized, published, signaling, left, cleared,
  ended, Thread, new_thread, create_thread, wait_returns, read_loop, call_back, work, drop_owner,
  Step, starts, wakes, gets, works, drops, Reach, here, next,
}
use nev.EventLoopThread.Handshake.{is_absent, Inv, new_thread-Inv, Reach-Inv}

abbrev pub has_ended : Worker → Bool
has_ended ended = true
has_ended _ = false

abbrev pub one_if : Bool → ℕ
one_if b = if b then 1 else 0

pub record Owned (s : Thread) : Type 0 where
  pub counted : s.deleted ≡ one_if (has_ended s.worker) + one_if s.owner_gone
  pub twice : (has_ended s.worker && s.owner_gone) ≡ true → s.late_use ≡ true
  pub safe : (has_ended s.worker || s.owner_gone) ≡ false → s.late_use ≡ false

new_thread-Owned : Owned new_thread
unfolding new_thread
new_thread-Owned = ground arith

module _ (has_cb : Bool) (loop : ℕ) where
  work-Owned : (w : Worker) (s : Thread) → s.worker ≡ w → Owned s → Owned (work has_cb loop w s)
  unfolding work call_back
  work-Owned absent s e v = ground arith
  work-Owned created s e v = ground arith
  work-Owned constructed s e v = ground arith
  work-Owned initialized s e v = ground arith
  work-Owned published s e v = ground arith
  work-Owned signaling s e v = ground arith
  work-Owned left s e v = ground arith
  work-Owned cleared s e v = ground arith
  work-Owned ended s e v = ground arith

  starts-Owned : (s : Thread) → is_absent s.worker ≡ true → Owned s → Owned (create_thread s)
  unfolding create_thread
  starts-Owned s e v = ground arith

  ready_absent : (s : Thread) → s.caller ≡ ready → Inv has_cb loop s → is_absent s.worker ≡ true
  ready_absent s e v = ground arith

  Step-Owned : {s t : Thread} → Step has_cb loop s t → Inv has_cb loop s → Owned s → Owned t
  Step-Owned (starts s e) i v = starts-Owned s (ready_absent s e i) v
  Step-Owned (wakes s e f) i v = unfold wait_returns in ground arith
  Step-Owned (gets s e) i v = unfold read_loop in ground arith
  Step-Owned (works s) i v = work-Owned s.worker s refl v
  Step-Owned (drops s e f) i v = unfold drop_owner in ground arith

  -- In every state that is reached, the object was deleted once by its thread, if this has ended,
  -- and once by the pool, if this is gone; no field was used behind a delete before the first of
  -- these, and one was when both have happened.
  pub Reach-Owned : {t : Thread} → Reach has_cb loop new_thread t → Owned t
  Reach-Owned here = new_thread-Owned
  Reach-Owned (next r st) =
      Step-Owned st (Reach-Inv has_cb loop r (new_thread-Inv has_cb loop)) (Reach-Owned r)
