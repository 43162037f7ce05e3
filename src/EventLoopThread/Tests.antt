-- ===== src/EventLoopThread/Tests.antt =====
-- Runs of two threads: one in order, and one in which the loop ends before its pointer is read.
use nev.Base.{ℕ, zero, suc, ◌≡◌, refl, ◌⊎◌, true, false, [], ◌∷◌, some, none}
use nev.EventLoopThread.{
  done, Thread, new_thread, create_thread, wait_returns, read_loop, call_back, work, drop_owner,
  is_done, starts, wakes, gets, works, drops, Reach, here, next,
}
use nev.EventLoopThread.Handshake.{has_left, start_loop_returns, start_loop_ends}
use nev.EventLoopThread.Ownership.{Owned, Reach-Owned}

-- The new thread runs `n` statements.
abbrev worked : ℕ → Thread → Thread
unfolding work call_back
worked zero s = s
worked (suc n) s = worked n (work true 7 s.worker s)

Reach-worked : {s : Thread} (n : ℕ) (t : Thread) → Reach true 7 s t → Reach true 7 s (worked n t)
unfolding worked
Reach-worked zero t r = r
Reach-worked (suc n) t r = Reach-worked n (work true 7 t.worker t) (next r (works t))

abbrev begun : Thread
unfolding new_thread create_thread
begun = create_thread new_thread

Reach-begun : Reach true 7 new_thread begun
unfolding begun new_thread
Reach-begun = next here (starts new_thread refl)

-- `n` statements of the new thread, and then the caller wakes and reads `loop_`.
abbrev returned : ℕ → Thread
unfolding worked begun wait_returns read_loop
returned n = read_loop (wait_returns (worked n begun))

Reach-returned : Reach true 7 new_thread (returned 4)
unfolding returned worked begun wait_returns
Reach-returned =
    let woken = worked 4 begun in
    next (next (Reach-worked 4 begun Reach-begun) (wakes woken refl refl))
      (gets (wait_returns woken) refl)

gets_loop : (returned 4).caller ≡ done (some 7)
unfolding returned
gets_loop = refl

-- A loop that has ended in the meantime: `startLoop` returns a null pointer, read from a deleted object.
gets_null : ((returned 7).caller ≡ done none) × ((returned 7).late_use ≡ true)
unfolding returned
gets_null = (refl, refl)

start_loop_returns_example :
    ((returned 4).called ≡ 7 ∷ [])
    × (((returned 4).caller ≡ done (some 7)) ⊎ (has_left (returned 4).worker ≡ true))
unfolding returned
start_loop_returns_example = start_loop_returns true 7 Reach-returned refl

start_loop_ends_example :
    (u : Thread) × Reach true 7 begun u
    × (is_done u.caller ≡ true)
    × (has_left begun.worker ≡ false → u.caller ≡ done (some 7))
unfolding begun
start_loop_ends_example = start_loop_ends true 7 Reach-begun refl

-- The loop ends, and then the pool goes.
abbrev dropped : Thread
unfolding returned worked drop_owner
dropped = drop_owner (worked 3 (returned 4))

twice_deleted : (dropped.deleted ≡ 2) × (dropped.late_use ≡ true)
unfolding dropped
twice_deleted = (refl, refl)

Reach-Owned_example : Owned dropped
unfolding dropped
Reach-Owned_example =
    Reach-Owned true 7
      (next (Reach-worked 3 (returned 4) Reach-returned) (drops (worked 3 (returned 4)) refl refl))
