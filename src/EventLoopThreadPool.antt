-- ===== src/EventLoopThreadPool.antt =====
-- src/nev/event_loop_thread_pool.cc and src/nev/event_loop_thread_pool.h: the class
-- `EventLoopThreadPool`. A loop of type `L` stands for a pointer to it; the loops that the threads start
-- are given by `loop_of`.
pub mod RoundRobin
mod Tests
use nev.Base.{
  ℕ, zero, suc, ◌+◌, ◌%◌, Bool, true, false, if◌then◌else◌, leb, ◌==◌, List, [], ◌∷◌, ◌++◌, length,
  get_elem?, Option, some, none,
}

pub record Pool (L : Type 0) : Type 0 where
  pub base_loop : L
  pub started : Bool
  pub num_threads : ℕ
  pub next : ℕ
  pub loops : List L

unfoldable pub new_pool : {L : Type 0} → L → Pool L
new_pool base = record { base_loop = base; started = false; num_threads = 0; next = 0; loops = [] }

unfoldable pub set_thread_num : {L : Type 0} → ℕ → Pool L → Pool L
set_thread_num n p = record p { num_threads = n }

-- The loops of the threads from the number `i` on, `n` of them.
unfoldable pub start_loops : {L : Type 0} → (ℕ → L) → ℕ → ℕ → List L
start_loops loop_of i zero = []
start_loops loop_of i (suc n) = loop_of i ∷ start_loops loop_of (suc i) n

-- Each thread calls the initialization callback on its loop; without threads the base loop gets it.
-- The second component lists these loops.
unfoldable pub start : {L : Type 0} → (ℕ → L) → Bool → Pool L → Pool L × List L
unfolding start_loops
start loop_of has_cb p =
    let loops = start_loops loop_of 0 p.num_threads in
    (
      record p { started = true; loops = p.loops ++ loops },
      if has_cb then (if p.num_threads == 0 then p.base_loop ∷ [] else loops) else [],
    )

-- `none` is an access out of range.
unfoldable pub get_next_loop : {L : Type 0} → Pool L → Option L × Pool L
get_next_loop p = if length p.loops == 0 then (some p.base_loop, p) else (
  get_elem? p.loops p.next,
  record p { next = if leb (length p.loops) (p.next + 1) then 0 else p.next + 1 },
)

unfoldable pub get_loop_for_hash : {L : Type 0} → ℕ → Pool L → Option L
get_loop_for_hash hash p =
    if length p.loops == 0 then some p.base_loop else get_elem? p.loops (hash % length p.loops)

unfoldable pub get_all_loops : {L : Type 0} → Pool L → List L
get_all_loops p = if length p.loops == 0 then p.base_loop ∷ [] else p.loops
