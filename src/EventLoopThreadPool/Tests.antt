-- ===== src/EventLoopThreadPool/Tests.antt =====
-- A pool of three threads at work, and one without threads.
use nev.Base.{ℕ, ◌+◌, ◌≡◌, refl, true, [], ◌∷◌, some, arith}
use nev.EventLoopThreadPool.{
  Pool, new_pool, set_thread_num, start, get_next_loop, get_loop_for_hash, start_loops,
  get_all_loops,
}
use nev.EventLoopThreadPool.RoundRobin.{
  calls, started_pool, get_next_loop_turns, get_loop_for_hash_lem,
}

abbrev loop_of : ℕ → ℕ
loop_of i = 100 + i

abbrev three : Pool ℕ
three = started_pool loop_of true 7 3

all_three : get_all_loops three ≡ 100 ∷ 101 ∷ 102 ∷ []
unfolding get_all_loops start set_thread_num new_pool start_loops
all_three = refl

without_threads : (get_next_loop (started_pool loop_of true 7 0)).0 ≡ some 7
unfolding get_next_loop start set_thread_num new_pool start_loops
without_threads = refl

get_next_loop_turns_example : (get_next_loop (calls 5 three)).0 ≡ some 102
get_next_loop_turns_example = get_next_loop_turns loop_of true 7 3 (omega arith) 5

get_loop_for_hash_lem_run : get_loop_for_hash 100 (calls 5 three) ≡ some 101
get_loop_for_hash_lem_run = get_loop_for_hash_lem loop_of true 7 3 (omega arith) 5 100
