-- ===== src/EventLoop/ThreadLocal/Tests.antt =====
-- Two threads make a loop each.
use nev.Base.{◌≤◌, ◌<◌, ◌≡◌, ◌↔◌, refl, [], ◌∷◌, length, some, none}
use nev.EventLoop.ThreadLocal.{
  Process, new_process, set_pointer, construct, current, loops_of, to_list, constructs, Reach, here,
  next, Reach-one_loop,
}

abbrev one : Process
one = record {
  tls_ptr = set_pointer new_process.tls_ptr 1 (some 10);
  living = record { loop = 10; thread_id = 1 } ∷ [];
}

abbrev two : Process
two = record {
  tls_ptr = set_pointer one.tls_ptr 2 (some 20);
  living = record { loop = 20; thread_id = 2 } ∷ one.living;
}

Reach-two : Reach new_process two
unfolding construct set_pointer
Reach-two = next (next here (constructs new_process 1 10 refl)) (constructs one 2 20 refl)

second_dies : construct 1 30 two ≡ none
unfolding construct set_pointer
second_dies = refl

Reach-one_loop_example :
    (loops_of 1 two.living ≡ to_list (current 1 two))
    × (length (loops_of 1 two.living) ≤ 1)
    × ((construct 1 30 two ≡ none) ↔ (0 < length (loops_of 1 two.living)))
Reach-one_loop_example = Reach-one_loop Reach-two 1 30
