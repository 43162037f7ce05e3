-- ===== src/Channel/Tests.antt =====
-- A channel at work.
use nev.Base.{◌≡◌, refl, true, false, List, [], ◌∷◌}
use nev.Channel.{
  set_read_callback, set_write_callback, new_channel, read_cb, write_cb, is_reading, is_writing,
  tie, handle_event,
}
use nev.Channel.Run.{Op, tie_owner, reading_on, reading_off, writing_on, run, run-follows}

both_events :
    handle_event true 3 (set_write_callback (set_read_callback new_channel))
    ≡ read_cb ∷ write_cb ∷ []
unfolding handle_event new_channel
both_events = refl

dead_owner : handle_event false 3 (tie (set_read_callback new_channel)) ≡ []
unfolding handle_event tie new_channel
dead_owner = refl

abbrev switches : List Op
switches = tie_owner ∷ reading_on ∷ writing_on ∷ reading_off ∷ []

run-follows_example :
    let c = run new_channel switches in
    (is_reading c ≡ false) × (is_writing c ≡ true) × (c.watched ≡ c.events) × (c.active ≡ true)
run-follows_example = run-follows switches
