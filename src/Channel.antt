-- ===== src/Channel.antt =====
-- include/nev/channel.h and src/nev/channel.cc: the class `Channel`, with what
-- `EventLoop::updateChannel` and `removeChannel` of src/nev/event_loop.cc do to its watcher.
pub mod Laws
pub mod Run
mod Tests
use Prim.Native.Nat.{bit_and, bit_or}
use nev.Base.{ℕ, ◌-◌, Bool, true, false, not, ◌&&◌, if◌then◌else◌, ◌==◌, List, [], ◌∷◌, ◌++◌}

-- `EV_NONE`, `EV_READ` and `EV_WRITE` of libev.
abbrev pub none_event : ℕ
none_event = 0x00

abbrev pub read_event : ℕ
read_event = 0x01

abbrev pub write_event : ℕ
write_event = 0x02

-- The complement of an event as an `int` of 32 bits.
abbrev pub without : ℕ → ℕ → ℕ
without events e = bit_and events (0xffffffff - e)

-- `active` and `watched` are the state of the `ev_io` watcher: whether it is started, and its events.
pub record Channel : Type 0 where
  pub events : ℕ
  pub revents : ℕ
  pub tied : Bool
  pub active : Bool
  pub watched : ℕ
  pub has_read_cb : Bool
  pub has_write_cb : Bool

unfoldable pub new_channel : Channel
new_channel = record {
  events = 0;
  revents = 0;
  tied = false;
  active = false;
  watched = none_event;
  has_read_cb = false;
  has_write_cb = false;
}

abbrev pub set_read_callback : Channel → Channel
set_read_callback c = record c { has_read_cb = true }

abbrev pub set_write_callback : Channel → Channel
set_write_callback c = record c { has_write_cb = true }

unfoldable pub is_none_event : Channel → Bool
is_none_event c = c.events == none_event

unfoldable pub is_reading : Channel → Bool
is_reading c = not (bit_and c.events read_event == 0)

unfoldable pub is_writing : Channel → Bool
is_writing c = not (bit_and c.events write_event == 0)

-- `ev_io_stop`, `ev_io_set`, and `ev_io_start` unless no event is wanted.
unfoldable pub update_channel : Channel → Channel
unfolding is_none_event
update_channel c = record c { active = not (is_none_event c); watched = c.events }

unfoldable pub remove_channel : Channel → Channel
remove_channel c = record c { active = false }

unfoldable pub tie : Channel → Channel
tie c = record c { tied = true }

unfoldable pub enable_reading : Channel → Channel
unfolding update_channel
enable_reading c = update_channel (record c { events = bit_or c.events read_event })

unfoldable pub disable_reading : Channel → Channel
unfolding update_channel
disable_reading c = update_channel (record c { events = without c.events read_event })

unfoldable pub enable_writing : Channel → Channel
unfolding update_channel
enable_writing c = update_channel (record c { events = bit_or c.events write_event })

unfoldable pub disable_writing : Channel → Channel
unfolding update_channel
disable_writing c = update_channel (record c { events = without c.events write_event })

unfoldable pub disable_all : Channel → Channel
unfolding update_channel
disable_all c = update_channel (record c { events = none_event })

pub data Callback : Type 0 where
  read_cb write_cb : Callback

-- The callbacks that `handleEventWithGuard` makes, in order.
unfoldable pub handle_event_with_guard : Channel → List Callback
handle_event_with_guard c =
    (if not (bit_and c.revents read_event == 0) && c.has_read_cb then (read_cb ∷ []) else [])
    ++ (if not (bit_and c.revents write_event == 0) && c.has_write_cb then (write_cb ∷ []) else [])

-- `ioWatcherCb` and `handleEvent`; `alive` tells whether `tie_.lock()` finds the owner.
unfoldable pub handle_event : Bool → ℕ → Channel → List Callback
unfolding handle_event_with_guard
handle_event alive revents c =
    let ready = record c { revents = revents } in
    if ready.tied
    then (if alive then handle_event_with_guard ready else [])
    else handle_event_with_guard ready
