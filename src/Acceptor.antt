-- ===== src/Acceptor.antt =====
-- src/nev/acceptor.cc and src/nev/acceptor.h: the class `Acceptor`. The socket options that the
-- constructor sets are not modelled.
pub mod Owner
mod Tests
use nev.Base.{ℕ, ◌≡◌, ◌∙◌, Bool, true, false, if◌then◌else◌, Option, some, none, arith}
use nev.Channel.{
  Channel, new_channel, set_read_callback, is_reading, is_none_event, enable_reading, disable_all,
  remove_channel,
}
use nev.Channel.Laws.{
  IsSynced, Wants, new_channel-Wants, set_read_callback-Wants, enable_reading-Wants,
  disable_all-Wants, remove_channel-Wants,
}

pub record Acceptor : Type 0 where
  pub accept_channel : Channel
  pub has_new_connection_cb : Bool
  pub listening : Bool

unfoldable pub new_acceptor : Bool → Acceptor
unfolding new_channel
new_acceptor has_cb = record {
  accept_channel = set_read_callback new_channel;
  has_new_connection_cb = has_cb;
  listening = false;
}

unfoldable pub listen : Acceptor → Acceptor
unfolding enable_reading
listen a = record a { listening = true; accept_channel = enable_reading a.accept_channel }

-- The channel behind the destructor.
unfoldable pub destroy_acceptor : Acceptor → Channel
unfolding disable_all remove_channel
destroy_acceptor a = remove_channel (disable_all a.accept_channel)

pub data AcceptOutcome : Type 0 where
  hands_over closes : ℕ → AcceptOutcome
  accept_failed : AcceptOutcome

-- `accept` returns a descriptor, or `none` for `kInvalidSocket`.
unfoldable pub handle_accept : Acceptor → Option ℕ → AcceptOutcome
handle_accept a none = accept_failed
handle_accept a (some fd) = if a.has_new_connection_cb then hands_over fd else closes fd

silenced :
    (c : Channel)
    → IsSynced c
    → (is_none_event (disable_all c) ≡ true) × Wants (remove_channel (disable_all c)) false false
silenced c v =
    let w = disable_all-Wants c v in remove_channel-Wants (disable_all c) w.synced w.reads w.writes

-- A new acceptor hears nothing, a listening one hears connections, and behind the destructor,
-- whose check on the channel holds, the watcher is stopped.
pub acceptor_life :
    (has_cb : Bool)
    → let a = new_acceptor has_cb in
      Wants a.accept_channel false false
      × Wants (listen a).accept_channel true false
      × (is_none_event (disable_all (listen a).accept_channel) ≡ true)
      × Wants (destroy_acceptor (listen a)) false false
      × Wants (destroy_acceptor a) false false
unfolding new_acceptor listen destroy_acceptor
acceptor_life has_cb =
    let bare = new_channel-Wants in
    let same = set_read_callback-Wants new_channel bare.synced in
    let fresh : Wants (set_read_callback new_channel) false false = record {
      synced = same.synced;
      reads = same.reads ∙ bare.reads;
      writes = same.writes ∙ bare.writes;
    } in
    let up = enable_reading-Wants (set_read_callback new_channel) fresh.synced in
    (
      fresh,
      record { synced = up.synced; reads = up.reads; writes = up.writes ∙ fresh.writes },
      (silenced (enable_reading (set_read_callback new_channel)) up.synced).0,
      (silenced (enable_reading (set_read_callback new_channel)) up.synced).1,
      (silenced (set_read_callback new_channel) fresh.synced).1,
    )
