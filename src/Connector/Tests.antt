-- ===== src/Connector/Tests.antt =====
-- A connector at work: an attempt that is refused at once, and one that fails later.
use nev.Base.{◌≡◌, refl, true, false, [], ◌∷◌, some}
use nev.Channel.{set_write_callback, Channel, new_channel, enable_writing, is_writing}
use nev.Connector.{
  Connector, connecting, new_connector, start, start_in_loop, connect, start_connecting,
  handle_write, attempt_done, remove_and_reset_channel, is_disconnected,
}
use nev.Connector.Laws.{Reach, here, next, starts, writes, Inv}
use nev.Connector.Sockets.{Reach-new_connector-Inv, Reach-never_disconnected}

abbrev fresh : Connector
fresh = new_connector false

abbrev refused : Connector
refused = start true 5 10061 fresh

abbrev trying : Connector
trying = start true 6 10035 refused

abbrev wanting : Channel
wanting = enable_writing (set_write_callback new_channel)

abbrev timed_out : Connector
timed_out = (handle_write 10060 6 wanting trying).0

to_trying : Reach fresh trying
unfolding new_connector start start_in_loop connect
to_trying = next (next here (starts fresh true 5 10061 refl)) (starts refused true 6 10035 refl)

trying_channel : (trying.channel ≡ some (6, wanting)) × (is_disconnected trying.state ≡ false)
unfolding new_connector start start_in_loop connect start_connecting
trying_channel = (refl, refl)

wanting_writes : is_writing wanting ≡ true
unfolding is_writing enable_writing new_channel
wanting_writes = refl

to_timed_out : Reach trying timed_out
to_timed_out = next here (writes trying 10060 6 wanting trying_channel.0 wanting_writes)

timed_out_state : (timed_out.state ≡ connecting) × (timed_out.closed ≡ 6 ∷ 5 ∷ [])
unfolding new_connector start start_in_loop connect start_connecting handle_write attempt_done
    remove_and_reset_channel
timed_out_state = (refl, refl)

Reach-new_connector-Inv_example : Inv timed_out
Reach-new_connector-Inv_example =
    Reach-new_connector-Inv false
      (next to_trying (writes trying 10060 6 wanting trying_channel.0 wanting_writes))

Reach-never_disconnected_run : is_disconnected timed_out.state ≡ false
Reach-never_disconnected_run = Reach-never_disconnected to_timed_out trying_channel.1
