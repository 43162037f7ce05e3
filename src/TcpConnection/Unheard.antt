-- ===== src/TcpConnection/Unheard.antt =====
-- src/nev/tcp_connection.cc: a connection before `connectEstablished`, and what the server calls on one.
use nev.Base.{ℕ, zero, suc, ◌≡◌, refl, Bool, true, false, List, [], ◌∷◌, drop, ◌++◌, take, arith}
use nev.Channel.{is_reading}
use nev.Channel.Laws.{IsWatched, enable_writing_anew, disable_writing_anew}
use nev.TcpConnection.{
  set_write_complete_callback, set_high_water_mark_callback, connecting, Conn, WriteResult, wrote,
  write_failed, Functor, send_in_loop_functor, shutdown_in_loop_functor,
  force_close_in_loop_functor, write_complete_functor, high_water_mark_functor, buffer_remaining,
  write_directly, send_in_loop, send, shutdown_in_loop, shutdown, force_close,
  force_close_with_delay, force_close_in_loop, queue_in_loop,
}
use nev.TcpConnection.Events.{
  drained, after_write, handle_write, handle_force_close_with_delay, run_functor,
}
use nev.TcpConnection.Invariant.{Inv}
use nev.TcpConnection.Step.{
  Step, establishes, sends, shuts, closes, closes_later, timer_fires, sets_write_complete,
  sets_high_water_mark, reads, writes, consumes, runs, destroys,
}

-- The steps that the server posts to the loop of a connection.
abbrev pub is_posted : {s t : Conn} → Step s t → Bool
is_posted (establishes s e) = true
is_posted (destroys s) = true
is_posted _ = false

-- The connection is connecting, and deaf.
abbrev pub Unheard : Conn → Type 0
Unheard s = (s.state ≡ connecting) × (is_reading s.channel ≡ false)

-- The state is as before, and so is the interest in reading.
abbrev Quiet : Conn → Conn → Type 0
Quiet s t = (t.state ≡ s.state) × (is_reading t.channel ≡ is_reading s.channel)

buffer_remaining-Quiet :
    (s : Conn) (bytes : List ℕ)
    → IsWatched s.destroyed s.channel
    → Quiet s (buffer_remaining s bytes)
unfolding buffer_remaining
buffer_remaining-Quiet s [] v = (refl, refl)
buffer_remaining-Quiet s (c ∷ cs) v = ground (arith, enable_writing_anew s.destroyed s.channel v)

write_directly-Quiet :
    (s : Conn) (r : WriteResult) (bytes : List ℕ)
    → IsWatched s.destroyed s.channel
    → Quiet s (write_directly s r bytes)
unfolding write_directly
write_directly-Quiet s (write_failed e) bytes v = buffer_remaining-Quiet s bytes v
write_directly-Quiet s (wrote n) bytes v =
    let sent = record s { wire = s.wire ++ take n bytes } in
    ground (
      arith,
      buffer_remaining-Quiet sent (drop n bytes) v,
      buffer_remaining-Quiet (queue_in_loop sent write_complete_functor) (drop n bytes) v,
    )

send_in_loop-Quiet :
    (s : Conn) (r : WriteResult) (bytes : List ℕ)
    → IsWatched s.destroyed s.channel
    → Quiet s (send_in_loop s r bytes)
unfolding send_in_loop
send_in_loop-Quiet s r bytes v =
    ground (arith, write_directly-Quiet s r bytes v, buffer_remaining-Quiet s bytes v)

handle_write-Quiet :
    (s : Conn) (r : WriteResult) → IsWatched s.destroyed s.channel → Quiet s (handle_write s r)
unfolding handle_write after_write drained shutdown_in_loop
handle_write-Quiet s (write_failed e) v = (refl, refl)
handle_write-Quiet s (wrote zero) v = (refl, refl)
handle_write-Quiet s (wrote (suc n)) v =
    ground (arith, disable_writing_anew s.destroyed s.channel v)

run_functor-Unheard :
    (s : Conn) (r : WriteResult) (f : Functor)
    → IsWatched s.destroyed s.channel
    → Unheard s
    → Unheard (run_functor s r f)
unfolding run_functor shutdown_in_loop force_close_in_loop
run_functor-Unheard s r (send_in_loop_functor bytes) v u =
    ground (arith, send_in_loop-Quiet s r bytes v)
run_functor-Unheard s r shutdown_in_loop_functor v u = ground arith
run_functor-Unheard s r force_close_in_loop_functor v u = ground arith
run_functor-Unheard s r write_complete_functor v u = u
run_functor-Unheard s r (high_water_mark_functor n) v u = u

-- Until the loop has run `connectEstablished`, no other step changes the state or is heard.
pub Step-Unheard :
    {s t : Conn} (st : Step s t) → is_posted st ≡ false → Inv s → Unheard s → Unheard t
Step-Unheard (sets_write_complete s has_cb) p v u = unfold set_write_complete_callback in u
Step-Unheard (sets_high_water_mark s has_cb mark) p v u = unfold set_high_water_mark_callback in u
Step-Unheard (establishes s e) p v u = absurd (ground arith)
Step-Unheard (sends s in_loop r bytes k h) p v u = unfold send in ground arith
Step-Unheard (shuts s in_loop) p v u = unfold shutdown in ground arith
Step-Unheard (closes s) p v u = unfold force_close in ground arith
Step-Unheard (closes_later s) p v u = unfold force_close_with_delay in ground arith
Step-Unheard (timer_fires s alive h) p v u =
    unfold handle_force_close_with_delay force_close in ground arith
Step-Unheard (reads s r l h) p v u = absurd (ground arith)
Step-Unheard (writes s r h) p v u = ground (arith, handle_write-Quiet s r v.synced)
Step-Unheard (consumes s n) p v u = u
Step-Unheard (runs s r f rest e k h) p v u =
    run_functor-Unheard (record s { pending = rest }) r f v.synced u
Step-Unheard (destroys s) p v u = absurd (ground arith)
