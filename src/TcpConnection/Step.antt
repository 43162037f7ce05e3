-- ===== src/TcpConnection/Step.antt =====
-- What can happen to a connection, one event after the other.
use nev.Base.{ℕ, ◌≤◌, ◌<◌, ◌≡◌, Bool, true, List, ◌∷◌, length, arith}
use nev.Buffer.{readable_bytes, retrieve}
use nev.Buffer.Valid.{HasRoom, retrieve-IsValid}
use nev.Buffer.ReadFd.{ReadResult}
use nev.Channel.{is_reading}
use nev.TcpConnection.{
  set_write_complete_callback, set_high_water_mark_callback, connecting, Conn, WriteResult, wrote,
  write_failed, Functor, send_in_loop_functor, send, shutdown, force_close, force_close_with_delay,
  connect_established, connect_destroyed, new_conn,
}
use nev.TcpConnection.Events.{handle_read, handle_write, handle_force_close_with_delay, run_functor}
use nev.TcpConnection.Invariant.{
  Inv, ReadFits, FunctorFits, send-Inv, shutdown-Inv, force_close-Inv, force_close_with_delay-Inv,
  connect_established-Inv, connect_destroyed-Inv, handle_read-Inv, handle_write-Inv,
  handle_force_close_with_delay-Inv, run_functor-Inv, new_conn-Inv,
}

-- The kernel takes no more bytes than it is given.
abbrev pub Takes : WriteResult → ℕ → Type 0
Takes (wrote n) len = n ≤ len
Takes (write_failed e) len = Unit

abbrev pub FunctorTakes : WriteResult → Functor → Type 0
FunctorTakes r (send_in_loop_functor bytes) = Takes r (length bytes)
FunctorTakes r _ = Unit

-- The methods that users call, and the events of the loop. A read event comes only while the channel
-- listens; a write event may still come after a read event has closed the connection.
pub data Step : Conn → Conn → Type 0 where
  sets_write_complete : (s : Conn) (has_cb : Bool) → Step s (set_write_complete_callback has_cb s)
  sets_high_water_mark :
      (s : Conn) (has_cb : Bool) (mark : ℕ) → Step s (set_high_water_mark_callback has_cb mark s)
  establishes : (s : Conn) → s.state ≡ connecting → Step s (connect_established s)
  sends :
      (s : Conn) (in_loop : Bool) (r : WriteResult) (bytes : List ℕ)
      → Takes r (length bytes)
      → HasRoom s.output_buffer (length bytes)
      → Step s (send in_loop s r bytes)
  shuts : (s : Conn) (in_loop : Bool) → Step s (shutdown in_loop s)
  closes : (s : Conn) → Step s (force_close s)
  closes_later : (s : Conn) → Step s (force_close_with_delay s)
  timer_fires :
      (s : Conn) (alive : Bool) → 0 < s.timers → Step s (handle_force_close_with_delay alive s)
  reads :
      (s : Conn) (r : ReadResult)
      → is_reading s.channel ≡ true
      → ReadFits s r
      → Step s (handle_read s r)
  writes :
      (s : Conn) (r : WriteResult)
      → Takes r (readable_bytes s.output_buffer)
      → Step s (handle_write s r)
  consumes : (s : Conn) (n : ℕ) → Step s (record s { input_buffer = retrieve s.input_buffer n })
  runs :
      (s : Conn) (r : WriteResult) (f : Functor) (rest : List Functor)
      → s.pending ≡ f ∷ rest
      → FunctorTakes r f
      → FunctorFits s f
      → Step s (run_functor (record s { pending = rest }) r f)
  destroys : (s : Conn) → Step s (connect_destroyed s)

pub data Reach (s : Conn) : Conn → Type 0 where
  here : Reach s s
  next : {t u : Conn} → Reach s t → Step t u → Reach s u

consumes-Inv :
    (s : Conn) (n : ℕ) → Inv s → Inv (record s { input_buffer = retrieve s.input_buffer n })
consumes-Inv s n v = ground (arith, retrieve-IsValid n v.input_valid)

pub pending-Inv : (s : Conn) (rest : List Functor) → Inv s → Inv (record s { pending = rest })
pending-Inv s rest v = ground arith

pub Step-Inv : {s t : Conn} → Step s t → Inv s → Inv t
Step-Inv (sets_write_complete s has_cb) v = unfold set_write_complete_callback in ground arith
Step-Inv (sets_high_water_mark s has_cb mark) v =
    unfold set_high_water_mark_callback in ground arith
Step-Inv (establishes s e) v = connect_established-Inv s v e
Step-Inv (sends s in_loop r bytes k h) v = send-Inv in_loop s r bytes v h
Step-Inv (shuts s in_loop) v = shutdown-Inv in_loop s v
Step-Inv (closes s) v = force_close-Inv s v
Step-Inv (closes_later s) v = force_close_with_delay-Inv s v
Step-Inv (timer_fires s alive h) v = handle_force_close_with_delay-Inv alive s v
Step-Inv (reads s r l h) v = handle_read-Inv s r v h
Step-Inv (writes s r h) v = handle_write-Inv s r v
Step-Inv (consumes s n) v = consumes-Inv s n v
Step-Inv (runs s r f rest e k h) v =
    run_functor-Inv (record s { pending = rest }) r f (pending-Inv s rest v) h
Step-Inv (destroys s) v = connect_destroyed-Inv s v

pub Reach-Inv : {s t : Conn} → Reach s t → Inv s → Inv t
Reach-Inv here v = v
Reach-Inv (next r st) v = Step-Inv st (Reach-Inv r v)

-- Every state that a new connection reaches satisfies the invariant: valid buffers, interest in
-- writing exactly while output waits, in reading until the connection is closed, and none
-- afterwards; a watcher that is started exactly while there is interest, until connectDestroyed
-- has stopped it, and never without interest.
pub Reach-new_conn-Inv :
    (write_complete high_water : Bool) {t : Conn}
    → Reach (new_conn write_complete high_water) t
    → Inv t
Reach-new_conn-Inv write_complete high_water r =
    Reach-Inv r (new_conn-Inv write_complete high_water)
