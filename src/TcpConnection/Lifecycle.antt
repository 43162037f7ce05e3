-- ===== src/TcpConnection/Lifecycle.antt =====
-- The states of a connection over its life, and its callbacks.
use nev.Base.{ℕ, zero, suc, ◌+◌, ◌≤◌, ◌≡◌, refl, Bool, true, false, List, [], ◌∷◌, ◌++◌, arith}
use nev.Buffer.{retrieve}
use nev.Buffer.ReadFd.{ReadResult, received, failed, read_fd_win}
use nev.Channel.{is_reading, is_none_event, remove_channel}
use nev.Channel.Laws.{is_none_event_of_reading}
use nev.TcpConnection.{
  set_write_complete_callback, set_high_water_mark_callback, State, connecting, connected,
  disconnecting, disconnected, Conn, WriteResult, wrote, write_failed, Functor,
  send_in_loop_functor, shutdown_in_loop_functor, force_close_in_loop_functor,
  write_complete_functor, high_water_mark_functor, Call, write_complete_cb, high_water_mark_cb,
  connection_cb, message_cb, close_cb, is_disconnected, send_in_loop, send, shutdown_in_loop,
  shutdown, force_close, force_close_with_delay, handle_close, force_close_in_loop,
  connect_established, connect_destroyed, new_conn, call,
}
use nev.TcpConnection.Events.{
  handle_read, drained, after_write, handle_write, handle_force_close_with_delay, run_functor,
}
use nev.TcpConnection.Invariant.{Inv, new_conn-Inv}
use nev.TcpConnection.Frame.{SameFrame, send-SameFrame, send_in_loop-SameFrame}
use nev.TcpConnection.Step.{
  Step, Reach, here, next, Reach-Inv, establishes, sends, shuts, closes, closes_later, timer_fires,
  sets_write_complete, sets_high_water_mark, reads, writes, consumes, runs, destroys,
}

-- How far the connection has come.
abbrev pub rank : State → ℕ
rank connecting = 0
rank connected = 1
rank disconnecting = 2
rank disconnected = 3

abbrev pub closes_in : List Call → ℕ
closes_in [] = 0
closes_in (close_cb ∷ cs) = suc (closes_in cs)
closes_in (_ ∷ cs) = closes_in cs

closes_in-append :
    (cs : List Call) (c : Call) → closes_in (cs ++ c ∷ []) ≡ closes_in cs + closes_in (c ∷ [])
closes_in-append [] c = omega arith
closes_in-append (connection_cb ∷ cs) c = closes_in-append cs c
closes_in-append (message_cb ∷ cs) c = closes_in-append cs c
closes_in-append (close_cb ∷ cs) c = omega (arith, closes_in-append cs c)
closes_in-append (_ ∷ cs) c = closes_in-append cs c

-- The close callback has been called at most once, and never before the connection was closed.
pub record ClosedOnce (s : Conn) : Type 0 where
  pub once : closes_in s.calls ≤ 1
  pub not_before : is_disconnected s.state ≡ false → closes_in s.calls ≡ 0

-- The states only move forward, and the close callback is not called twice.
abbrev pub Ahead : Conn → Conn → Type 0
Ahead s t = (rank s.state ≤ rank t.state) × (ClosedOnce s → ClosedOnce t)

framed : (s t : Conn) → t.state ≡ s.state → t.calls ≡ s.calls → Ahead s t
framed s t e f = (ground arith, λ o. ground arith)

framed_by : (s t : Conn) → SameFrame s t → Ahead s t
framed_by s t f = framed s t f.same_state f.same_calls

handle_close-Ahead : (s : Conn) → is_disconnected s.state ≡ false → Ahead s (handle_close s)
unfolding handle_close
handle_close-Ahead s d = (
  ground arith,
  λ o. ground (
    arith,
    o.not_before d,
    closes_in-append s.calls connection_cb,
    closes_in-append (s.calls ++ connection_cb ∷ []) close_cb,
  ),
)

called :
    (s : Conn) (c : Call)
    → closes_in (c ∷ []) ≡ 0
    → Ahead s (record s { calls = s.calls ++ c ∷ [] })
called s c e = (omega arith, λ o. ground (arith, closes_in-append s.calls c))

listening : (s : Conn) → Inv s → is_reading s.channel ≡ true → is_disconnected s.state ≡ false
listening s v l = ground arith

establishes-Ahead : (s : Conn) → s.state ≡ connecting → Ahead s (connect_established s)
unfolding connect_established
establishes-Ahead s e = (ground arith, λ o. ground (arith, closes_in-append s.calls connection_cb))

called_reading :
    (s : Conn) (bytes : List ℕ)
    → Ahead s
        (call (record s { input_buffer = read_fd_win s.input_buffer (received bytes) }) message_cb)
called_reading s bytes = (omega arith, λ o. ground (arith, closes_in-append s.calls message_cb))

handle_read-Ahead :
    (s : Conn) (r : ReadResult) → Inv s → is_reading s.channel ≡ true → Ahead s (handle_read s r)
unfolding handle_read
handle_read-Ahead s (failed e) v l = ground (arith, handle_close-Ahead s (listening s v l))
handle_read-Ahead s (received []) v l = handle_close-Ahead s (listening s v l)
handle_read-Ahead s (received (c ∷ cs)) v l = called_reading s (c ∷ cs)

handle_write-Ahead : (s : Conn) (r : WriteResult) → Ahead s (handle_write s r)
unfolding handle_write after_write drained shutdown_in_loop
handle_write-Ahead s (write_failed e) = framed s s refl refl
handle_write-Ahead s (wrote zero) = framed s s refl refl
handle_write-Ahead s (wrote (suc n)) =
    framed s (handle_write s (wrote (suc n))) (ground arith) (ground arith)

run_functor-Ahead : (s : Conn) (r : WriteResult) (f : Functor) → Ahead s (run_functor s r f)
unfolding run_functor shutdown_in_loop force_close_in_loop
run_functor-Ahead s r (send_in_loop_functor bytes) =
    framed_by s (send_in_loop s r bytes) (send_in_loop-SameFrame s r bytes)
run_functor-Ahead s r shutdown_in_loop_functor =
    framed s (shutdown_in_loop s) (ground arith) (ground arith)
run_functor-Ahead s r force_close_in_loop_functor = ground (arith, handle_close-Ahead s)
run_functor-Ahead s r write_complete_functor = called s write_complete_cb refl
run_functor-Ahead s r (high_water_mark_functor n) = called s (high_water_mark_cb n) refl

connect_destroyed-Ahead : (s : Conn) → Ahead s (connect_destroyed s)
unfolding connect_destroyed
connect_destroyed-Ahead s =
    (ground arith, λ o. ground (arith, closes_in-append s.calls connection_cb))

pub Step-Ahead : {s t : Conn} → Step s t → Inv s → Ahead s t
Step-Ahead (sets_write_complete s has_cb) v =
    unfold set_write_complete_callback in framed s (set_write_complete_callback has_cb s) refl refl
Step-Ahead (sets_high_water_mark s has_cb mark) v =
    unfold set_high_water_mark_callback in
    framed s (set_high_water_mark_callback has_cb mark s) refl refl
Step-Ahead (establishes s e) v = establishes-Ahead s e
Step-Ahead (sends s in_loop r bytes k h) v =
    framed_by s (send in_loop s r bytes) (send-SameFrame in_loop s r bytes)
Step-Ahead (shuts s in_loop) v =
    unfold shutdown shutdown_in_loop in (ground arith, λ o. ground arith)
Step-Ahead (closes s) v = unfold force_close in (ground arith, λ o. ground arith)
Step-Ahead (closes_later s) v = unfold force_close_with_delay in (ground arith, λ o. ground arith)
Step-Ahead (timer_fires s alive h) v =
    unfold handle_force_close_with_delay force_close in (ground arith, λ o. ground arith)
Step-Ahead (reads s r l h) v = handle_read-Ahead s r v l
Step-Ahead (writes s r h) v = handle_write-Ahead s r
Step-Ahead (consumes s n) v =
    framed s (record s { input_buffer = retrieve s.input_buffer n }) refl refl
Step-Ahead (runs s r f rest e k h) v =
    let a = run_functor-Ahead (record s { pending = rest }) r f in
    (a.0, λ o. a.1 (record { once = o.once; not_before = o.not_before }))
Step-Ahead (destroys s) v = connect_destroyed-Ahead s

stays_down : (a b : State) → rank a ≤ rank b → is_disconnected a ≡ true → is_disconnected b ≡ true
stays_down disconnected disconnected h d = refl
stays_down disconnected connecting h d = ground arith
stays_down disconnected connected h d = ground arith
stays_down disconnected disconnecting h d = ground arith
stays_down connecting b h d = ground arith
stays_down connected b h d = ground arith
stays_down disconnecting b h d = ground arith

pub Step-down :
    {s t : Conn}
    → Step s t
    → Inv s
    → is_disconnected s.state ≡ true
    → is_disconnected t.state ≡ true
Step-down {s} {t} st v d = stays_down s.state t.state (Step-Ahead st v).0 d

-- From a state that satisfies the invariant the state of a connection never moves back in the
-- order connecting, connected, disconnecting, disconnected.
pub Reach-rank : {s t : Conn} → Reach s t → Inv s → rank s.state ≤ rank t.state
Reach-rank here v = omega arith
Reach-rank (next r st) v = omega (arith, Reach-rank r v, (Step-Ahead st (Reach-Inv r v)).0)

Reach-ClosedOnce : {s t : Conn} → Reach s t → Inv s → ClosedOnce s → ClosedOnce t
Reach-ClosedOnce here v o = o
Reach-ClosedOnce (next r st) v o = (Step-Ahead st (Reach-Inv r v)).1 (Reach-ClosedOnce r v o)

-- In every state that a new connection reaches the close callback has been called at most once,
-- and never before the connection is marked as disconnected.
pub Reach-new_conn-ClosedOnce :
    (write_complete high_water : Bool) {t : Conn}
    → Reach (new_conn write_complete high_water) t
    → ClosedOnce t
unfolding new_conn
Reach-new_conn-ClosedOnce write_complete high_water r =
    Reach-ClosedOnce r (new_conn-Inv write_complete high_water)
      (record { once = omega arith; not_before = λ _. refl })

-- connectDestroyed on a connection of the invariant that is disconnecting leaves the state as it
-- is and an interest in events, and calls no callback.
pub connect_destroyed_disconnecting :
    (s : Conn)
    → Inv s
    → s.state ≡ disconnecting
    → let t = connect_destroyed s in
      (t.state ≡ disconnecting) × (is_none_event t.channel ≡ false) × (t.calls ≡ s.calls)
unfolding connect_destroyed remove_channel
connect_destroyed_disconnecting s v e =
    ground (arith, is_none_event_of_reading s.channel (v.listens (ground arith)))
