-- ===== src/TcpConnection/Delivery.antt =====
-- The outgoing stream over any history of a connection.
use nev.Base.{
  ℕ, ◌≡◌, refl, sym, ap, ◌∙◌, Bool, true, false, ◌&&◌, if◌then◌else◌, List, [], ◌++◌, arith,
  append-nil, append_assoc, length, Bool-cases, inl, inr,
}
use nev.Buffer.Valid.{content, HasRoom}
use nev.TcpConnection.{
  set_write_complete_callback, set_high_water_mark_callback, Conn, WriteResult, Functor,
  send_in_loop_functor, shutdown_in_loop_functor, force_close_in_loop_functor,
  write_complete_functor, high_water_mark_functor, is_connected, is_disconnected, send_in_loop,
  send, shutdown, shutdown_in_loop, force_close, force_close_with_delay, connect_established,
  connect_destroyed, force_close_in_loop, handle_close, new_conn, State,
}
use nev.TcpConnection.Events.{handle_read, handle_write, handle_force_close_with_delay, run_functor}
use nev.TcpConnection.Invariant.{Inv, FunctorFits, new_conn-Inv}
use nev.TcpConnection.Stream.{
  stream, kept, send_in_loop-stream, handle_write-stream, handle_read-stream,
}
use nev.TcpConnection.Step.{
  Step, Reach, here, next, Reach-Inv, pending-Inv, sets_write_complete, sets_high_water_mark,
  establishes, sends, shuts, closes, closes_later, timer_fires, reads, writes, consumes, runs,
  destroys,
}

-- The bytes that a functor hands to the connection in this state.
abbrev pub functor_bytes : Conn → Functor → List ℕ
functor_bytes s (send_in_loop_functor bytes) = if is_disconnected s.state then [] else bytes
functor_bytes s _ = []

-- The bytes that an event hands to the connection: those of a `send` in the loop's thread while it is
-- connected, and those of a queued one that runs before it is closed.
abbrev pub accepted : {s t : Conn} → Step s t → List ℕ
accepted (sends s in_loop r bytes _ _) = if is_connected s.state && in_loop then bytes else []
accepted (runs s r f rest _ _ _) = functor_bytes s f
accepted _ = []

abbrev pub all_accepted : {s t : Conn} → Reach s t → List ℕ
all_accepted here = []
all_accepted (next r st) = all_accepted r ++ accepted st

same : (s t : Conn) → stream t ≡ stream s → stream t ≡ stream s ++ []
same s t e = e ∙ sym (append-nil (stream s))

connected_up : (st : State) → is_connected st ≡ true → is_disconnected st ≡ false
connected_up st h = ground arith

sent_up :
    (s : Conn) (r : WriteResult) (bytes : List ℕ)
    → Inv s
    → is_disconnected s.state ≡ false
    → HasRoom s.output_buffer (length bytes)
    → stream (send_in_loop s r bytes) ≡ stream s ++ bytes
sent_up s r bytes v d h =
    send_in_loop-stream s r bytes v h ∙ ap (λ b. stream s ++ (if b then [] else bytes)) d

send-stream :
    (s : Conn) (in_loop : Bool) (r : WriteResult) (bytes : List ℕ)
    → Inv s
    → HasRoom s.output_buffer (length bytes)
    → stream (send in_loop s r bytes)
      ≡ stream s ++ (if is_connected s.state && in_loop then bytes else [])
unfolding send
send-stream s true r bytes v h = elim (Bool-cases (is_connected s.state)) [
  | inl up ↦ rw up (sent_up s r bytes v (connected_up s.state up) h)
  | inr down ↦ rw down (sym (append-nil (stream s)))
]
send-stream s false r bytes v h = elim (Bool-cases (is_connected s.state)) [
  | inl up ↦ rw up (sym (append-nil (stream s)))
  | inr down ↦ rw down (sym (append-nil (stream s)))
]

run_functor-stream :
    (s : Conn) (r : WriteResult) (f : Functor)
    → Inv s
    → FunctorFits s f
    → stream (run_functor s r f) ≡ stream s ++ functor_bytes s f
unfolding run_functor shutdown_in_loop force_close_in_loop handle_close
run_functor-stream s r (send_in_loop_functor bytes) v h = send_in_loop-stream s r bytes v h
run_functor-stream s r shutdown_in_loop_functor v h =
    same s (shutdown_in_loop s) (kept s (shutdown_in_loop s) (ground arith) (ground arith))
run_functor-stream s r force_close_in_loop_functor v h =
    same s (force_close_in_loop s) (kept s (force_close_in_loop s) (ground arith) (ground arith))
run_functor-stream s r write_complete_functor v h = same s s refl
run_functor-stream s r (high_water_mark_functor n) v h = same s s refl

Step-stream : {s t : Conn} (st : Step s t) → Inv s → stream t ≡ stream s ++ accepted st
Step-stream (sets_write_complete s has_cb) v = unfold set_write_complete_callback in same s s refl
Step-stream (sets_high_water_mark s has_cb mark) v =
    unfold set_high_water_mark_callback in same s s refl
Step-stream (establishes s e) v = unfold connect_established in same s s refl
Step-stream (sends s in_loop r bytes k h) v = send-stream s in_loop r bytes v h
Step-stream (shuts s in_loop) v =
    same s (shutdown in_loop s) (
      unfold shutdown shutdown_in_loop in kept s (shutdown in_loop s) (ground arith) (ground arith))
Step-stream (closes s) v =
    same s (force_close s)
      (unfold force_close in kept s (force_close s) (ground arith) (ground arith))
Step-stream (closes_later s) v = same s (force_close_with_delay s) (
    unfold force_close_with_delay in
    kept s (force_close_with_delay s) (ground arith) (ground arith))
Step-stream (timer_fires s alive h) v = same s (handle_force_close_with_delay alive s) (
    unfold handle_force_close_with_delay force_close in
    kept s (handle_force_close_with_delay alive s) (ground arith) (ground arith))
Step-stream (reads s r l h) v = same s (handle_read s r) (handle_read-stream s r)
Step-stream (writes s r h) v = same s (handle_write s r) (handle_write-stream s r v)
Step-stream (consumes s n) v = same s s refl
Step-stream (runs s r f rest e k h) v =
    run_functor-stream (record s { pending = rest }) r f (pending-Inv s rest v) h
Step-stream (destroys s) v =
    same s (connect_destroyed s)
      (unfold connect_destroyed in kept s (connect_destroyed s) (ground arith) (ground arith))

Reach-stream : {s t : Conn} (r : Reach s t) → Inv s → stream t ≡ stream s ++ all_accepted r
Reach-stream here v = sym (append-nil _)
Reach-stream {s} (next r st) v =
    Step-stream st (Reach-Inv r v)
    ∙ ap (λ xs. xs ++ accepted st) (Reach-stream r v)
    ∙ append_assoc (stream s) (all_accepted r) (accepted st)

-- Over any run of steps of a new connection, the bytes on the wire and then those in the output
-- buffer are all bytes that were sent and accepted, in order: none is lost, doubled or out of
-- place.
pub Reach-delivers :
    (write_complete high_water : Bool) {t : Conn} (r : Reach (new_conn write_complete high_water) t)
    → t.wire ++ content t.output_buffer ≡ all_accepted r
unfolding new_conn
Reach-delivers write_complete high_water r = Reach-stream r (new_conn-Inv write_complete high_water)
