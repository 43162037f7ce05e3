-- ===== src/TcpConnection/Shutdown.antt =====
-- Closing the writing side: when it happens, and what may still be waiting then.
use nev.Base.{ℕ, zero, suc, ◌≡◌, refl, ◌⊎◌, Bool, true, false, List, [], ◌∷◌, ◌++◌, arith}
use nev.Buffer.{readable_bytes}
use nev.Buffer.ReadFd.{ReadResult, received, failed}
use nev.Channel.{is_writing}
use nev.TcpConnection.{
  set_write_complete_callback, set_high_water_mark_callback, Conn, WriteResult, wrote, write_failed,
  Functor, send_in_loop_functor, shutdown_in_loop_functor, force_close_in_loop_functor,
  write_complete_functor, high_water_mark_functor, is_disconnected, connected, disconnecting,
  send_in_loop, send, shutdown_in_loop, shutdown, force_close, force_close_with_delay, handle_close,
  force_close_in_loop, connect_established, connect_destroyed,
}
use nev.TcpConnection.Events.{
  handle_read, drained, after_write, handle_write, handle_force_close_with_delay, run_functor,
}
use nev.TcpConnection.Invariant.{Inv}
use nev.TcpConnection.Frame.{send-SameFrame, send_in_loop-SameFrame}
use nev.TcpConnection.Step.{
  Step, pending-Inv, establishes, sends, shuts, closes, closes_later, timer_fires, reads, writes,
  sets_write_complete, sets_high_water_mark, consumes, runs, destroys,
}

-- Nothing waits in the output buffer, or the connection is closed.
abbrev pub NothingWaits : Conn → Type 0
NothingWaits s = (readable_bytes s.output_buffer ≡ 0) ⊎ (is_disconnected s.state ≡ true)

-- `t` follows `s`, and the writing side is only shut with nothing waiting.
abbrev ShutsSafely : Conn → Conn → Type 0
ShutsSafely s t = s.write_shut ≡ false → t.write_shut ≡ true → NothingWaits t

unshut : (s t : Conn) → t.write_shut ≡ s.write_shut → ShutsSafely s t
unshut s t e f g = cc

shutdown_in_loop-ShutsSafely : (s : Conn) → Inv s → ShutsSafely s (shutdown_in_loop s)
unfolding shutdown_in_loop
shutdown_in_loop-ShutsSafely s v f g = ground arith

shutdown-ShutsSafely : (in_loop : Bool) (s : Conn) → Inv s → ShutsSafely s (shutdown in_loop s)
unfolding shutdown shutdown_in_loop
shutdown-ShutsSafely in_loop s v f g = ground arith

handle_write-ShutsSafely : (s : Conn) (r : WriteResult) → Inv s → ShutsSafely s (handle_write s r)
unfolding handle_write after_write drained shutdown_in_loop
handle_write-ShutsSafely s (write_failed e) v f g = cc
handle_write-ShutsSafely s (wrote zero) v f g = cc
handle_write-ShutsSafely s (wrote (suc n)) v f g = ground arith

handle_read-ShutsSafely : (s : Conn) (r : ReadResult) → ShutsSafely s (handle_read s r)
unfolding handle_read handle_close
handle_read-ShutsSafely s (failed e) f g = ground arith
handle_read-ShutsSafely s (received []) f g = cc
handle_read-ShutsSafely s (received (c ∷ cs)) f g = cc

run_functor-ShutsSafely :
    (s : Conn) (r : WriteResult) (f : Functor) → Inv s → ShutsSafely s (run_functor s r f)
unfolding run_functor force_close_in_loop handle_close
run_functor-ShutsSafely s r (send_in_loop_functor bytes) v =
    unshut s (send_in_loop s r bytes) (send_in_loop-SameFrame s r bytes).same_write_shut
run_functor-ShutsSafely s r shutdown_in_loop_functor v = shutdown_in_loop-ShutsSafely s v
run_functor-ShutsSafely s r force_close_in_loop_functor v =
    unshut s (force_close_in_loop s) (ground arith)
run_functor-ShutsSafely s r write_complete_functor v = λ f g. cc
run_functor-ShutsSafely s r (high_water_mark_functor n) v = λ f g. cc

-- A step from a state of the invariant that shuts the writing side of the socket leaves nothing
-- waiting in the output buffer, or a disconnected connection.
pub Step-ShutsSafely :
    {s t : Conn} → Step s t → Inv s → s.write_shut ≡ false → t.write_shut ≡ true → NothingWaits t
Step-ShutsSafely (sets_write_complete s has_cb) v = unfold set_write_complete_callback in λ f g. cc
Step-ShutsSafely (sets_high_water_mark s has_cb mark) v =
    unfold set_high_water_mark_callback in λ f g. cc
Step-ShutsSafely (establishes s e) v =
    unfold connect_established in unshut s (connect_established s) refl
Step-ShutsSafely (sends s in_loop r bytes k h) v =
    unshut s (send in_loop s r bytes) (send-SameFrame in_loop s r bytes).same_write_shut
Step-ShutsSafely (shuts s in_loop) v = shutdown-ShutsSafely in_loop s v
Step-ShutsSafely (closes s) v = unfold force_close in unshut s (force_close s) (ground arith)
Step-ShutsSafely (closes_later s) v =
    unfold force_close_with_delay in unshut s (force_close_with_delay s) (ground arith)
Step-ShutsSafely (timer_fires s alive h) v =
    unfold handle_force_close_with_delay force_close in
    unshut s (handle_force_close_with_delay alive s) (ground arith)
Step-ShutsSafely (reads s r l h) v = handle_read-ShutsSafely s r
Step-ShutsSafely (writes s r h) v = handle_write-ShutsSafely s r v
Step-ShutsSafely (consumes s n) v = λ f g. cc
Step-ShutsSafely (runs s r f rest e k h) v =
    run_functor-ShutsSafely (record s { pending = rest }) r f (pending-Inv s rest v)
Step-ShutsSafely (destroys s) v =
    unfold connect_destroyed in unshut s (connect_destroyed s) (ground arith)

-- On a connected connection with nothing left to write, a send from another thread that the loop
-- has not run yet is overtaken by a shutdown in the loop's thread: the writing side is shut while
-- the bytes still wait in the queue, none of them written.
pub shutdown_overtakes_send :
    (s : Conn) (r : WriteResult) (bytes : List ℕ)
    → s.state ≡ connected
    → is_writing s.channel ≡ false
    → let t = shutdown true (send false s r bytes) in
      (t.write_shut ≡ true)
      × (t.pending ≡ s.pending ++ send_in_loop_functor bytes ∷ [])
      × (t.wire ≡ s.wire)
      × (t.state ≡ disconnecting)
unfolding shutdown shutdown_in_loop send
shutdown_overtakes_send s r bytes up idle = ground arith
