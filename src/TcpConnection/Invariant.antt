-- ===== src/TcpConnection/Invariant.antt =====
-- What holds of a connection between two events, whatever its callers and the kernel do.
use nev.Base.{
  ℕ, zero, suc, ◌-◌, ◌≡◌, refl, inl, inr, Bool, true, false, not, ◌&&◌, ◌||◌, ltb, ◌==◌, List, [],
  ◌∷◌, length, arith, sub_size, Bool-cases, drop, length-drop,
}
use nev.Buffer.{Buffer, initial_size, new, readable_bytes}
use nev.Buffer.Valid.{IsValid, HasRoom, retrieve-IsValid}
use nev.Buffer.Queue.{new-Holds, append-Holds, readable-append}
use nev.Buffer.ReadFd.{ReadResult, received, failed, read_fd_win-Holds}
use nev.Channel.{is_reading, is_writing, disable_all, tie}
use nev.Channel.Laws.{
  IsWatched, enable_reading_anew, enable_writing_anew, disable_writing_anew, disable_all_anew, tied,
  removed, Wants-IsWatched, both_callbacks-Wants,
}
use nev.TcpConnection.{
  connecting, Conn, WriteResult, wrote, write_failed, is_connected, is_disconnecting,
  is_disconnected, buffer_remaining, write_directly, send_in_loop, shutdown_in_loop, shutdown,
  force_close, force_close_with_delay, handle_close, force_close_in_loop, connect_established,
  connect_destroyed, Functor, send_in_loop_functor, shutdown_in_loop_functor,
  force_close_in_loop_functor, write_complete_functor, high_water_mark_functor, new_conn, send,
}
use nev.TcpConnection.Events.{
  handle_read, drained, after_write, handle_write, handle_force_close_with_delay, run_functor,
}

-- The connection waits for writability exactly while it has something to write, listens until it is
-- closed, and is deaf afterwards; until `connectDestroyed` the watcher follows.
pub record Inv (s : Conn) : Type 0 where
  pub input_valid : IsValid s.input_buffer
  pub output_valid : IsValid s.output_buffer
  pub synced : IsWatched s.destroyed s.channel
  pub writes_iff :
      is_disconnected s.state ≡ false
      → is_writing s.channel ≡ ltb 0 (readable_bytes s.output_buffer)
  pub listens :
      (is_connected s.state || is_disconnecting s.state) ≡ true → is_reading s.channel ≡ true
  pub deaf :
      is_disconnected s.state ≡ true
      → (is_reading s.channel ≡ false) × (is_writing s.channel ≡ false)

-- What was read fits into the input buffer.
abbrev pub ReadFits : Conn → ReadResult → Type 0
ReadFits s (failed e) = Unit
ReadFits s (received bytes) = HasRoom s.input_buffer (length bytes)

-- What a queued `sendInLoop` carries fits into the output buffer.
abbrev pub FunctorFits : Conn → Functor → Type 0
FunctorFits s (send_in_loop_functor bytes) = HasRoom s.output_buffer (length bytes)
FunctorFits s _ = Unit

pub with_input-Inv :
    (s : Conn) (b : Buffer) → Inv s → IsValid b → Inv (record s { input_buffer = b })
with_input-Inv s b v h = ground arith

pub buffer_remaining-Inv :
    (s : Conn) (bytes : List ℕ)
    → Inv s
    → is_disconnected s.state ≡ false
    → HasRoom s.output_buffer (length bytes)
    → Inv (buffer_remaining s bytes)
unfolding buffer_remaining
buffer_remaining-Inv s [] v d h = v
buffer_remaining-Inv s (c ∷ cs) v d h = ground (
  arith,
  (append-Holds (c ∷ cs) v.output_valid h).valid,
  readable-append (c ∷ cs) v.output_valid h,
  enable_writing_anew s.destroyed s.channel v.synced,
)

pub write_directly-Inv :
    (s : Conn) (result : WriteResult) (bytes : List ℕ)
    → Inv s
    → is_disconnected s.state ≡ false
    → HasRoom s.output_buffer (length bytes)
    → Inv (write_directly s result bytes)
unfolding write_directly
write_directly-Inv s (write_failed e) bytes v d h = buffer_remaining-Inv s bytes v d h
write_directly-Inv s (wrote n) bytes v d h =
    elim (Bool-cases (not (ltb n (length bytes)) && s.has_write_complete_cb)) [
      | inl t ↦ rw t (buffer_remaining-Inv _ (drop n bytes) (ground arith) d room)
      | inr t ↦ rw t (buffer_remaining-Inv _ (drop n bytes) (ground arith) d room)
    ]
  where
    room : HasRoom s.output_buffer (length (drop n bytes))
    room = omega (arith, length-drop n bytes, h)

pub send_in_loop-Inv :
    (s : Conn) (result : WriteResult) (bytes : List ℕ)
    → Inv s
    → HasRoom s.output_buffer (length bytes)
    → Inv (send_in_loop s result bytes)
unfolding send_in_loop
send_in_loop-Inv s result bytes v h = elim (Bool-cases (is_disconnected s.state)) [
  | inl gone ↦ rw gone v
  | inr d ↦
      rw d (elim (Bool-cases (not (is_writing s.channel) && readable_bytes s.output_buffer == 0)) [
        | inl t ↦ rw t (write_directly-Inv s result bytes v d h)
        | inr t ↦ rw t (buffer_remaining-Inv s bytes v d h)
      ])
]

pub send-Inv :
    (in_loop : Bool) (s : Conn) (r : WriteResult) (bytes : List ℕ)
    → Inv s
    → HasRoom s.output_buffer (length bytes)
    → Inv (send in_loop s r bytes)
unfolding send
send-Inv true s r bytes v h = ground (arith, send_in_loop-Inv s r bytes v h)
send-Inv false s r bytes v h = ground arith

pub shutdown_in_loop-Inv : (s : Conn) → Inv s → Inv (shutdown_in_loop s)
unfolding shutdown_in_loop
shutdown_in_loop-Inv s v = ground arith

pub shutdown-Inv : (in_loop : Bool) (s : Conn) → Inv s → Inv (shutdown in_loop s)
unfolding shutdown shutdown_in_loop
shutdown-Inv in_loop s v = ground arith

pub force_close-Inv : (s : Conn) → Inv s → Inv (force_close s)
unfolding force_close
force_close-Inv s v = ground arith

pub force_close_with_delay-Inv : (s : Conn) → Inv s → Inv (force_close_with_delay s)
unfolding force_close_with_delay
force_close_with_delay-Inv s v = ground arith

pub handle_close-Inv : (s : Conn) → Inv s → Inv (handle_close s)
unfolding handle_close
handle_close-Inv s v = ground (arith, disable_all_anew s.destroyed s.channel v.synced)

pub connect_established-Inv :
    (s : Conn) → Inv s → s.state ≡ connecting → Inv (connect_established s)
unfolding connect_established
connect_established-Inv s v e =
    ground (
      arith,
      (tied s.destroyed s.channel v.synced),
      enable_reading_anew s.destroyed (tie s.channel),
    )

pub drained-Inv :
    (s : Conn)
    → Inv s
    → is_disconnected s.state ≡ false
    → readable_bytes s.output_buffer ≡ 0
    → Inv (drained s)
unfolding drained shutdown_in_loop
drained-Inv s v d e = ground (arith, disable_writing_anew s.destroyed s.channel v.synced)

pub after_write-Inv :
    (s : Conn) (n : ℕ) → Inv s → is_writing s.channel ≡ true → Inv (after_write s n)
unfolding after_write drained shutdown_in_loop
after_write-Inv s n v w =
    ground (
      arith,
      retrieve-IsValid n v.output_valid,
      disable_writing_anew s.destroyed s.channel v.synced,
    )

pub handle_read-Inv : (s : Conn) (r : ReadResult) → Inv s → ReadFits s r → Inv (handle_read s r)
unfolding handle_read
handle_read-Inv s (failed e) v h = ground (arith, handle_close-Inv s v)
handle_read-Inv s (received []) v h = handle_close-Inv s v
handle_read-Inv s (received (c ∷ cs)) v h =
    ground (arith, (read_fd_win-Holds (c ∷ cs) v.input_valid h).valid)

-- A write of some bytes is only made while the channel waits for writability.
pub handle_write-Inv : (s : Conn) (r : WriteResult) → Inv s → Inv (handle_write s r)
unfolding handle_write
handle_write-Inv s (write_failed e) v = v
handle_write-Inv s (wrote zero) v = v
handle_write-Inv s (wrote (suc n)) v = elim (Bool-cases (is_writing s.channel)) [
  | inl w ↦ rw w (after_write-Inv s (suc n) v w)
  | inr w ↦ rw w v
]

pub handle_force_close_with_delay-Inv :
    (alive : Bool) (s : Conn) → Inv s → Inv (handle_force_close_with_delay alive s)
unfolding handle_force_close_with_delay
handle_force_close_with_delay-Inv true s v =
    force_close-Inv (record s { timers = s.timers - 1 }) (ground arith)
handle_force_close_with_delay-Inv false s v = ground arith

pub connect_destroyed-Inv : (s : Conn) → Inv s → Inv (connect_destroyed s)
unfolding connect_destroyed
connect_destroyed-Inv s v =
    let down = disable_all_anew s.destroyed s.channel v.synced in
    ground (
      arith,
      removed s.destroyed s.channel v.synced,
      down,
      removed s.destroyed (disable_all s.channel)
          (Wants-IsWatched s.destroyed (disable_all s.channel) false false down),
    )

empty_reads : readable_bytes (new initial_size) ≡ 0
unfolding readable_bytes new sub_size
empty_reads = refl

pub new_conn-Inv : (write_complete high_water : Bool) → Inv (new_conn write_complete high_water)
unfolding new_conn
new_conn-Inv write_complete high_water =
    let empty = new-Holds initial_size (omega arith) in
    ground (arith, empty.valid, both_callbacks-Wants, empty_reads)

pub run_functor-Inv :
    (s : Conn) (r : WriteResult) (f : Functor) → Inv s → FunctorFits s f → Inv (run_functor s r f)
unfolding run_functor force_close_in_loop
run_functor-Inv s r (send_in_loop_functor bytes) v h = send_in_loop-Inv s r bytes v h
run_functor-Inv s r shutdown_in_loop_functor v h = shutdown_in_loop-Inv s v
run_functor-Inv s r force_close_in_loop_functor v h = ground (arith, handle_close-Inv s v)
run_functor-Inv s r write_complete_functor v h = ground arith
run_functor-Inv s r (high_water_mark_functor n) v h = ground arith
