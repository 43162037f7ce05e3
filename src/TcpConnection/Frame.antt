-- ===== src/TcpConnection/Frame.antt =====
-- What sending leaves alone.
use nev.Base.{◌≡◌, ℕ, Bool, true, false, List, [], ◌∷◌, take, drop, ◌++◌, arith}
use nev.TcpConnection.{
  Conn, WriteResult, wrote, write_failed, buffer_remaining, write_directly, send_in_loop, send,
  write_complete_functor, queue_in_loop,
}

-- The fields that no way of sending touches.
pub record SameFrame (s t : Conn) : Type 0 where
  pub same_state : t.state ≡ s.state
  pub same_write_shut : t.write_shut ≡ s.write_shut
  pub same_calls : t.calls ≡ s.calls
  pub same_input : t.input_buffer ≡ s.input_buffer

buffer_remaining-SameFrame : (s : Conn) (bytes : List ℕ) → SameFrame s (buffer_remaining s bytes)
unfolding buffer_remaining
buffer_remaining-SameFrame s [] = ground arith
buffer_remaining-SameFrame s (c ∷ cs) = ground arith

write_directly-SameFrame :
    (s : Conn) (r : WriteResult) (bytes : List ℕ) → SameFrame s (write_directly s r bytes)
unfolding write_directly
write_directly-SameFrame s (write_failed e) bytes = buffer_remaining-SameFrame s bytes
write_directly-SameFrame s (wrote n) bytes =
    let sent = record s { wire = s.wire ++ take n bytes } in
    ground (
      arith,
      buffer_remaining-SameFrame sent (drop n bytes),
      buffer_remaining-SameFrame (queue_in_loop sent write_complete_functor) (drop n bytes),
    )

pub send_in_loop-SameFrame :
    (s : Conn) (r : WriteResult) (bytes : List ℕ) → SameFrame s (send_in_loop s r bytes)
unfolding send_in_loop
send_in_loop-SameFrame s r bytes =
    ground (arith, write_directly-SameFrame s r bytes, buffer_remaining-SameFrame s bytes)

pub send-SameFrame :
    (in_loop : Bool) (s : Conn) (r : WriteResult) (bytes : List ℕ)
    → SameFrame s (send in_loop s r bytes)
unfolding send
send-SameFrame true s r bytes = ground (arith, send_in_loop-SameFrame s r bytes)
send-SameFrame false s r bytes = ground arith
