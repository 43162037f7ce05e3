-- ===== src/Demos/Tests.antt =====
-- A client of the echo server sends "hi", of which the kernel takes one byte back at once.
use nev.Base.{◌≡◌, refl, false, [], ◌∷◌, ◌++◌, arith, codes, sub_size, add_size, copy_to}
use nev.Buffer.{new}
use nev.Buffer.Valid.{content}
use nev.Buffer.ReadFd.{received}
use nev.Channel.{is_reading}
use nev.TcpConnection.{Conn, wrote, new_conn, connect_established}
use nev.TcpConnection.Drain.{write_events}
use nev.Demos.{read_event}
use nev.Demos.Echo.{Reach, here, next, establishes, reads, all_read, Reach-echoes, Reach-answered}

abbrev up : Conn
up = connect_established (new_conn false false)

abbrev answered : Conn
answered = read_event up (received (codes "hi")) (wrote 1)

Reach-up : Reach (new_conn false false) up
unfolding new_conn
Reach-up = next here (establishes (new_conn false false) refl)

to_answered : Reach (new_conn false false) answered
unfolding new_conn connect_established is_reading new
to_answered =
    next Reach-up (reads up (received (codes "hi")) (wrote 1) refl (omega arith) (omega arith))

-- One byte is on the wire, and one waits.
answered_state : (answered.wire ≡ codes "h") × (content answered.output_buffer ≡ codes "i")
unfolding read_event connect_established new_conn sub_size add_size copy_to
answered_state = (refl, refl)

Reach-echoes_example :
    (answered.wire ++ content answered.output_buffer ≡ all_read to_answered)
    × (content answered.input_buffer ≡ [])
Reach-echoes_example = Reach-echoes to_answered

echoed_back :
    ((write_events (0 ∷ []) answered).wire ≡ all_read to_answered)
    × (content (write_events (0 ∷ []) answered).output_buffer ≡ [])
unfolding read_event connect_established new_conn sub_size add_size copy_to
echoed_back = Reach-answered to_answered (0 ∷ []) refl (omega arith)
