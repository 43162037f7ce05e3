-- ===== src/Http/Exchange/Tests.antt =====
-- A client asks once, and the parser takes whatever comes for a whole request.
use nev.Base.{
  ℕ, ◌+◌, ◌/◌, ◌%◌, ◌≡◌, refl, true, false, if◌then◌else◌, ◌==◌, List, [], ◌∷◌, ◌++◌, length, arith,
  codes,
}
use nev.Buffer.Valid.{content, HasRoom}
use nev.Buffer.ReadFd.{received}
use nev.Channel.{is_reading}
use nev.Http.Response.{new_response}
use nev.Http.Server.{Parser, new_context, parse_request, got_all, default_http_callback, on_message}
use nev.Http.Exchange.{
  Served, new_served, on_connection, establish, read_event, read_answer, answer, Reach, here, next,
  establishes, reads,
}
use nev.Http.Exchange.Replies.{Said, Prints, on_message-replies}
use nev.Http.Exchange.Session.{all_answers, Reach-answers, Reach-contexts}
use nev.TcpConnection.{is_connecting, wrote, Conn, new_conn, connect_established}
use nev.TcpConnection.Context.{hold, set_context, destroy_conn}
use nev.TcpConnection.Events.{handle_read}
use nev.TcpConnection.Invariant.{Inv}
use nev.TcpConnection.Step.{Reach-new_conn-Inv}
use nev.TcpConnection.Step

abbrev print : ℕ → List ℕ
print n = (48 + n / 100) ∷ (48 + n / 10 % 10) ∷ (48 + n % 10) ∷ []

abbrev whole : Parser ℕ
whole = record {
  initial = 0;
  execute = λ p bytes off. (1, length bytes, []);
  has_error = λ p. false;
  is_finished = λ p. p == 1;
}

default_prints : Prints print default_http_callback
unfolding default_http_callback new_response
default_prints req = (omega arith, omega arith, omega arith)

abbrev up : Served ℕ
up = establish whole (new_served whole)

abbrev asked : Served ℕ
asked = read_event whole print default_http_callback up (received (codes "GET")) (wrote 0) (wrote 9)

to_up : Reach whole print default_http_callback (new_served whole) up
unfolding new_served hold new_conn
to_up = next here (establishes (new_served whole) refl)

up_buffers :
    (up.held.conn.input_buffer.writer_index ≡ 8) × (up.held.conn.output_buffer.writer_index ≡ 8)
unfolding new_served hold new_conn establish on_connection set_context connect_established
up_buffers = (refl, refl)

answer_length :
    length (read_answer whole print default_http_callback up (received (codes "GET"))) ≡ 45
unfolding new_served hold new_conn establish on_connection set_context connect_established
    handle_read parse_request got_all new_context default_http_callback new_response
answer_length = refl

up_reads : is_reading up.held.conn.channel ≡ true
unfolding new_served hold new_conn establish on_connection set_context connect_established
    is_reading
up_reads = refl

to_asked : Reach whole print default_http_callback (new_served whole) asked
to_asked = next to_up (
    reads up (received (codes "GET")) (wrote 0) (wrote 9) up_reads (omega (arith, up_buffers.0))
      (omega (arith, up_buffers.1, answer_length)))

Reach-answers_example :
    asked.held.conn.wire ++ content asked.held.conn.output_buffer
    ≡ all_answers whole print default_http_callback to_asked
Reach-answers_example = Reach-answers whole print default_http_callback to_asked default_prints

Reach-contexts_example :
    (asked.faulted ≡ false)
    × (length (destroy_conn asked.held) ≡ asked.allocated)
    × (asked.allocated ≡ (if is_connecting asked.held.conn.state then 0 else 1))
Reach-contexts_example = Reach-contexts whole print default_http_callback to_asked default_prints

abbrev open_conn : Conn
open_conn = connect_established (new_conn false false)

open_conn-Inv : Inv open_conn
open_conn-Inv =
    Reach-new_conn-Inv false false
      (Step.next Step.here (Step.establishes (new_conn false false) (unfold new_conn in refl)))

open_begun : is_connecting open_conn.state ≡ false
unfolding connect_established
open_begun = refl

open_room :
    HasRoom open_conn.output_buffer
      (length (answer whole print default_http_callback (new_context whole) open_conn))
unfolding connect_established new_conn parse_request got_all new_context default_http_callback
    new_response
open_room = omega arith

on_message-replies_run :
    Said open_conn
      (on_message print default_http_callback whole
        (new_context whole)
        open_conn.input_buffer
        open_conn
        (wrote 0)
        (wrote 9)).2
      (answer whole print default_http_callback (new_context whole) open_conn)
on_message-replies_run =
    on_message-replies print default_http_callback whole (new_context whole) open_conn (wrote 0)
      (wrote 9) default_prints open_conn-Inv open_begun open_room
