-- ===== src/Http/Tests.antt =====
-- Requests and responses at work. Numbers are printed with three digits; a toy parser consumes all that
-- it is given.
use nev.Base.{
  ℕ, ap, ◌+◌, ◌/◌, ◌%◌, ◌≡◌, refl, true, false, List, [], ◌∷◌, ◌++◌, length, arith, codes,
  same_bytes, drop, ◌⊎◌, if◌then◌else◌, copy_to, resize, add_size, sub_size,
}
use nev.Buffer.{Buffer, new, append, ensure_writable_bytes, retrieve}
use nev.Buffer.Valid.{IsValid, content, HasRoom}
use nev.Buffer.Queue.{Holds, new-Holds, append-Holds}
use nev.Http.Request.{
  Request, invalid, get, new_request, set_method, method_string, add_header, get_header,
  add_header_line, put_header, find_header, or_empty, skip_spaces, drop_spaces, is_space,
}
use nev.Http.Headers.{set_method_lem, set_method-method_string, get_header-add_header}
use nev.Http.Response.{Response, new_response, append_to_buffer}
use nev.Http.Layout.{response_text, append_to_buffer-Holds}
use nev.Http.Server.{
  on_message, Parser, new_context, parse_request, default_http_callback, on_request,
}
use nev.Http.Server.Answers.{
  rejection, on_message-rejects, response_of, on_request-answers, parse_request-offset,
}
use nev.TcpConnection.{Conn, wrote, connected, disconnecting, new_conn, connect_established}
use nev.TcpConnection.Invariant.{Inv}
use nev.TcpConnection.Step.{here, next, establishes, Reach-new_conn-Inv}
use nev.TcpConnection.Stream.{stream}

abbrev print : ℕ → List ℕ
print n = (48 + n / 100) ∷ (48 + n / 10 % 10) ∷ (48 + n % 10) ∷ []

trimmed :
    get_header (codes "Host") (add_header_line (codes "Host") (codes "  a b ") new_request)
    ≡ codes "a b"
unfolding get_header add_header_line put_header find_header or_empty skip_spaces drop_spaces
    is_space same_bytes
trimmed = refl

set_method_lem_run :
    ((set_method (codes "PUT") new_request).1 ≡ true)
      × (method_string (set_method (codes "PUT") new_request).0.method ≡ codes "PUT")
    ⊎ ((set_method (codes "PUT") new_request).1 ≡ false)
      × ((set_method (codes "PUT") new_request).0.method ≡ invalid)
set_method_lem_run = set_method_lem (codes "PUT") new_request

set_method-method_string_run :
    ((set_method (codes "GET") new_request).0.method ≡ get)
    × ((set_method (codes "GET") new_request).1 ≡ true)
set_method-method_string_run = set_method-method_string get new_request refl

other_key : same_bytes (codes "Host") (codes "Accept") ≡ false
unfolding same_bytes
other_key = refl

abbrev with_host : Request
with_host =
    add_header (codes "Accept") (codes "text") (add_header (codes "Host") (codes "a") new_request)

get_header-add_header_example :
    (get_header (codes "Host") (add_header (codes "Host") (codes "b") with_host) ≡ codes "b")
    × (get_header (codes "Accept") (add_header (codes "Host") (codes "b") with_host)
        ≡ get_header (codes "Accept") with_host)
get_header-add_header_example =
    get_header-add_header (codes "Host") (codes "b") (codes "Accept") with_host other_key

abbrev found : Response
found = record {
  headers = (codes "Server", codes "nev") ∷ [];
  status_code = 200;
  status_message = codes "OK";
  close_connection = false;
  body = codes "hello";
}

found_text :
    response_text print found
    ≡ codes
        "HTTP/1.1 200 OK\r\nContent-Length: 005\r\nConnection: Keep-Alive\r\nServer: nev\r\n\r\nhello"
found_text = refl

empty : IsValid (new 16)
empty = (new-Holds 16 (omega arith)).valid

append_to_buffer-Holds_run :
    Holds (append_to_buffer print found (new 16)) (content (new 16) ++ response_text print found)
unfolding new
append_to_buffer-Holds_run =
    append_to_buffer-Holds print found empty (omega arith) (omega arith) (omega arith)

abbrev up : Conn
up = connect_established (new_conn false false)

up_connected : up.state ≡ connected
unfolding connect_established
up_connected = refl

up-Inv : Inv up
up-Inv =
    Reach-new_conn-Inv false false
      (next here (establishes (new_conn false false) (unfold new_conn in refl)))

up_fits : up.output_buffer.writer_index ≡ 8
unfolding connect_established new_conn
up_fits = refl

abbrev not_found : Response
not_found = response_of print default_http_callback new_request

not_found_text :
    (length (response_text print not_found) ≡ 45)
    × (length (print not_found.status_code) ≡ 3)
    × (length (print (length not_found.body)) ≡ 3)
unfolding default_http_callback new_response
not_found_text = (refl, refl, refl)

on_request-answers_example :
    (stream (on_request print default_http_callback up (wrote 7) new_request)
      ≡ stream up ++ response_text print not_found)
    × ((on_request print default_http_callback up (wrote 7) new_request).state
        ≡ (if not_found.close_connection then disconnecting else connected))
on_request-answers_example =
    on_request-answers print default_http_callback up (wrote 7) new_request up-Inv up_connected
      (omega (arith, not_found_text.0)) (omega (arith, not_found_text.0, up_fits))
      (omega (arith, not_found_text.1)) (omega (arith, not_found_text.2))

abbrev toy : Parser ℕ
toy = record {
  initial = 0;
  execute = λ p bytes off. (p + off, length bytes, []);
  has_error = λ p. false;
  is_finished = λ p. false;
}

abbrev partly : Buffer
partly = append (new 16) (codes "GET")

partly-content : content partly ≡ codes "GET"
unfolding new append ensure_writable_bytes add_size sub_size copy_to resize
partly-content = refl

partly-IsValid : IsValid partly
partly-IsValid = (append-Holds (codes "GET") empty (unfold new in omega arith)).valid

consumed : (toy.execute 0 (content partly) 0).1 ≡ 3
consumed = ap length partly-content

room_left : HasRoom (parse_request toy (new_context toy) partly).1 4
unfolding parse_request new_context new append ensure_writable_bytes add_size sub_size copy_to
    resize retrieve
room_left = omega arith

fresh_context : (new_context toy).nparsed ≡ 0
unfolding new_context
fresh_context = refl

consumed_fresh : (toy.execute (new_context toy).parser (content partly) 0).1 ≡ 3
consumed_fresh = consumed

parse_request-offset_example :
    let p = parse_request toy (new_context toy) partly in
    (parse_request toy p.0 (append p.1 (codes " / H"))).0.parser
    ≡ (toy.execute p.0.parser (drop 3 (content partly) ++ codes " / H") 3).0
parse_request-offset_example =
    parse_request-offset toy (new_context toy) 3 (codes " / H") partly-IsValid fresh_context
      (omega arith) consumed_fresh room_left

-- A parser that finds an error in whatever it is given.
abbrev strict : Parser ℕ
strict = record {
  initial = 0;
  execute = λ p bytes off. (1, 0, []);
  has_error = λ p. true;
  is_finished = λ p. false;
}

on_message-rejects_run :
    let t =
      (on_message print default_http_callback strict
        (new_context strict)
        partly
        up
        (wrote 28)
        (wrote 0)).2 in
    (stream t ≡ stream up ++ rejection) × (t.state ≡ disconnecting)
on_message-rejects_run =
    on_message-rejects print default_http_callback strict (new_context strict) partly up (wrote 28)
      (wrote 0) refl refl up-Inv up_connected (omega (arith, up_fits))
