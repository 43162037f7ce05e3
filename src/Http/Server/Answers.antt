-- ===== src/Http/Server/Answers.antt =====
-- What the server answers, and what becomes of the connection.
use nev.Base.{
  codes, ℕ, ◌^◌, ◌≤◌, ◌<◌, ◌≡◌, refl, sym, ap, ap₂, add_size, add_size_exact, ◌∙◌, subst, Bool,
  true, false, if◌then◌else◌, List, [], ◌++◌, length, arith, drop,
}
use nev.Buffer.{Buffer, initial_size, new, to_string_piece, append, retrieve}
use nev.Buffer.Valid.{IsValid, content, HasRoom}
use nev.Buffer.Queue.{Holds, new-Holds, to_string_piece_lem, retrieve-Holds, append-Holds}
use nev.Http.Request.{Request}
use nev.Http.Response.{Response, new_response, append_to_buffer}
use nev.Http.Layout.{response_text, append_to_buffer-Holds}
use nev.Http.Server.{
  bad_request, on_message, got_all, Parser, Context, close_flag, on_request, parse_request,
}
use nev.TcpConnection.{
  is_connected, send, Conn, WriteResult, State, connected, disconnecting, is_disconnected,
  send_buffer, send_in_loop, shutdown, shutdown_in_loop,
}
use nev.TcpConnection.Invariant.{Inv}
use nev.TcpConnection.Frame.{send_in_loop-SameFrame}
use nev.TcpConnection.Stream.{stream, kept, send_in_loop-stream}

pub sent :
    (s : Conn) (w : WriteResult) (b : Buffer)
    → s.state ≡ connected
    → (send_buffer true s w b).0 ≡ send_in_loop s w (to_string_piece b)
unfolding send_buffer
sent s w b up = rw up refl

shut_down :
    (s : Conn) (c : Bool)
    → s.state ≡ connected
    → let t = if c then shutdown true s else s in
      (stream t ≡ stream s) × (t.state ≡ (if c then disconnecting else connected))
unfolding shutdown shutdown_in_loop
shut_down s true up = (kept s (shutdown true s) (ground arith) (ground arith), ground arith)
shut_down s false up = (refl, up)

module _ (print : ℕ → List ℕ) (http_cb : Request → Response → Response) where
  -- The response that the callback makes of a request.
  abbrev pub response_of : Request → Response
  response_of req = http_cb req (new_response (close_flag req))

  pub built :
      (r : Response)
      → length (response_text print r) ≤ 2 ^ 62
      → length (print r.status_code) ≤ 21
      → length (print (length r.body)) ≤ 13
      → to_string_piece (append_to_buffer print r (new initial_size)) ≡ response_text print r
  built r room h k =
      let fresh = new-Holds initial_size (omega arith) in
      let x = append_to_buffer-Holds print r fresh.valid (unfold new in omega (arith, room)) h k in
      to_string_piece_lem x.valid ∙ x.holds ∙ ap (λ xs. xs ++ response_text print r) fresh.holds

  -- On a connected connection in a state of the invariant, with memory for the response and with
  -- numbers that are printed short enough, onRequest puts the text of the callback's response
  -- behind what was sent before, whatever the kernel takes of it, and shuts the connection down
  -- exactly if the response says so.
  pub on_request-answers :
      (s : Conn) (w : WriteResult) (req : Request)
      → Inv s
      → s.state ≡ connected
      → length (response_text print (response_of req)) ≤ 2 ^ 62
      → HasRoom s.output_buffer (length (response_text print (response_of req)))
      → length (print (response_of req).status_code) ≤ 21
      → length (print (length (response_of req).body)) ≤ 13
      → (stream (on_request print http_cb s w req)
          ≡ stream s ++ response_text print (response_of req))
        × ((on_request print http_cb s w req).state
            ≡ (if (response_of req).close_connection then disconnecting else connected))
  unfolding on_request
  on_request-answers s w req v up small room h k =
      let r = response_of req in
      let text = response_text print r in
      let e =
        sent s w (append_to_buffer print r (new initial_size)) up
        ∙ ap (send_in_loop s w) (built r small h k) in
      let t = send_in_loop s w text in
      let down =
        shut_down t r.close_connection ((send_in_loop-SameFrame s w text).same_state ∙ up) in
      let added =
        send_in_loop-stream s w text v room
        ∙ ap (λ (x : State). stream s ++ (if is_disconnected x then [] else text)) up in
      (
        ap (λ (c : Conn). stream (if r.close_connection then shutdown true c else c)) e
            ∙ down.0
            ∙ added,
        ap (λ (c : Conn). (if r.close_connection then shutdown true c else c).state) e ∙ down.1,
      )

parsed :
    {P : Type 0} (o : Parser P) (c : Context P) (b : Buffer)
    → let r = o.execute c.parser (to_string_piece b) c.nparsed in
      ((parse_request o c b).0.parser ≡ r.0)
      × ((parse_request o c b).0.nparsed ≡ add_size c.nparsed r.1)
      × ((parse_request o c b).1 ≡ retrieve b r.1)
unfolding parse_request
parsed o c b = (refl, refl, refl)

-- If the parser consumes n bytes of the first part of a request in a valid buffer, parseRequest
-- takes them out of the buffer, and yet its next call lets the parser go on at the offset n of
-- what is left and what came next.
pub parse_request-offset :
    {P : Type 0} (o : Parser P) (c : Context P) {b : Buffer} (n : ℕ) (more : List ℕ)
    → IsValid b
    → c.nparsed ≡ 0
    → n < 2 ^ 64
    → (o.execute c.parser (content b) 0).1 ≡ n
    → HasRoom (parse_request o c b).1 (length more)
    → let (c1, b1, ok) = parse_request o c b in
      (parse_request o c1 (append b1 more)).0.parser
      ≡ (o.execute c1.parser (drop n (content b) ++ more) n).0
parse_request-offset o c {b} n more v z small e room =
    let p = parse_request o c b in
    let first = ap₂ (λ t i. (o.execute c.parser t i).1) (to_string_piece_lem v) z ∙ e in
    let (_, at, rest) = parsed o c b in
    let offset =
      at ∙ ap₂ add_size z first ∙ add_size_exact 0 n (omega (arith, small)) ∙ omega arith in
    let kept = retrieve-Holds n v in
    let left : Holds p.1 (drop n (content b)) =
      subst (λ d. Holds d (drop n (content b))) (sym (rest ∙ ap (retrieve b) first)) kept in
    let x = append-Holds more left.valid room in
    (parsed o p.0 (append p.1 more)).0
    ∙ ap₂ (λ t i. (o.execute p.0.parser t i).0)
        (to_string_piece_lem x.valid ∙ x.holds ∙ ap (λ xs. xs ++ more) left.holds) offset

abbrev pub rejection : List ℕ
rejection = codes "HTTP/1.1 400 Bad Request\r\n\r\n"

pub bad_request-answers :
    (s : Conn) (w : WriteResult)
    → Inv s
    → s.state ≡ connected
    → HasRoom s.output_buffer (length rejection)
    → (stream (bad_request s w) ≡ stream s ++ rejection) × ((bad_request s w).state ≡ disconnecting)
unfolding bad_request send
bad_request-answers s w v up room =
    let t = send_in_loop s w rejection in
    let down = shut_down t true ((send_in_loop-SameFrame s w rejection).same_state ∙ up) in
    let added =
      send_in_loop-stream s w rejection v room
      ∙ ap (λ (x : State). stream s ++ (if is_disconnected x then [] else rejection)) up in
    rw (ap is_connected up) (down.0 ∙ added, down.1)

-- When the parser reports an error and no finished request on a connected connection in a state
-- of the invariant, with memory for the answer, onMessage puts the answer 400 behind what was
-- sent before and shuts the connection down.
pub on_message-rejects :
    {P : Type 0} (print : ℕ → List ℕ) (http_cb : Request → Response → Response) (o : Parser P)
    (c : Context P) (b : Buffer) (s : Conn) (bad good : WriteResult)
    → o.has_error (parse_request o c b).0.parser ≡ true
    → o.is_finished (parse_request o c b).0.parser ≡ false
    → Inv s
    → s.state ≡ connected
    → HasRoom s.output_buffer (length rejection)
    → let t = (on_message print http_cb o c b s bad good).2 in
      (stream t ≡ stream s ++ rejection) × (t.state ≡ disconnecting)
unfolding on_message parse_request got_all
on_message-rejects print http_cb o c b s bad good e f v up room =
    rw (e, f) (bad_request-answers s bad v up room)
