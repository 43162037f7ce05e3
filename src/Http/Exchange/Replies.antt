-- ===== src/Http/Exchange/Replies.antt =====
-- What one message makes of the connection, on every branch of `onMessage`.
use nev.Base.{
  ℕ, ◌^◌, ◌≤◌, ◌≡◌, refl, sym, ap, ◌∙◌, Bool, true, false, not, if◌then◌else◌, List, [], ◌++◌,
  length, arith, append-nil, subst, Bool-cases, inl, inr,
}
use nev.Buffer.{Buffer, initial_size, new}
use nev.Buffer.Valid.{HasRoom}
use nev.Http.Request.{Request}
use nev.Http.Response.{Response, append_to_buffer}
use nev.Http.Layout.{response_text}
use nev.Http.Server.{Parser, Context, parse_request, got_all, bad_request, on_request, on_message}
use nev.Http.Server.Answers.{rejection, response_of, bad_request-answers, sent, built}
use nev.Http.Exchange.{answer, reply}
use nev.TcpConnection.{
  is_connecting, State, connected, Conn, WriteResult, is_connected, is_disconnected, send,
  send_buffer, send_in_loop, shutdown, shutdown_in_loop,
}
use nev.TcpConnection.Invariant.{Inv, send_in_loop-Inv, shutdown-Inv}
use nev.TcpConnection.Frame.{send_in_loop-SameFrame}
use nev.TcpConnection.Stream.{stream, kept, send_in_loop-stream}

-- A connection behind some text that was sent on it.
pub record Said (s t : Conn) (text : List ℕ) : Type 0 where
  pub inv : Inv t
  pub input : t.input_buffer ≡ s.input_buffer
  pub begun : is_connecting t.state ≡ false
  pub added : stream t ≡ stream s ++ text

silent : (s : Conn) → Inv s → is_connecting s.state ≡ false → Said s s []
silent s v b = record { inv = v; input = refl; begun = b; added = sym (append-nil (stream s)) }

then_quiet : {s t u : Conn} {text : List ℕ} → Said s t text → Said t u [] → Said s u text
then_quiet {t} a b = record {
  inv = b.inv;
  input = b.input ∙ a.input;
  begun = b.begun;
  added = b.added ∙ append-nil (stream t) ∙ a.added;
}

shutdown-Said : (s : Conn) → Inv s → is_connecting s.state ≡ false → Said s (shutdown true s) []
unfolding shutdown shutdown_in_loop
shutdown-Said s v b = record {
  inv = shutdown-Inv true s v;
  input = ground arith;
  begun = ground arith;
  added = kept s (shutdown true s) (ground arith) (ground arith) ∙ sym (append-nil (stream s));
}

shutdown_if-Said :
    (s : Conn) (close : Bool)
    → Inv s
    → is_connecting s.state ≡ false
    → Said s (if close then shutdown true s else s) []
shutdown_if-Said s true v b = shutdown-Said s v b
shutdown_if-Said s false v b = silent s v b

send_in_loop-Said :
    (s : Conn) (w : WriteResult) (text : List ℕ)
    → Inv s
    → s.state ≡ connected
    → HasRoom s.output_buffer (length text)
    → Said s (send_in_loop s w text) text
send_in_loop-Said s w text v up room =
    let frame = send_in_loop-SameFrame s w text in
    record {
      inv = send_in_loop-Inv s w text v room;
      input = frame.same_input;
      begun = ap is_connecting (frame.same_state ∙ up);
      added =
          send_in_loop-stream s w text v room
          ∙ ap (λ (x : State). stream s ++ (if is_disconnected x then [] else text)) up;
    }

said_and_shut :
    (s : Conn) (w : WriteResult) (text : List ℕ) (close : Bool)
    → Inv s
    → s.state ≡ connected
    → HasRoom s.output_buffer (length text)
    → let t = send_in_loop s w text in Said s (if close then shutdown true t else t) text
said_and_shut s w text close v up room =
    let said = send_in_loop-Said s w text v up room in
    then_quiet said (shutdown_if-Said (send_in_loop s w text) close said.inv said.begun)

bad_request-Said :
    (s : Conn) (w : WriteResult)
    → Inv s
    → s.state ≡ connected
    → HasRoom s.output_buffer (length rejection)
    → Said s (bad_request s w) rejection
unfolding bad_request send
bad_request-Said s w v up room =
    rw (ap is_connected up) (said_and_shut s w rejection true v up room)

shutdown_idle : (s : Conn) → is_connected s.state ≡ false → shutdown true s ≡ s
unfolding shutdown
shutdown_idle s down = rw down refl

send_buffer_idle :
    (s : Conn) (w : WriteResult) (b : Buffer)
    → is_connected s.state ≡ false
    → (send_buffer true s w b).0 ≡ s
unfolding send_buffer
send_buffer_idle s w b down = rw down refl

send_idle :
    (s : Conn) (w : WriteResult) (text : List ℕ)
    → is_connected s.state ≡ false
    → send true s w text ≡ s
unfolding send
send_idle s w text down = rw down refl

bad_request_idle : (s : Conn) (w : WriteResult) → is_connected s.state ≡ false → bad_request s w ≡ s
unfolding bad_request
bad_request_idle s w down = ap (shutdown true) (send_idle s w rejection down) ∙ shutdown_idle s down

connected_of : (s : State) → is_connected s ≡ true → s ≡ connected
connected_of s h = ground arith

either_way : (b : Bool) (s : Conn) → (if b then s else s) ≡ s
either_way true s = refl
either_way false s = refl

module _ (print : ℕ → List ℕ) (http_cb : Request → Response → Response) where
  -- The response to each request can be laid out.
  abbrev pub Prints : Type 0
  Prints =
      (req : Request)
      → (length (response_text print (response_of print http_cb req)) ≤ 2 ^ 62)
        × (length (print (response_of print http_cb req).status_code) ≤ 21)
        × (length (print (length (response_of print http_cb req).body)) ≤ 13)

  on_request_idle :
      (s : Conn) (w : WriteResult) (req : Request)
      → is_connected s.state ≡ false
      → on_request print http_cb s w req ≡ s
  unfolding on_request
  on_request_idle s w req down =
      let r = response_of print http_cb req in
      ap (λ (t : Conn). if r.close_connection then shutdown true t else t)
        (send_buffer_idle s w (append_to_buffer print r (new initial_size)) down)
      ∙ ap (λ (t : Conn). if r.close_connection then t else s) (shutdown_idle s down)
      ∙ either_way r.close_connection s

  on_request-Said :
      (s : Conn) (w : WriteResult) (req : Request)
      → Prints
      → Inv s
      → s.state ≡ connected
      → HasRoom s.output_buffer (length (response_text print (response_of print http_cb req)))
      → Said s
          (on_request print http_cb s w req)
          (response_text print (response_of print http_cb req))
  unfolding on_request
  on_request-Said s w req prints v up room =
      let r = response_of print http_cb req in
      let (small, h, k) = prints req in
      let e =
        sent s w (append_to_buffer print r (new initial_size)) up
        ∙ ap (send_in_loop s w) (built print http_cb r small h k) in
      subst
        (λ (t : Conn).
          Said s (if r.close_connection then shutdown true t else t) (response_text print r))
        (sym e) (said_and_shut s w (response_text print r) r.close_connection v up room)

  abbrev pub text_for : Request → List ℕ
  text_for req = response_text print (response_of print http_cb req)

  told_up :
      (s : Conn) (bad good : WriteResult) (req : Request) (ok got : Bool)
      → Prints
      → Inv s
      → s.state ≡ connected
      → HasRoom s.output_buffer (length (reply true ok got (text_for req)))
      → let t = if not ok then bad_request s bad else s in
        Said s
          (if got then on_request print http_cb t good req else t)
          (reply true ok got (text_for req))
  told_up s bad good req true true prints v up room = on_request-Said s good req prints v up room
  told_up s bad good req true false prints v up room = silent s v (ap is_connecting up)
  told_up s bad good req false got prints v up room =
      let said = bad_request-Said s bad v up room in
      let down = ap is_connected (bad_request-answers s bad v up room).1 in
      subst (λ (t : Conn). Said s t rejection)
        (sym (
          ap (λ (t : Conn). if got then t else bad_request s bad)
            (on_request_idle (bad_request s bad) good req down)
          ∙ either_way got (bad_request s bad)))
        said

  told_down :
      (s : Conn) (bad good : WriteResult) (req : Request) (ok got : Bool)
      → is_connected s.state ≡ false
      → let t = if not ok then bad_request s bad else s in
        (if got then on_request print http_cb t good req else t) ≡ s
  told_down s bad good req ok got down =
      let kept_up =
        ap (λ (t : Conn). if not ok then t else s) (bad_request_idle s bad down)
        ∙ either_way (not ok) s in
      ap (λ (t : Conn). if got then on_request print http_cb t good req else t) kept_up
      ∙ ap (λ (t : Conn). if got then t else s) (on_request_idle s good req down)
      ∙ either_way got s

  told :
      (s : Conn) (bad good : WriteResult) (req : Request) (ok got : Bool)
      → Prints
      → Inv s
      → is_connecting s.state ≡ false
      → HasRoom s.output_buffer (length (reply (is_connected s.state) ok got (text_for req)))
      → let t = if not ok then bad_request s bad else s in
        Said s
          (if got then on_request print http_cb t good req else t)
          (reply (is_connected s.state) ok got (text_for req))
  told s bad good req ok got prints v b room = elim (Bool-cases (is_connected s.state)) [
    | inl up ↦ rw up (
        told_up s bad good req ok got prints v (connected_of s.state up)
          (subst (λ c. HasRoom s.output_buffer (length (reply c ok got (text_for req)))) up room))
    | inr down ↦ rw (down, told_down s bad good req ok got down) (silent s v b)
  ]

  -- The parts of what `onMessage` returns.
  pub on_message_parts :
      {P : Type 0} (o : Parser P) (c : Context P) (b : Buffer) (s : Conn) (bad good : WriteResult)
      → let (parsed, rest, ok) = parse_request o c b in
        let t = if not ok then bad_request s bad else s in
        let got = got_all o parsed in
        ((on_message print http_cb o c b s bad good).1 ≡ rest)
        × ((on_message print http_cb o c b s bad good).2
            ≡ (if got then on_request print http_cb t good parsed.request else t))
  unfolding on_message
  on_message_parts o c b s bad good = elim (Bool-cases (got_all o (parse_request o c b).0)) [
    | inl t ↦ rw t (refl, refl)
    | inr t ↦ rw t (refl, refl)
  ]

  -- If every response can be laid out, onMessage on a begun connection in a state of the
  -- invariant, with memory for the answer, puts exactly the answer behind what was sent before:
  -- nothing on a connection that is not connected or for an unfinished request, the refusal for a
  -- bad one, and the callback's response for a finished one.
  pub on_message-replies :
      {P : Type 0} (o : Parser P) (c : Context P) (s : Conn) (bad good : WriteResult)
      → Prints
      → Inv s
      → is_connecting s.state ≡ false
      → HasRoom s.output_buffer (length (answer o print http_cb c s))
      → Said s
          (on_message print http_cb o c s.input_buffer s bad good).2
          (answer o print http_cb c s)
  on_message-replies o c s bad good prints v b room =
      let (parsed, rest, ok) = parse_request o c s.input_buffer in
      subst (λ (t : Conn). Said s t (answer o print http_cb c s))
        (sym (on_message_parts o c s.input_buffer s bad good).1)
        (told s bad good parsed.request ok (got_all o parsed) prints v b room)
