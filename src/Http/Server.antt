-- ===== src/Http/Server.antt =====
-- src/nev/http/http_context.cc, src/nev/http/http_context.h and src/nev/http/http_server.cc: the classes
-- `HttpContext` and `HttpServer`. The generated parser is a parameter: `execute` returns its new state,
-- what `http_parser_execute` returns, and the calls that it makes of the context's callbacks.
pub mod Answers
pub mod Listen
use nev.Base.{
  ℕ, Bool, true, false, not, ◌&&◌, ◌||◌, if◌then◌else◌, ◌==◌, same_bytes, codes, List, [], ◌∷◌,
  ◌++◌, add_size,
}
use nev.Buffer.{Buffer, initial_size, new, retrieve, to_string_piece}
use nev.Http.Request.{
  Request, Version, is_http10, http10, http11, new_request, swap_requests, set_method, set_version,
  set_path, set_query, add_header, get_header,
}
use nev.Http.Response.{Response, new_response, append_to_buffer}
use nev.TcpConnection.{Conn, WriteResult, is_connected, send, send_buffer, shutdown}

-- The calls of `parseHttpVersion`, `parseRequestMethod`, `parseRequestPath`, `parseQueryString` and
-- `parseHttpField`.
pub data Event : Type 0 where
  version_event method_event path_event query_event : List ℕ → Event
  field_event : List ℕ → List ℕ → Event

unfoldable pub version_of : List ℕ → Version → Version
version_of v old =
    if same_bytes v (codes "HTTP/1.0")
    then http10
    else if same_bytes v (codes "HTTP/1.1")
    then http11
    else old

abbrev pub is_empty_field : List ℕ → Bool
is_empty_field [] = true
is_empty_field (c ∷ cs) = false

unfoldable pub apply_event : Request → Event → Request
unfolding version_of set_method add_header
apply_event r (version_event v) = set_version (version_of v r.version) r
apply_event r (method_event m) = (set_method m r).0
apply_event r (path_event p) = set_path p r
apply_event r (query_event q) = set_query q r
apply_event r (field_event f v) = if is_empty_field f then r else add_header f v r

unfoldable pub apply_events : Request → List Event → Request
unfolding apply_event
apply_events r [] = r
apply_events r (e ∷ es) = apply_events (apply_event r e) es

pub record Context (P : Type 0) : Type 0 where
  pub request : Request
  pub parser : P
  pub nparsed : ℕ

-- `http_parser_init`, `http_parser_execute`, `http_parser_has_error` and `http_parser_is_finished`.
pub record Parser (P : Type 0) : Type 0 where
  pub initial : P
  pub execute : P → List ℕ → ℕ → P × ℕ × List Event
  pub has_error : P → Bool
  pub is_finished : P → Bool

module _ {P : Type 0} (o : Parser P) where
  unfoldable pub new_context : Context P
  new_context = record { request = new_request; parser = o.initial; nparsed = 0 }

  -- The third component is the result.
  unfoldable pub parse_request : Context P → Buffer → Context P × Buffer × Bool
  unfolding to_string_piece apply_events retrieve
  parse_request c buf =
      let (parser, delta, events) = o.execute c.parser (to_string_piece buf) c.nparsed in
      (
        record {
          request = apply_events c.request events;
          parser = parser;
          nparsed = add_size c.nparsed delta;
        },
        retrieve buf delta,
        not (o.has_error parser),
      )

  unfoldable pub got_all : Context P → Bool
  got_all c = o.is_finished c.parser

  unfoldable pub reset : Context P → Context P
  unfolding swap_requests
  reset c = record {
    request = (swap_requests c.request new_request).0;
    parser = o.initial;
    nparsed = 0;
  }

unfoldable pub default_http_callback : Request → Response → Response
default_http_callback req resp = record resp {
  status_code = 404;
  status_message = codes "Not Found";
  close_connection = true;
}

-- Whether the connection is closed behind the response, by its request.
unfoldable pub close_flag : Request → Bool
unfolding get_header
close_flag req =
    let connection = get_header (codes "Connection") req in
    same_bytes connection (codes "close")
    || (is_http10 req.version && not (same_bytes connection (codes "Keep-Alive")))

unfoldable pub bad_request : Conn → WriteResult → Conn
unfolding send shutdown
bad_request conn result =
    shutdown true (send true conn result (codes "HTTP/1.1 400 Bad Request\r\n\r\n"))

-- `print` is the `%d` of `snprintf`, `http_cb` the users' callback.
module _ (print : ℕ → List ℕ) (http_cb : Request → Response → Response) where
  unfoldable pub on_request : Conn → WriteResult → Request → Conn
  unfolding close_flag new_response append_to_buffer new send_buffer shutdown
  on_request conn result req =
      let resp = http_cb req (new_response (close_flag req)) in
      let sent =
        (send_buffer true conn result (append_to_buffer print resp (new initial_size))).0 in
      if resp.close_connection then shutdown true sent else sent

  -- The context, the input buffer and the connection behind a message; the two results are those of the
  -- writes for a bad request and for a response.
  unfoldable pub on_message :
      {P : Type 0}
      → Parser P
      → Context P
      → Buffer
      → Conn
      → WriteResult
      → WriteResult
      → Context P × Buffer × Conn
  unfolding parse_request bad_request got_all on_request reset
  on_message o c buf conn bad good =
      let (parsed, rest, ok) = parse_request o c buf in
      let told = if not ok then bad_request conn bad else conn in
      if got_all o parsed
      then (reset o parsed, rest, on_request told good parsed.request)
      else (parsed, rest, told)
