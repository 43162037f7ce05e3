-- ===== src/Demos.antt =====
-- demos/nev_echo.cc, demos/nev_httpd.cc and examples/simple/discard/discard_server.cc: the callbacks of servers that are
-- built on the library.
pub mod Echo
mod Tests
use nev.Base.{ℕ, Bool, true, if◌then◌else◌, List, [], ◌∷◌, codes}
use nev.Buffer.{Buffer, retrieve_all_as_string}
use nev.Buffer.ReadFd.{ReadResult, received, failed}
use nev.Http.Request.{Request}
use nev.Http.Response.{Response}
use nev.Sockets.{Sys, pure}
use nev.Sockets.Socket.{Socket}
use nev.TcpConnection.Owner.{set_no_delay}
use nev.TcpConnection.{Conn, WriteResult, is_connected, send}
use nev.TcpConnection.Events.{handle_read}

-- `onConnection` of the echo server; the option is set on the connection's socket.
unfoldable pub on_connection : Conn → Socket → Sys (Unit {0})
unfolding set_no_delay
on_connection conn socket = if is_connected conn.state then set_no_delay true socket else pure tt

-- `onMessage` of the echo server, called with the connection's input buffer.
unfoldable pub on_message : Conn → WriteResult → Conn
unfolding retrieve_all_as_string send
on_message conn result =
    let (msg, rest) = retrieve_all_as_string conn.input_buffer in
    send true (record conn { input_buffer = rest }) result msg

-- `DiscardServer::onMessage`; the number of bytes is logged.
unfoldable pub discard_message : Conn → Conn
unfolding retrieve_all_as_string
discard_message conn = record conn { input_buffer = (retrieve_all_as_string conn.input_buffer).1 }

-- `TcpConnection::handleRead` with the callback of the echo server; the write result is that of its `send`.
unfoldable pub read_event : Conn → ReadResult → WriteResult → Conn
unfolding handle_read on_message
read_event s (received (c ∷ cs)) result = on_message (handle_read s (received (c ∷ cs))) result
read_event s r result = handle_read s r

-- `onHttpCallback` of the HTTP server.
unfoldable pub on_http_callback : Request → Response → Response
on_http_callback req resp = record resp {
  status_code = 200;
  status_message = codes "OK";
  body = codes "nev_httpd";
  close_connection = true;
}
