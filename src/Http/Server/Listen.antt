-- ===== src/Http/Server/Listen.antt =====
-- src/nev/http/http_server.cc and include/nev/http/http_server.h: the class `HttpServer` over its `TcpServer`.
use nev.Base.{ℕ, Bool, List}
use nev.Http.Request.{Request}
use nev.Http.Response.{Response}
use nev.Http.Server.{default_http_callback}
use nev.TcpServer.{Server, new_server, set_threads}
use nev.TcpServer

pub record HttpServer (L : Type 0) : Type 0 where
  pub server : Server L
  pub http_cb : Request → Response → Response

unfoldable pub new_http_server : {L : Type 0} → L → List ℕ → HttpServer L
unfolding new_server default_http_callback
new_http_server loop name = record {
  server = new_server loop name;
  http_cb = default_http_callback;
}

unfoldable pub set_http_callback :
    {L : Type 0} → (Request → Response → Response) → HttpServer L → HttpServer L
set_http_callback cb s = record s { http_cb = cb }

unfoldable pub set_http_threads : {L : Type 0} → ℕ → HttpServer L → HttpServer L
unfolding set_threads
set_http_threads n s = record s { server = set_threads n s.server }

unfoldable pub start_http : {L : Type 0} → (ℕ → L) → Bool → HttpServer L → HttpServer L
unfolding TcpServer.start
start_http loop_of has_cb s = record s { server = TcpServer.start loop_of has_cb s.server }
