-- ===== src/Http/Response.antt =====
-- include/nev/http/http_response.h and src/nev/http/http_response.cc: the class `HttpResponse`. `print` is
-- the `%d` and `%zd` of `snprintf`.
use nev.Base.{ℕ, Bool, if◌then◌else◌, List, [], ◌∷◌, ◌++◌, length, take, codes}
use nev.Buffer.{Buffer, append}
use nev.Http.Request.{HeaderMap, put_header}

pub record Response : Type 0 where
  pub headers : HeaderMap
  pub status_code : ℕ
  pub status_message : List ℕ
  pub close_connection : Bool
  pub body : List ℕ

unfoldable pub new_response : Bool → Response
new_response flag_close = record {
  headers = [];
  status_code = 0;
  status_message = [];
  close_connection = flag_close;
  body = [];
}

abbrev pub add_response_header : List ℕ → List ℕ → Response → Response
add_response_header key value r = record r { headers = put_header key value r.headers }

abbrev pub set_content_type : List ℕ → Response → Response
set_content_type t r = add_response_header (codes "Content-Type") t r

abbrev pub crlf : List ℕ
crlf = b'\r' ∷ b'\n' ∷ []

-- What `snprintf` leaves in `buf`, which has 32 bytes with the terminating zero.
unfoldable pub print_to_buf : List ℕ → List ℕ
print_to_buf text = take 31 text

unfoldable pub append_headers : HeaderMap → Buffer → Buffer
unfolding append
append_headers [] output = output
append_headers (h ∷ hs) output =
    append_headers hs (append (append (append (append output h.0) (codes ": ")) h.1) crlf)

module _ (print : ℕ → List ℕ) where
  unfoldable pub append_status : Response → Buffer → Buffer
  unfolding append print_to_buf
  append_status r output =
      append
        (append
          (append output (print_to_buf (codes "HTTP/1.1 " ++ print r.status_code ++ codes " ")))
          r.status_message)
        crlf

  unfoldable pub append_connection : Response → Buffer → Buffer
  unfolding append print_to_buf
  append_connection r output =
      if r.close_connection
      then append output (codes "Connection: close\r\n")
      else append
          (append output (print_to_buf (codes "Content-Length: " ++ print (length r.body) ++ crlf)))
          (codes "Connection: Keep-Alive\r\n")

  unfoldable pub append_to_buffer : Response → Buffer → Buffer
  unfolding append append_status append_connection append_headers
  append_to_buffer r output =
      append (append (append_headers r.headers (append_connection r (append_status r output))) crlf)
        r.body
