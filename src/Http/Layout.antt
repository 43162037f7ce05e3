-- ===== src/Http/Layout.antt =====
-- The layout of a response in the output buffer.
use nev.Base.{
  ℕ, ◌≤◌, ◌≡◌, refl, sym, ap, ◌∙◌, subst, Bool, true, false, if◌then◌else◌, List, [], ◌∷◌, ◌++◌,
  length, length-append, take_all, codes, arith,
}
use nev.Buffer.{Buffer, append}
use nev.Buffer.Valid.{IsValid, content, HasRoom}
use nev.Buffer.Queue.{Holds}
use nev.Buffer.Growth.{append_all, joined, append_all-append, append_all-Holds}
use nev.Http.Request.{HeaderMap}
use nev.Http.Response.{
  Response, crlf, print_to_buf, append_headers, append_status, append_connection, append_to_buffer,
}

-- The lines of a response, in order, each from its parts.
abbrev pub header_lines : HeaderMap → List (List ℕ)
header_lines [] = []
header_lines (h ∷ hs) = h.0 ∷ codes ": " ∷ h.1 ∷ crlf ∷ header_lines hs

short : (text : List ℕ) → length text ≤ 31 → print_to_buf text ≡ text
unfolding print_to_buf
short text h = take_all 31 text h

three :
    (b : Buffer) (x y z : List ℕ) → append (append (append b x) y) z ≡ append_all b (x ∷ y ∷ z ∷ [])
unfolding append_all
three b x y z = refl

two : (b : Buffer) (x y : List ℕ) → append (append b x) y ≡ append_all b (x ∷ y ∷ [])
unfolding append_all
two b x y = refl

either_lines :
    (c : Bool) (b : Buffer) (x y z : List ℕ)
    → (if c then append b x else append (append b y) z)
      ≡ append_all b (if c then (x ∷ []) else (y ∷ z ∷ []))
unfolding append_all
either_lines true b x y z = refl
either_lines false b x y z = refl

module _ (print : ℕ → List ℕ) where
  abbrev pub status_line : Response → List (List ℕ)
  status_line r =
      (codes "HTTP/1.1 " ++ print r.status_code ++ codes " ") ∷ r.status_message ∷ crlf ∷ []

  abbrev pub connection_lines : Response → List (List ℕ)
  connection_lines r =
      if r.close_connection
      then codes "Connection: close\r\n" ∷ []
      else (codes "Content-Length: " ++ print (length r.body) ++ crlf)
        ∷ codes "Connection: Keep-Alive\r\n"
        ∷ []

  -- The text of a response: its lines, an empty line, and the body.
  abbrev pub response_text : Response → List ℕ
  response_text r =
      joined (status_line r ++ connection_lines r ++ header_lines r.headers ++ crlf ∷ r.body ∷ [])

  headers_appended :
      (hs : HeaderMap) (b : Buffer) → append_headers hs b ≡ append_all b (header_lines hs)
  unfolding append_headers append_all
  headers_appended [] b = refl
  headers_appended (h ∷ hs) b = headers_appended hs _

  status_appended :
      (r : Response) (b : Buffer)
      → length (print r.status_code) ≤ 21
      → append_status print r b ≡ append_all b (status_line r)
  unfolding append_status
  status_appended r b h =
      let text = codes "HTTP/1.1 " ++ print r.status_code ++ codes " " in
      let size = length-append (print r.status_code) (codes " ") in
      ap (λ t. append (append (append b t) r.status_message) crlf)
        (short text (omega (arith, h, size)))
      ∙ three b text r.status_message crlf

  connection_appended :
      (r : Response) (b : Buffer)
      → length (print (length r.body)) ≤ 13
      → append_connection print r b ≡ append_all b (connection_lines r)
  unfolding append_connection
  connection_appended r b h =
      let text = codes "Content-Length: " ++ print (length r.body) ++ crlf in
      let size = length-append (print (length r.body)) crlf in
      ap
        (λ t.
          if r.close_connection
          then append b (codes "Connection: close\r\n")
          else append (append b t) (codes "Connection: Keep-Alive\r\n"))
        (short text (omega (arith, h, size)))
      ∙ either_lines r.close_connection b (codes "Connection: close\r\n") text
          (codes "Connection: Keep-Alive\r\n")

  -- `appendToBuffer` appends the lines and then the body.
  all_appended :
      (r : Response) (b : Buffer)
      → length (print r.status_code) ≤ 21
      → length (print (length r.body)) ≤ 13
      → append_to_buffer print r b
        ≡ append_all b
            (status_line r ++ connection_lines r ++ header_lines r.headers ++ crlf ∷ r.body ∷ [])
  unfolding append_to_buffer
  all_appended r b h k =
      let ss = status_line r in
      let cs = connection_lines r in
      let hs = header_lines r.headers in
      ap (λ d. append (append (append_headers r.headers (append_connection print r d)) crlf) r.body)
        (status_appended r b h)
      ∙ ap (λ d. append (append (append_headers r.headers d) crlf) r.body)
          (connection_appended r (append_all b ss) k ∙ append_all-append b ss cs)
      ∙ ap (λ d. append (append d crlf) r.body)
          (headers_appended r.headers (append_all b (ss ++ cs)) ∙ append_all-append b (ss ++ cs) hs)
      ∙ two (append_all b (ss ++ cs ++ hs)) crlf r.body
      ∙ append_all-append b (ss ++ cs ++ hs) (crlf ∷ r.body ∷ [])

  -- If there is memory for it, and the numbers are printed short enough for the 32 bytes of buf,
  -- appendToBuffer puts the whole text of the response behind the content of a valid buffer.
  pub append_to_buffer-Holds :
      (r : Response) {b : Buffer}
      → IsValid b
      → HasRoom b (length (response_text r))
      → length (print r.status_code) ≤ 21
      → length (print (length r.body)) ≤ 13
      → Holds (append_to_buffer print r b) (content b ++ response_text r)
  append_to_buffer-Holds r {b} v room h k =
      subst (λ d. Holds d (content b ++ response_text r)) (sym (all_appended r b h k))
        (append_all-Holds
          (status_line r ++ connection_lines r ++ header_lines r.headers ++ crlf ∷ r.body ∷ []) v
          room)
