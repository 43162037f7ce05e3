-- ===== src/Http/Request.antt =====
-- include/nev/http/http_request.h: the class `HttpRequest`.
use nev.Base.{
  ℕ, Bool, true, false, not, ◌||◌, ◌&&◌, if◌then◌else◌, leb, ◌==◌, same_bytes, bytes_less, codes,
  List, [], ◌∷◌, Option, some, none,
}

pub data Method : Type 0 where
  invalid get post head put delete : Method

pub data Version : Type 0 where
  unknown http10 http11 : Version

-- A `std::map` of strings, as the list of its keys and values, in the order of the keys.
abbrev pub HeaderMap : Type 0
HeaderMap = List (List ℕ × List ℕ)

pub record Request : Type 0 where
  pub method : Method
  pub version : Version
  pub path : List ℕ
  pub query : List ℕ
  pub receive_time : ℕ
  pub headers : HeaderMap

abbrev pub new_request : Request
new_request = record {
  method = invalid;
  version = unknown;
  path = [];
  query = [];
  receive_time = 0;
  headers = [];
}

-- `setReceiveTime`; a `base::TimeTicks` is a number, 0 if it was never set.
unfoldable pub set_receive_time : ℕ → Request → Request
set_receive_time t r = record r { receive_time = t }

-- `swap` leaves the receive times where they are.
unfoldable pub swap_requests : Request → Request → Request × Request
swap_requests r that =
    (record that { receive_time = r.receive_time }, record r { receive_time = that.receive_time })

unfoldable pub method_of : List ℕ → Method
method_of m =
    if same_bytes m (codes "GET")
    then get
    else if same_bytes m (codes "POST")
    then post
    else if same_bytes m (codes "HEAD")
    then head
    else if same_bytes m (codes "PUT")
    then put
    else if same_bytes m (codes "DELETE")
    then delete
    else invalid

abbrev pub is_http10 : Version → Bool
is_http10 http10 = true
is_http10 _ = false

abbrev pub is_invalid : Method → Bool
is_invalid invalid = true
is_invalid _ = false

-- The second component is the result.
unfoldable pub set_method : List ℕ → Request → Request × Bool
unfolding method_of
set_method m r = (record r { method = method_of m }, not (is_invalid (method_of m)))

abbrev pub method_string : Method → List ℕ
method_string get = codes "GET"
method_string post = codes "POST"
method_string head = codes "HEAD"
method_string put = codes "PUT"
method_string delete = codes "DELETE"
method_string invalid = codes "UNKNOWN"

abbrev pub set_version : Version → Request → Request
set_version v r = record r { version = v }

abbrev pub set_path : List ℕ → Request → Request
set_path p r = record r { path = p }

abbrev pub set_query : List ℕ → Request → Request
set_query q r = record r { query = q }

-- `isspace` in the C locale.
unfoldable pub is_space : ℕ → Bool
is_space c = (c == b' ') || (leb b'\t' c && leb c b'\r')

-- The loop that skips spaces in front.
unfoldable pub skip_spaces : List ℕ → List ℕ
unfolding is_space
skip_spaces [] = []
skip_spaces (c ∷ cs) = if is_space c then skip_spaces cs else (c ∷ cs)

abbrev pub is_empty : List ℕ → Bool
is_empty [] = true
is_empty (c ∷ cs) = false

-- The loop that drops spaces at the end.
unfoldable pub drop_spaces : List ℕ → List ℕ
unfolding is_space
drop_spaces [] = []
drop_spaces (c ∷ cs) =
    let rest = drop_spaces cs in if is_empty rest && is_space c then [] else (c ∷ rest)

-- `headers_[field] = value`.
unfoldable pub put_header : List ℕ → List ℕ → HeaderMap → HeaderMap
put_header field value [] = (field, value) ∷ []
put_header field value (h ∷ hs) =
    if same_bytes h.0 field
    then ((field, value) ∷ hs)
    else if bytes_less field h.0
    then ((field, value) ∷ h ∷ hs)
    else (h ∷ put_header field value hs)

unfoldable pub find_header : List ℕ → HeaderMap → Option (List ℕ)
find_header field [] = none
find_header field (h ∷ hs) = if same_bytes h.0 field then some h.1 else find_header field hs

-- `addHeader(field, flen, value, vlen)`.
unfoldable pub add_header : List ℕ → List ℕ → Request → Request
unfolding put_header
add_header field value r = record r { headers = put_header field value r.headers }

-- `addHeader(start, colon, end)`: the bytes in front of the colon and behind it.
unfoldable pub add_header_line : List ℕ → List ℕ → Request → Request
unfolding put_header skip_spaces drop_spaces
add_header_line field rest r = record r {
  headers = put_header field (drop_spaces (skip_spaces rest)) r.headers;
}

unfoldable pub or_empty : Option (List ℕ) → List ℕ
or_empty none = []
or_empty (some v) = v

unfoldable pub get_header : List ℕ → Request → List ℕ
unfolding or_empty find_header
get_header field r = or_empty (find_header field r.headers)
