-- ===== src/Http/Headers.antt =====
-- What a request tells of its method and its headers.
use nev.Base.{
  ℕ, ◌≡◌, refl, ap, true, false, same_bytes, same_bytes_refl, same_bytes-eq, codes, List, [], ◌∷◌,
  some, arith, ◌⊎◌,
}
use nev.Http.Request.{
  Method, invalid, get, post, head, put, delete, Request, method_of, set_method, method_string,
  is_invalid, HeaderMap, put_header, find_header, add_header, or_empty, get_header,
}

-- A method that is set is the one that its name tells, and only the names of methods are
-- accepted.
pub set_method_lem :
    (m : List ℕ) (r : Request)
    → ((set_method m r).1 ≡ true) × (method_string (set_method m r).0.method ≡ m)
      ⊎ ((set_method m r).1 ≡ false) × ((set_method m r).0.method ≡ invalid)
unfolding set_method method_of
set_method_lem m r = ground (
  arith,
  same_bytes-eq m (codes "GET"),
  same_bytes-eq m (codes "POST"),
  same_bytes-eq m (codes "HEAD"),
  same_bytes-eq m (codes "PUT"),
  same_bytes-eq m (codes "DELETE"),
)

-- Every method but the invalid one is set by its own name.
pub set_method-method_string :
    (k : Method) (r : Request)
    → is_invalid k ≡ false
    → ((set_method (method_string k) r).0.method ≡ k) × ((set_method (method_string k) r).1 ≡ true)
unfolding set_method method_of same_bytes
set_method-method_string invalid r h = ground arith
set_method-method_string get r h = (refl, refl)
set_method-method_string post r h = (refl, refl)
set_method-method_string head r h = (refl, refl)
set_method-method_string put r h = (refl, refl)
set_method-method_string delete r h = (refl, refl)

find_header-put_header :
    (field value : List ℕ) (hs : HeaderMap)
    → find_header field (put_header field value hs) ≡ some value
unfolding find_header put_header
find_header-put_header field value [] = ground (arith, same_bytes_refl field)
find_header-put_header field value (h ∷ hs) =
    ground (arith, same_bytes_refl field, find_header-put_header field value hs)

find_header-put_other :
    (field other value : List ℕ) (hs : HeaderMap)
    → same_bytes field other ≡ false
    → find_header other (put_header field value hs) ≡ find_header other hs
unfolding find_header put_header
find_header-put_other field other value [] h = rw h refl
find_header-put_other field other value (e ∷ hs) h =
    ground (arith, h, find_header-put_other field other value hs h, same_bytes-eq e.0 field)

-- A header that was added is found with its last value, and a header of another name is found as
-- before.
pub get_header-add_header :
    (field value other : List ℕ) (r : Request)
    → same_bytes field other ≡ false
    → (get_header field (add_header field value r) ≡ value)
      × (get_header other (add_header field value r) ≡ get_header other r)
unfolding get_header add_header
get_header-add_header field value other r h = (
  ap or_empty (find_header-put_header field value r.headers),
  ap or_empty (find_header-put_other field other value r.headers h),
)
