-- ===== src/IpEndPoint/Order.antt =====
-- The order of end points, by which they are keys of maps.
use nev.Base.{
  bytes_less, same_bytes, same_bytes-eq, ℕ, ◌≡◌, refl, ap, true, false, not, ◌&&◌, ◌||◌, ltb, ◌==◌,
  List, [], ◌∷◌, length, arith, ◌⊎◌,
}
use nev.IpEndPoint.{
  IpAddress, same_address, address_less, IpEndPoint, same_end_point, end_point_less,
}

bytes_less_irrefl : (xs : List ℕ) → bytes_less xs xs ≡ false
unfolding bytes_less
bytes_less_irrefl [] = refl
bytes_less_irrefl (x ∷ xs) = ground (arith, bytes_less_irrefl xs)

bytes_less_trans :
    (xs ys zs : List ℕ)
    → bytes_less xs ys ≡ true
    → bytes_less ys zs ≡ true
    → bytes_less xs zs ≡ true
unfolding bytes_less
bytes_less_trans [] [] zs h k = k
bytes_less_trans [] (y ∷ ys) [] h k = k
bytes_less_trans [] (y ∷ ys) (z ∷ zs) h k = refl
bytes_less_trans (x ∷ xs) [] zs h k = ground arith
bytes_less_trans (x ∷ xs) (y ∷ ys) [] h k = k
bytes_less_trans (x ∷ xs) (y ∷ ys) (z ∷ zs) h k = ground (arith, bytes_less_trans xs ys zs)

bytes_less-total :
    (xs ys : List ℕ) → bytes_less xs ys ≡ false → bytes_less ys xs ≡ false → same_bytes xs ys ≡ true
unfolding bytes_less same_bytes
bytes_less-total [] [] h k = refl
bytes_less-total [] (y ∷ ys) h k = ground arith
bytes_less-total (x ∷ xs) [] h k = ground arith
bytes_less-total (x ∷ xs) (y ∷ ys) h k = ground (arith, bytes_less-total xs ys)

bytes_less-resp :
    (xs ys zs : List ℕ) → same_bytes xs ys ≡ true → bytes_less xs zs ≡ bytes_less ys zs
bytes_less-resp xs ys zs h = ap (λ t. bytes_less t zs) (same_bytes-eq xs ys h)

address_less_trans :
    (a b c : IpAddress)
    → address_less a b ≡ true
    → address_less b c ≡ true
    → address_less a c ≡ true
unfolding address_less
address_less_trans a b c h k =
    ground (arith, bytes_less_trans a.ip_address b.ip_address c.ip_address)

address_less_irrefl : (a : IpAddress) → address_less a a ≡ false
unfolding address_less
address_less_irrefl a = ground (arith, bytes_less_irrefl a.ip_address)

address_less-total :
    (a b : IpAddress)
    → address_less a b ≡ false
    → address_less b a ≡ false
    → same_address a b ≡ true
unfolding address_less same_address
address_less-total a b h k = ground (arith, bytes_less-total a.ip_address b.ip_address)

address_less-same :
    (a b : IpAddress)
    → same_address a b ≡ true
    → (address_less a b ≡ false) × (address_less b a ≡ false)
unfolding same_address address_less
address_less-same a b h =
    let e = same_bytes-eq a.ip_address b.ip_address h in
    ground (arith, e, bytes_less_irrefl a.ip_address, bytes_less_irrefl b.ip_address)

address_less-asym : (a b : IpAddress) → address_less a b ≡ true → address_less b a ≡ false
address_less-asym a b h = ground (arith, address_less_trans a b a, address_less_irrefl a)

same_address-length :
    (a b : IpAddress) → same_address a b ≡ true → length a.ip_address ≡ length b.ip_address
unfolding same_address
same_address-length a b h = ap length (same_bytes-eq a.ip_address b.ip_address h)

address_eq : (a b : IpAddress) → same_address a b ≡ true → a ≡ b
unfolding same_address
address_eq a b h = ap (λ bs. record { ip_address = bs }) (same_bytes-eq a.ip_address b.ip_address h)

shorter_less :
    (a b : IpAddress)
    → (length a.ip_address == length b.ip_address) ≡ false
    → address_less a b ≡ ltb (length a.ip_address) (length b.ip_address)
unfolding address_less
shorter_less a b h = ground arith

-- The comparison of the sizes that comes first changes nothing: the order is that of the addresses, then
-- of the ports.
less_pair :
    (a b : IpEndPoint)
    → end_point_less a b ≡ (
        address_less a.address b.address
        || (not (address_less b.address a.address) && ltb a.port b.port))
unfolding end_point_less
less_pair a b = ground (arith, shorter_less a.address b.address, shorter_less b.address a.address)

address_cases :
    (a b : IpAddress)
    → ((address_less a b ≡ true) × (address_less b a ≡ false) × (same_address a b ≡ false))
      ⊎ (((a ≡ b) × (same_address a b ≡ true))
          ⊎ ((address_less a b ≡ false) × (address_less b a ≡ true) × (same_address a b ≡ false)))
address_cases a b =
    ground
      (arith, address_less-asym a b, address_less-same a b, address_eq a b, address_less-total a b)

-- The order of end points is transitive: if one is less than a second and this is less than a
-- third, the first is less than the third.
pub end_point_less_trans :
    (a b c : IpEndPoint)
    → end_point_less a b ≡ true
    → end_point_less b c ≡ true
    → end_point_less a c ≡ true
end_point_less_trans a b c h k = ground (
  arith,
  less_pair a b,
  less_pair b c,
  less_pair a c,
  address_cases a.address b.address,
  address_cases b.address c.address,
  address_less_trans a.address b.address c.address,
  address_less-asym a.address c.address,
  address_less_irrefl a.address,
)

-- Of two end points one is less than the other or they are equal, and only one of these holds.
pub end_point_less-trichotomy :
    (a b : IpEndPoint)
    → ((end_point_less a b ≡ true) × (end_point_less b a ≡ false) × (same_end_point a b ≡ false))
      ⊎ (((a ≡ b)
            × (end_point_less a b ≡ false)
            × (end_point_less b a ≡ false)
            × (same_end_point a b ≡ true))
          ⊎ ((end_point_less a b ≡ false)
              × (end_point_less b a ≡ true)
              × (same_end_point a b ≡ false)))
unfolding same_end_point
end_point_less-trichotomy a b = ground (
  arith,
  less_pair a b,
  less_pair b a,
  address_cases a.address b.address,
  address_less_irrefl a.address,
)
