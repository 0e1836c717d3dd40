-- ===== src/Bgp/Evpn/Reads.antt =====
-- The fields of an encoded EVPN route are read back: the labels, the addresses and the distinguisher.
use sonic_bmp.Common.{
  ℕ, ◌+◌, ◌*◌, ◌^◌, ◌≤◌, ◌<◌, ◌≡◌, refl, true, false, [], ◌∷◌, ◌++◌, append_assoc, none, some,
  Option, ◌==◌, ltb, leb, Bytes, length, arith, ok, read_u8, swap_bytes, little_endian, network,
  length-network, read_bytes-length, read_uint-network, le→leb, to_int, shift_right,
}
use sonic_bmp.Bgp.ExtCommunity.{uint_of}
use sonic_bmp.Bgp.ExtCommunity.Numbers.{Number, two_octet, four_octet, address, IsNumber}
use sonic_bmp.Bgp.Labels.{parse_route_distinguisher}
use sonic_bmp.Bgp.Types.{Host, RdTuple, copy_into}
use sonic_bmp.Bgp.Evpn.{read_mpls, read_mpls_if, ip_bytes, read_ip}
use sonic_bmp.Bgp.Evpn.Format.{
  encode_rd, rd_of, Address, no_address, address_v4, address_v6, IsAddress, address_bits,
  address_bytes, address_text, padded, IsSecond, encode_second, label_int, second_int,
}

label_word : (l : ℕ) → l < 2 ^ 24 → shift_right (to_int (256 * l)) 8 ≡ label_int l
label_word l h = ground arith

uint_of-label : (l : ℕ) → l < 2 ^ 24 → uint_of (network 3 l ++ (0 ∷ [])) ≡ 256 * l
unfolding uint_of swap_bytes little_endian
uint_of-label l h = omega arith

pub read_mpls-network :
    (l : ℕ) (d : Bytes) → l < 2 ^ 24 → read_mpls (network 3 l ++ d) ≡ ok (label_int l, d)
unfolding read_mpls
read_mpls-network l d h =
    rw (read_bytes-length 3 (network 3 l) d (length-network 3 l), uint_of-label l h, label_word l h)
      refl

pub read_mpls_if-network :
    (l : ℕ) (d : Bytes) → l < 2 ^ 24 → read_mpls_if true (network 3 l ++ d) ≡ ok (label_int l, 3, d)
unfolding read_mpls_if
read_mpls_if-network l d h = rw (read_mpls-network l d h) refl

-- The second label is there exactly if three bytes of the route are left.
pub read_mpls_if-second :
    (second : Option ℕ) (d : Bytes) (n m : ℕ)
    → IsSecond second
    → n ≡ m + length (encode_second second)
    → read_mpls_if (n == m + 3) (encode_second second ++ d)
      ≡ ok (second_int second, length (encode_second second), d)
unfolding read_mpls_if
read_mpls_if-second none d n m h e =
    let away : (n == m + 3) ≡ false = ground (arith, e) in rw away refl
read_mpls_if-second (some l) d n m h e =
    let here : (n == m + 3) ≡ true = ground (arith, e, length-network 3 l) in
    rw (here, read_mpls-network l d h) refl

read_ip-bytes :
    (h : Host) (bits data_len read : ℕ) (bs d : Bytes)
    → ltb 0 bits ≡ true
    → length bs ≡ ip_bytes bits
    → ip_bytes bits + read ≤ data_len
    → read_ip h bits data_len read (bs ++ d)
      ≡ ok (h.inet_ntop (leb bits 32) (padded bs), ip_bytes bits, d)
unfolding read_ip copy_into
read_ip-bytes h bits data_len read bs d p l room =
    let fits : leb (length bs) 16 ≡ true = le→leb (length bs) 16 (omega (arith, l)) in
    rw
      (
        p,
        le→leb (ip_bytes bits + read) data_len room,
        read_bytes-length (ip_bytes bits) bs d l,
        fits,
      )
      refl

pub read_ip-address :
    (h : Host) (addr : Address) (data_len read : ℕ) (d : Bytes)
    → IsAddress addr
    → read + length (address_bytes addr) ≤ data_len
    → read_ip h (address_bits addr) data_len read (address_bytes addr ++ d)
      ≡ ok (address_text h addr, length (address_bytes addr), d)
read_ip-address h no_address data_len read d v room = no_bits
  where
    no_bits : read_ip h 0 data_len read d ≡ ok ([], 0, d)
    no_bits = unfold read_ip in refl
read_ip-address h (address_v4 bs) data_len read d v room =
    rw v (read_ip-bytes h 32 data_len read bs d refl v (omega (arith, v)))
read_ip-address h (address_v6 bs) data_len read d v room =
    rw v (read_ip-bytes h 128 data_len read bs d refl v (omega (arith, v)))

pub parse_route_distinguisher-encode :
    (h : Host) (a : Number) (d : Bytes) (rd : RdTuple)
    → IsNumber a
    → parse_route_distinguisher h (encode_rd a ++ d) rd ≡ ok (rd_of h a)
unfolding parse_route_distinguisher read_u8
parse_route_distinguisher-encode h (two_octet asn n) d rd (va, vn) =
    rw
      (
        append_assoc (network 2 asn) (network 4 n) d,
        read_uint-network 2 asn (network 4 n ++ d) (omega (arith, va)),
        read_uint-network 4 n d (omega (arith, vn)),
      )
      refl
parse_route_distinguisher-encode h (four_octet asn n) d rd (va, vn) =
    rw
      (
        append_assoc (network 4 asn) (network 2 n) d,
        read_uint-network 4 asn (network 2 n ++ d) (omega (arith, va)),
        read_uint-network 2 n d (omega (arith, vn)),
      )
      refl
parse_route_distinguisher-encode h (address addr n) d rd (l, vn) =
    rw
      (
        append_assoc addr (network 2 n) d,
        read_bytes-length 4 addr (network 2 n ++ d) l,
        read_uint-network 2 n d (omega (arith, vn)),
      )
      refl
