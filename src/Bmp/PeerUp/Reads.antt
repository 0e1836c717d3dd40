-- ===== src/Bmp/PeerUp/Reads.antt =====
-- The header of a peer up event is read, and a message that is too short for it is found.
use sonic_bmp.Common.{
  ℕ, ◌+◌, ◌-◌, ◌%◌, ◌^◌, ◌≤◌, ◌<◌, ◌≡◌, refl, sym, Bool, true, false, [], ◌++◌, ≢→==, lt→ltb,
  le→ltb, if◌then◌else◌, codes, Bytes, length, length-append, length-drop, take, drop,
  take-append-length, drop-append-length, ok, throw, network, arith, append_assoc,
}
use sonic_bmp.Bgp.Types.{Host}
use sonic_bmp.Bmp.CommonHeader.{buffer_size, buffer_bmp_message}
use sonic_bmp.Bmp.CommonHeader.Reads.{buffer_bmp_message-whole}
use sonic_bmp.Bmp.PeerHeader.{ipv4_text}
use sonic_bmp.Bmp.PeerUp.{UpHeader, recv_if, port_of, parse_peer_up_event_hdr}

-- The header of a peer up event as it is sent.
pub record Up : Type 0 where
  pub addr : Bytes
  pub local_port : ℕ
  pub remote_port : ℕ

pub record IsUp (u : Up) : Type 0 where
  pub addr_size : length u.addr ≡ 16
  pub local_small : u.local_port < 65536
  pub remote_small : u.remote_port < 65536

abbrev pub encode_up : Up → Bytes
encode_up u = u.addr ++ (network 2 u.local_port ++ network 2 u.remote_port)

-- What is read of it.
abbrev pub read_up : Host → Bool → Up → UpHeader
read_up h is_ipv4 u = record {
  local_ip = if is_ipv4 then ipv4_text (drop 12 u.addr) else h.inet_ntop false u.addr;
  local_port = u.local_port;
  remote_port = u.remote_port;
}

recv_if-append : (n : ℕ) (bs d : Bytes) → length bs ≡ n → recv_if true n (bs ++ d) ≡ (true, bs, d)
unfolding recv_if
recv_if-append n bs d e =
    rw
      (
        sym e,
        le→ltb (length (bs ++ d)) (length bs) (omega (arith, length-append bs d)),
        take-append-length bs d,
        drop-append-length bs d,
      )
      refl

recv_if-network : (p : ℕ) (d : Bytes) → recv_if true 2 (network 2 p ++ d) ≡ (true, network 2 p, d)
recv_if-network p d = recv_if-append 2 (network 2 p) d refl

port_of-network : (p : ℕ) → p < 65536 → port_of (network 2 p) ≡ p
unfolding port_of
port_of-network p h = omega (arith, h)

-- The header of a peer up event is read by parsePeerUpEventHdr, and the rest of its message is buffered.
pub parse_peer_up_event_hdr-encode_up :
    (h : Host) (is_ipv4 : Bool) (u : Up) (body d : Bytes) (e : UpHeader)
    → IsUp u
    → length body < 65536
    → parse_peer_up_event_hdr h is_ipv4 (encode_up u ++ (body ++ d)) (20 + length body) e
      ≡ ok (true, read_up h is_ipv4 u, body, d)
unfolding parse_peer_up_event_hdr
parse_peer_up_event_hdr-encode_up h is_ipv4 u body d e v small =
    let left : (20 + length body + 2 ^ 32 - 20) % 2 ^ 32 ≡ length body = omega (arith, small) in
    rw
      (
        append_assoc u.addr (network 2 u.local_port ++ network 2 u.remote_port) (body ++ d),
        append_assoc (network 2 u.local_port) (network 2 u.remote_port) (body ++ d),
        recv_if-append 16 u.addr
            (network 2 u.local_port ++ (network 2 u.remote_port ++ (body ++ d))) v.addr_size,
        recv_if-network u.local_port (network 2 u.remote_port ++ (body ++ d)),
        recv_if-network u.remote_port (body ++ d),
        port_of-network u.local_port v.local_small,
        port_of-network u.remote_port v.remote_small,
        left,
        buffer_bmp_message-whole body d (omega (arith, small)),
      )
      refl

recv_if-enough :
    (n : ℕ) (sock : Bytes)
    → n ≤ length sock
    → recv_if true n sock ≡ (true, take n sock, drop n sock)
unfolding recv_if
recv_if-enough n sock h = rw (le→ltb (length sock) n h) refl

-- The length that a peer up message is left with when it is too short for the event's header.
buffer_bmp_message-wrapped :
    (bmp_len : ℕ) (sock : Bytes)
    → bmp_len < 20
    → buffer_bmp_message [] ((bmp_len + 2 ^ 32 - 20) % 2 ^ 32) sock
      ≡ throw (codes "BMP message length is too large for buffer, invalid BMP sender")
unfolding buffer_bmp_message
buffer_bmp_message-wrapped bmp_len sock h =
    let n : ℕ = (bmp_len + 2 ^ 32 - 20) % 2 ^ 32 in
    let big : n ≡ bmp_len + 2 ^ 32 - 20 = omega arith in
    rw (≢→== n 0 (omega arith), lt→ltb buffer_size n (omega arith)) refl

-- A peer up message that has fewer than the 20 bytes of the event's header, on a stream that goes on,
-- ends in the exception for a length that is too large: bmp_len wraps below 0, with no test before.
pub parse_peer_up_event_hdr-short :
    (h : Host) (is_ipv4 : Bool) (sock : Bytes) (bmp_len : ℕ) (e : UpHeader)
    → bmp_len < 20
    → 20 ≤ length sock
    → parse_peer_up_event_hdr h is_ipv4 sock bmp_len e
      ≡ throw (codes "BMP message length is too large for buffer, invalid BMP sender")
unfolding parse_peer_up_event_hdr
parse_peer_up_event_hdr-short h is_ipv4 sock bmp_len e small more =
    let s1 = drop 16 sock in
    let s2 = drop 2 s1 in
    let l1 = length-drop 16 sock in
    let l2 = length-drop 2 s1 in
    rw
      (
        recv_if-enough 16 sock (omega (arith, more)),
        recv_if-enough 2 s1 (omega (arith, more, l1)),
        recv_if-enough 2 s2 (omega (arith, more, l1, l2)),
        buffer_bmp_message-wrapped bmp_len (drop 2 s2) small,
      )
      refl
