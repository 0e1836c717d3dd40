-- ===== src/Bmp/CommonHeader/Reads.antt =====
-- A framed peer message is read up to its end, and its body is buffered.
use sonic_bmp.Common.{
  ℕ, ◌+◌, ◌-◌, ◌%◌, ◌^◌, ◌≤◌, ◌<◌, ◌≡◌, refl, false, ◌∷◌, ◌++◌, ◌==◌, ltb, Bytes, length,
  take-append-length, drop-append-length, length-append, arith, Result, ok, ◌>>=◌, read_u8, network,
  length-network, read_uint-network, le→ltb, le→leb, [],
}
use sonic_bmp.Bgp.Types.{Host}
use sonic_bmp.Bmp.CommonHeader.{max_msg_size, buffer_size, parse_bmp_v3, buffer_bmp_message}
use sonic_bmp.Bmp.PeerHeader.{Peer}
use sonic_bmp.Bmp.PeerHeader.RoundTrip.{
  Header, IsHeader, encode_peer, read_peer, parse_peer_hdr-encode_peer,
}

-- A peer's message behind the version byte.
abbrev pub encode_message : ℕ → Header → Bytes → Bytes → Bytes
encode_message type x body d =
    network 4 (48 + length body) ++ (type ∷ (encode_peer x ++ (body ++ d)))

-- parseBMPv3, and bufferBMPMessage behind it.
abbrev pub read_message : Host → ℕ × ℕ → Bytes → Peer → Result (Peer × Bytes × Bytes)
read_message h now sock e = do
  m ← parse_bmp_v3 h now sock e
  (body, left, rest) ← buffer_bmp_message [] m.len m.sock
  ok (m.peer, body, rest)

pub buffer_bmp_message-whole :
    (body d : Bytes)
    → length body < buffer_size
    → buffer_bmp_message [] (length body) (body ++ d) ≡ ok (body, 0, d)
unfolding buffer_bmp_message
buffer_bmp_message-whole [] d small = refl
buffer_bmp_message-whole (b ∷ body) d small =
    let n = length (b ∷ body) in
    let some : (n == 0) ≡ false = ground arith in
    let there : ltb (length ((b ∷ body) ++ d)) n ≡ false =
      le→ltb (length ((b ∷ body) ++ d)) n (omega (arith, length-append (b ∷ body) d)) in
    rw
      (
        some,
        le→ltb buffer_size n (omega arith),
        there,
        take-append-length (b ∷ body) d,
        drop-append-length (b ∷ body) d,
      )
      refl

-- The headers alone: what is left of the message is its body.
pub parse_bmp_v3-encode_message :
    (h : Host) (now : ℕ × ℕ) (type : ℕ) (x : Header) (body d : Bytes) (e : Peer)
    → type ≤ 3
    → IsHeader x
    → 42 + length body ≤ 65535
    → parse_bmp_v3 h now (encode_message type x body d) e
      ≡ ok (record { type = type; len = length body; peer = read_peer h x e; sock = body ++ d })
unfolding parse_bmp_v3 read_u8
parse_bmp_v3-encode_message h now type x body d e known v small =
    let n = length body in
    let tail = encode_peer x ++ (body ++ d) in
    let there : ltb (length (encode_message type x body d)) 5 ≡ false =
      le→ltb (length (encode_message type x body d)) 5 (
        omega
          (arith, length-append (network 4 (48 + n)) (type ∷ tail), length-network 4 (48 + n))) in
    let len : (48 + n + 2 ^ 32 - 6) % 2 ^ 32 ≡ 42 + n = omega (arith, small) in
    let left : (42 + n + 2 ^ 32 - 42) % 2 ^ 32 ≡ n = omega (arith, small) in
    rw
      (
        there,
        parse_bmp_v3,
        read_uint-network 4 (48 + n) (type ∷ tail) (omega (arith, small)),
        len,
        le→ltb max_msg_size (42 + n) small,
        le→leb type 3 known,
        parse_peer_hdr-encode_peer h now x (body ++ d) (42 + n) e v,
        left,
      )
      refl

-- A route monitoring, statistics, peer down or peer up message of BMP version 3, with a well-formed
-- peer header and a body of at most 65493 bytes, is read by parseBMPv3 and bufferBMPMessage up to its
-- end: the peer is what its header says, the buffer holds the body, and the stream stands behind it.
pub read_message-encode_message :
    (h : Host) (now : ℕ × ℕ) (type : ℕ) (x : Header) (body d : Bytes) (e : Peer)
    → type ≤ 3
    → IsHeader x
    → 42 + length body ≤ 65535
    → read_message h now (encode_message type x body d) e ≡ ok (read_peer h x e, body, d)
read_message-encode_message h now type x body d e known v small =
    rw
      (
        parse_bmp_v3-encode_message h now type x body d e known v small,
        buffer_bmp_message-whole body d (omega (arith, small)),
      )
      refl
