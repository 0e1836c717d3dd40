-- ===== src/Bmp/Reader/Shorter.antt =====
-- Every message that is read leaves a shorter stream.
use sonic_bmp.Common.{
  ℕ, zero, suc, ◌+◌, ◌-◌, ◌%◌, ◌^◌, ◌<◌, ◌≤◌, [], ◌∷◌, ◌||◌, ◌==◌, ltb, leb, inl, inr, Bool-cases,
  Bytes, length, drop, take, length-drop, arith, IfOk, IfOk-bind, IfOk-then, IfOk-imp, read_bytes,
  read_u8, read_uint,
}
use sonic_bmp.Bgp.Types.{Host}
use sonic_bmp.Bmp.CommonHeader.{
  Message, max_msg_size, buffer_size, buffer_bmp_message, parse_bmp_v3,
}
use sonic_bmp.Bmp.PeerHeader.{Peer, recv_into, parse_peer_hdr}
use sonic_bmp.Bmp.Version2.{v2_length, v2_peer, parse_bmp_v2, handle_message}

pub drop-shorter : (n : ℕ) (d : Bytes) → length (drop n d) ≤ length d
drop-shorter n d = omega (arith, length-drop n d)

pub buffer-shorter :
    (b : Bytes) (n : ℕ) (sock : Bytes)
    → IfOk (λ r. length r.2 ≤ length sock) (buffer_bmp_message b n sock)
unfolding buffer_bmp_message
buffer-shorter b n sock = elim (Bool-cases (n == 0)) [
  | inl none ↦ rw none (omega arith)
  | inr some ↦ elim (Bool-cases (ltb buffer_size n)) [
    | inl big ↦ rw (some, big) tt
    | inr fits ↦ elim (Bool-cases (ltb (length sock) n)) [
      | inl short ↦ rw (some, fits, short) tt
      | inr there ↦ rw (some, fits, there) (drop-shorter n sock)
    ]
  ]
]

read_bytes-shorter : (n : ℕ) (d : Bytes) → IfOk (λ p. length p.1 ≤ length d) (read_bytes n d)
unfolding read_bytes
read_bytes-shorter zero d = omega arith
read_bytes-shorter (suc n) [] = tt
read_bytes-shorter (suc n) (b ∷ d) =
    IfOk-then (λ p. length p.1 ≤ length d) _ (read_bytes n d) _ (read_bytes-shorter n d)
      (λ p l. omega (arith, l))

pub read_uint-shorter : (n : ℕ) (d : Bytes) → IfOk (λ p. length p.1 ≤ length d) (read_uint n d)
unfolding read_uint
read_uint-shorter n d =
    IfOk-then (λ p. length p.1 ≤ length d) _ (read_bytes n d) _ (read_bytes-shorter n d) (λ p l. l)

read_u8-shorter : (d : Bytes) → IfOk (λ p. length p.1 ≤ length d) (read_u8 d)
unfolding read_u8
read_u8-shorter [] = tt
read_u8-shorter (b ∷ d) = omega arith

-- The stream behind a message's header is no longer than the one in front of it.
abbrev NotLonger : Bytes → Message → Type 0
NotLonger sock m = length m.sock ≤ length sock

parse_peer_hdr-shorter :
    (h : Host) (now : ℕ × ℕ) (sock : Bytes) (n : ℕ) (e : Peer)
    → IfOk (λ r. length r.2 ≤ length sock) (parse_peer_hdr h now sock n e)
unfolding parse_peer_hdr recv_into
parse_peer_hdr-shorter h now sock n e = IfOk-bind _ (read_u8 (recv_into 42 sock).0) _ (λ p1.
    IfOk-bind _ (read_u8 p1.1) _ (λ p2. IfOk-bind _ (read_bytes 8 p2.1) _ (λ p3.
      IfOk-bind _ (read_bytes 16 p3.1) _ (λ p4. IfOk-bind _ (read_uint 4 p4.1) _ (λ p5.
        IfOk-bind _ (read_bytes 4 p5.1) _ (λ p6.
          IfOk-bind _ (read_uint 4 p6.1) _
            (λ p7. IfOk-bind _ (read_uint 4 p7.1) _ (λ p8. drop-shorter 42 sock))))))))

parse_bmp_v3-shorter :
    (h : Host) (now : ℕ × ℕ) (sock : Bytes) (e : Peer)
    → IfOk (NotLonger sock) (parse_bmp_v3 h now sock e)
unfolding parse_bmp_v3
parse_bmp_v3-shorter h now sock e = elim (Bool-cases (ltb (length sock) 5)) [
  | inl short ↦ rw short tt
  | inr there ↦ rw there (
      IfOk-then (λ p. length p.1 ≤ length sock) _ (read_uint 4 sock) _ (read_uint-shorter 4 sock)
        (λ p l.
          IfOk-then (λ q. length q.1 ≤ length p.1) _ (read_u8 p.1) _ (read_u8-shorter p.1)
            (λ q k. elim (Bool-cases (ltb max_msg_size ((p.0 + 2 ^ 32 - 6) % 2 ^ 32))) [
              | inl big ↦ rw big tt
              | inr fits ↦ elim (Bool-cases (leb q.0 3)) [
                | inl peer ↦
                    rw (fits, peer)
                      (IfOk-then (λ r. length r.2 ≤ length q.1) _
                        (parse_peer_hdr h now q.1 ((p.0 + 2 ^ 32 - 6) % 2 ^ 32) e) _
                        (parse_peer_hdr-shorter h now q.1 ((p.0 + 2 ^ 32 - 6) % 2 ^ 32) e)
                        (λ r j. omega (arith, l, k, j)))
                | inr other ↦ elim (Bool-cases (q.0 == 4 || q.0 == 5)) [
                  | inl known ↦ rw (fits, other, known) (omega (arith, l, k))
                  | inr unknown ↦ rw (fits, other, unknown) tt
                ]
              ]
            ])))
]

parse_bmp_v2-shorter :
    (h : Host) (now : ℕ) (sock : Bytes) (e : Peer)
    → IfOk (NotLonger sock) (parse_bmp_v2 h now sock e)
unfolding parse_bmp_v2
parse_bmp_v2-shorter h now sock e = elim (Bool-cases (ltb (length sock) 43)) [
  | inl short ↦ rw short tt
  | inr there ↦ rw there (
      IfOk-bind (NotLonger sock) (read_u8 (take 43 sock)) _ (λ p.
        IfOk-bind (NotLonger sock) (v2_length p.0 (drop 43 sock)) _ (λ n.
          IfOk-bind (NotLonger sock) (v2_peer h now p.0 p.1 e) _ (λ q. drop-shorter 43 sock))))
]

pub handle_message-shorter :
    (h : Host) (now : ℕ × ℕ) (sock : Bytes) (e : Peer)
    → IfOk (λ m. length m.sock < length sock) (handle_message h now sock e)
unfolding handle_message
handle_message-shorter h now [] e = tt
handle_message-shorter h now (ver ∷ sock) e = elim (Bool-cases (ver == 3)) [
  | inl three ↦ rw three (
      IfOk-imp (NotLonger sock) _ (parse_bmp_v3 h now sock e) (parse_bmp_v3-shorter h now sock e)
        (λ m l. omega (arith, l)))
  | inr not3 ↦ elim (Bool-cases (ver == 1 || ver == 2)) [
    | inl old ↦
        rw (not3, old)
          (IfOk-imp (NotLonger sock) _ (parse_bmp_v2 h now.0 sock e)
            (parse_bmp_v2-shorter h now.0 sock e) (λ m l. omega (arith, l)))
    | inr unknown ↦ rw (not3, unknown) tt
  ]
]
