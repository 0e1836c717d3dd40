-- ===== src/Bmp/Version2.antt =====
-- parseBMP::parseBMPv2 and handleMessage of Server/src/bmp/parseBMP.cpp: the header of BMP versions 1
-- and 2, and the choice by the version.
pub mod Reads
use sonic_bmp.Common.{
  ℕ, ◌+◌, ◌-◌, ◌*◌, ◌^◌, ◌||◌, false, not, [], ◌∷◌, ◌++◌, ◌==◌, ltb, if◌then◌else◌, Text, codes,
  to_dec, Bytes, length, take, drop, Result, ok, throw, ◌>>=◌, read_bytes, read_u8, read_uint,
}
use Prim.Native.Nat.{bit_or}
use sonic_bmp.Bgp.Types.{Host}
use sonic_bmp.Bmp.PeerHeader.{Peer, has_flag, dotted, ulong_of_int, ipv4_text}
use sonic_bmp.Bmp.CommonHeader.{Message, parse_bmp_v3}

-- peer_rd, by the first two of the eight bytes. The last case reads from the second byte on, and both of
-- its last two bytes stand unshifted.
unfoldable pub rd_text_v2 : Bytes → Text
unfolding dotted ulong_of_int
rd_text_v2 (b0 ∷ b1 ∷ b2 ∷ b3 ∷ b4 ∷ b5 ∷ b6 ∷ b7 ∷ []) =
    let type = b0 * 256 + b1 in
    if type == 1
    then dotted b2 b3 b4 b5 ++ (codes ":" ++ to_dec (b6 * 256 + b7))
    else if type == 2
    then to_dec (ulong_of_int (b2 * 2 ^ 24 + b3 * 2 ^ 16 + b4 * 2 ^ 8 + b5))
      ++ (codes ":" ++ to_dec (b6 * 256 + b7))
    else to_dec (b1 * 256 + b2)
      ++ (codes ":"
          ++ to_dec (ulong_of_int (b3 * 2 ^ 24 + b4 * 2 ^ 16 + b5 * 2 ^ 8 + bit_or b6 b7)))
rd_text_v2 _ = []

-- What a peek of one byte leaves in buf[0], which was zero.
abbrev pub peeked : Bytes → ℕ
peeked [] = 0
peeked (b ∷ _) = b

-- Two bytes at buf + 16, in network order, as a uint16_t.
unfoldable pub bgp_length : Bytes → Result ℕ
bgp_length sock = do (n, d) ← read_uint 2 (drop 16 sock); ok n

-- The four bytes of bmp_len, of which the first two were copied from buf + 16, in reverse order.
unfoldable pub bgp_length_of_four : Bytes → Result ℕ
bgp_length_of_four sock = do (n, d) ← read_uint 2 (drop 16 sock); ok (n * 2 ^ 16)

-- The switch on the type: bmp_len. The bytes are peeked at and stay on the stream. For a peer down message
-- the test of the peek is `!= 1`.
unfoldable pub v2_length : ℕ → Bytes → Result ℕ
v2_length type sock =
    if type == 0
    then (if ltb (length sock) 18
        then throw (codes "Failed to read BGP message for BMP length")
        else bgp_length sock)
    else if type == 1
    then ok 0
    else if type == 2
    then (if ltb (length sock) 1
        then (if peeked sock == 1 || peeked sock == 3
            then (if ltb (length sock) 18
                then throw (codes "Failed to read BGP message for BMP length")
                else bgp_length_of_four sock)
            else ok 0)
        else throw (codes "Failed to read BMP peer down reason"))
    else if type == 3
    then throw (codes "ERROR: Will need to add support for peer up if it's really used.")
    else ok 0

-- The peer's entry from the header; whether it is a peer of a VPN is taken from the message's type.
unfoldable pub v2_peer : Host → ℕ → ℕ → Bytes → Peer → Result Peer
unfolding dotted
v2_peer h now type d0 e = do
  (peer_type, d1) ← read_u8 d0
  (flags, d2) ← read_u8 d1
  (rd, d3) ← read_bytes 8 d2
  (addr, d4) ← read_bytes 16 d3
  (asn, d5) ← read_uint 4 d4
  (i0, d6) ← read_u8 d5
  (i1, d7) ← read_u8 d6
  (i2, d8) ← read_u8 d7
  (i3, d9) ← read_u8 d8
  (secs, d10) ← read_uint 4 d9
  ok (record e {
    is_ipv4 = not (has_flag flags 0x80);
    peer_addr = if has_flag flags 0x80 then h.inet_ntop false addr else ipv4_text (drop 12 addr);
    peer_as = asn;
    peer_bgp_id = dotted i0 i1 i2 i3;
    peer_rd = rd_text_v2 rd;
    timestamp_secs = if secs == 0 then now else secs;
    is_l3vpn = type == 1;
  })

-- parseBMPv2
unfoldable pub parse_bmp_v2 : Host → ℕ → Bytes → Peer → Result Message
parse_bmp_v2 h now sock e =
    if ltb (length sock) 43
    then throw (codes "ERROR: Cannot read v1/v2 BMP common header.")
    else (do
      (type, d) ← read_u8 (take 43 sock)
      len ← v2_length type (drop 43 sock)
      peer ← v2_peer h now type d e
      ok (record { type = type; len = len; peer = peer; sock = drop 43 sock }))

-- handleMessage, on a stream that recv reads without an error. `now` is what the clock says.
unfoldable pub handle_message : Host → ℕ × ℕ → Bytes → Peer → Result Message
handle_message h now [] e = throw (codes "(2) Connection closed")
handle_message h now (ver ∷ sock) e =
    if ver == 3
    then parse_bmp_v3 h now sock e
    else if ver == 1 || ver == 2
    then parse_bmp_v2 h now.0 sock e
    else throw (codes "ERROR: Unsupported BMP message version")
