-- ===== src/Bmp/PeerHeader.antt =====
-- parseBMP::parsePeerFlags and parsePeerHdr of Server/src/bmp/parseBMP.cpp: the header that BMP version
-- 3 puts in front of a peer's messages.
pub mod Printed
pub mod RoundTrip
use sonic_bmp.Common.{
  ℕ, ◌+◌, ◌-◌, ◌*◌, ◌%◌, ◌^◌, Bool, true, false, not, [], ◌∷◌, ◌++◌, ◌==◌, ltb, if◌then◌else◌, Text,
  codes, to_dec, Bytes, bit_and, length, take, drop, replicate, Result, ok, ◌>>=◌, read_bytes,
  read_u8, read_uint,
}
use sonic_bmp.Bgp.Types.{Host}

-- The fields of obj_bgp_peer that the peer header sets.
pub record Peer : Type 0 where
  pub is_loc_rib : Bool
  pub is_loc_rib_filtered : Bool
  pub is_ipv4 : Bool
  pub is_adj_in : Bool
  pub is_two_octet : Bool
  pub is_pre_policy : Bool
  pub is_l3vpn : Bool
  pub peer_addr : Text
  pub peer_as : ℕ
  pub peer_bgp_id : Text
  pub peer_rd : Text
  pub timestamp_secs : ℕ
  pub timestamp_us : ℕ

-- `peer_flags & mask`
abbrev pub has_flag : ℕ → ℕ → Bool
has_flag flags mask = not (bit_and flags mask == 0)

-- parsePeerFlags
unfoldable pub parse_peer_flags : ℕ → ℕ → Peer → Peer
parse_peer_flags type flags e =
    if type == 3
    then record e {
      is_loc_rib = true;
      is_loc_rib_filtered = if has_flag flags 0x80 then true else e.is_loc_rib_filtered;
    }
    else record e {
      is_loc_rib = false;
      is_ipv4 = not (has_flag flags 0x80);
      is_adj_in =
          if has_flag flags 0x40
          then (if has_flag flags 0x10 then false else e.is_adj_in)
          else true;
      is_two_octet = if has_flag flags 0x20 then true else e.is_two_octet;
      is_pre_policy = not (has_flag flags 0x40);
      is_l3vpn = type == 1;
    }

-- "%d.%d.%d.%d"
unfoldable pub dotted : ℕ → ℕ → ℕ → ℕ → Text
dotted a b c d =
    to_dec a ++ (codes "." ++ (to_dec b ++ (codes "." ++ (to_dec c ++ (codes "." ++ to_dec d)))))

-- `(unsigned long) (a << 24 | b << 16 | c << 8 | d)`: the int is negative from 2 ^ 31 on.
unfoldable pub ulong_of_int : ℕ → ℕ
ulong_of_int v = if ltb v (2 ^ 31) then v else v + 2 ^ 64 - 2 ^ 32

-- peer_rd, by the second byte of the eight.
unfoldable pub rd_text : Bytes → Text
unfolding dotted ulong_of_int
rd_text (r0 ∷ type ∷ b2 ∷ b3 ∷ b4 ∷ b5 ∷ b6 ∷ b7 ∷ []) =
    if type == 1
    then dotted b2 b3 b4 b5 ++ (codes ":" ++ to_dec (b6 * 256 + b7))
    else if type == 2
    then to_dec (ulong_of_int (b2 * 2 ^ 24 + b3 * 2 ^ 16 + b4 * 2 ^ 8 + b5))
      ++ (codes ":" ++ to_dec (b6 * 256 + b7))
    else to_dec (b2 * 256 + b3)
      ++ (codes ":" ++ to_dec (ulong_of_int (b4 * 2 ^ 24 + b5 * 2 ^ 16 + b6 * 2 ^ 8 + b7)))
rd_text _ = []

-- The printed IPv4 address stands in the last four of the sixteen bytes.
unfoldable pub ipv4_text : Bytes → Text
unfolding dotted
ipv4_text (a ∷ b ∷ c ∷ d ∷ []) = dotted a b c d
ipv4_text _ = []

-- Recv with MSG_WAITALL into a zeroed structure of `n` bytes: at the end of the stream the rest stays 0.
unfoldable pub recv_into : ℕ → Bytes → Bytes × Bytes
recv_into n sock = (take n sock ++ replicate (n - length (take n sock)) 0, drop n sock)

-- parsePeerHdr: the entry, bmp_len (a uint32_t) and the stream. `now` is what gettimeofday returns. The
-- AS number is printed in hexadecimal, with four digits for each half, and read back by strtoll.
unfoldable pub parse_peer_hdr : Host → ℕ × ℕ → Bytes → ℕ → Peer → Result (Peer × ℕ × Bytes)
unfolding parse_peer_flags
parse_peer_hdr h now sock bmp_len e0 =
    let hdr = recv_into 42 sock in
    (do
      (type, d1) ← read_u8 hdr.0
      (flags, d2) ← read_u8 d1
      (rd, d3) ← read_bytes 8 d2
      (addr, d4) ← read_bytes 16 d3
      (asn, d5) ← read_uint 4 d4
      (id, d6) ← read_bytes 4 d5
      (secs, d7) ← read_uint 4 d6
      (usecs, d8) ← read_uint 4 d7
      let e = parse_peer_flags type flags e0
      ok (
        record e {
          peer_addr = if e.is_ipv4 then ipv4_text (drop 12 addr) else h.inet_ntop false addr;
          peer_as = asn;
          peer_bgp_id = h.inet_ntop true id;
          peer_rd = rd_text rd;
          timestamp_secs = if secs == 0 then now.0 else secs;
          timestamp_us =
              if secs == 0 then now.1 else if ltb usecs 1000000 then usecs else usecs % 1000000;
        },
        (bmp_len + 2 ^ 32 - 42) % 2 ^ 32,
        hdr.1,
      ))
