-- ===== src/Bmp/CommonHeader.antt =====
-- parseBMP::parseBMPv3 and bufferBMPMessage of Server/src/bmp/parseBMP.cpp: the common header of BMP
-- version 3, behind the version byte, and the message behind the headers.
pub mod Reads
use sonic_bmp.Common.{
  ℕ, ◌+◌, ◌-◌, ◌%◌, ◌^◌, Bool, true, false, ◌||◌, [], ◌∷◌, ◌==◌, ltb, leb, if◌then◌else◌, codes,
  Bytes, length, take, drop, Result, ok, throw, ◌>>=◌, read_u8, read_uint,
}
use sonic_bmp.Bgp.Types.{Host}
use sonic_bmp.Bmp.PeerHeader.{Peer, parse_peer_hdr}

-- BGP_MAX_MSG_SIZE
abbrev pub max_msg_size : ℕ
max_msg_size = 65535

-- BMP_PACKET_BUF_SIZE + 1, the size of bmp_data.
abbrev pub buffer_size : ℕ
buffer_size = 68001

-- What parseBMPv3 leaves: bmp_type, bmp_len and p_entry, and the stream.
pub record Message : Type 0 where
  pub type : ℕ
  pub len : ℕ
  pub peer : Peer
  pub sock : Bytes

-- parseBMPv3. The length is a uint32_t, from which the common header's six bytes are taken away.
unfoldable pub parse_bmp_v3 : Host → ℕ × ℕ → Bytes → Peer → Result Message
parse_bmp_v3 h now sock e =
    if ltb (length sock) 5 then throw (codes "ERROR: Cannot read v3 BMP common header.") else (do
      (total, d1) ← read_uint 4 sock
      (type, rest) ← read_u8 d1
      let len = (total + 2 ^ 32 - 6) % 2 ^ 32
      if ltb max_msg_size len
          then throw (codes "ERROR: BMP length is larger than max possible BGP size")
          else if leb type 3
          then (do
            (peer, left, sock') ← parse_peer_hdr h now rest len e
            ok (record { type = type; len = left; peer = peer; sock = sock' }))
          else if type == 4 || type == 5
          then ok (record { type = type; len = len; peer = e; sock = rest })
          else throw (codes "ERROR: BMP message type is not supported"))

-- bufferBMPMessage: bmp_data, bmp_len and the stream. With nothing left bmp_data stays what it was.
unfoldable pub buffer_bmp_message : Bytes → ℕ → Bytes → Result (Bytes × ℕ × Bytes)
buffer_bmp_message buffer bmp_len sock =
    if bmp_len == 0
    then ok (buffer, bmp_len, sock)
    else if ltb buffer_size bmp_len
    then throw (codes "BMP message length is too large for buffer, invalid BMP sender")
    else if ltb (length sock) bmp_len
    then throw (codes "Error while reading BMP data into buffer")
    else ok (take bmp_len sock, 0, drop bmp_len sock)
