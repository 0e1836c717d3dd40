-- ===== src/Bmp/PeerUp.antt =====
-- parseBMP::parsePeerUpEventHdr, parsePeerDownEventHdr and parsePeerUpInfo of
-- Server/src/bmp/parseBMP.cpp: what stands around the BGP messages of a peer's up and down events.
pub mod Reads
pub mod Info
use sonic_bmp.Common.{
  ℕ, zero, suc, ◌+◌, ◌-◌, ◌*◌, ◌%◌, ◌^◌, Bool, true, false, [], ◌∷◌, ◌++◌, ◌==◌, ltb, if◌then◌else◌,
  Text, Bytes, length, take, drop, Result, ok, ◌>>=◌, read_uint,
}
use sonic_bmp.Bgp.Types.{Host}
use sonic_bmp.Bmp.CommonHeader.{buffer_bmp_message}
use sonic_bmp.Bmp.PeerHeader.{ipv4_text}
use sonic_bmp.Bmp.Info.{Tlv, tlv_loop, clip, copy_info}

-- sizeof(infoBuf) and sizeof(p_entry->table_name)
abbrev pub table_size : ℕ
table_size = 255

abbrev pub vrf_table : ℕ
vrf_table = 3

-- The switch of parsePeerUpInfo
unfoldable pub info_save : Tlv → Bytes → Result Bytes
info_save t table =
    if t.type == vrf_table
    then copy_info table_size table_size t (clip table_size t.len) table
    else ok table

-- parsePeerUpInfo, on the bytes from `data` to the end of bmp_data: what it makes of the table name.
unfoldable pub parse_peer_up_info : Bytes → ℕ → Bytes → Result Bytes
parse_peer_up_info d len table = tlv_loop table_size info_save (suc len) d zero len table

-- The fields of obj_peer_up_event that the header sets.
pub record UpHeader : Type 0 where
  pub local_ip : Text
  pub local_port : ℕ
  pub remote_port : ℕ

-- A Recv of `n` bytes under `isParseGood and`: whether all came, what came, and the stream. Once the
-- parse has failed nothing more is read.
unfoldable pub recv_if : Bool → ℕ → Bytes → Bool × Bytes × Bytes
recv_if good n sock =
    if good
    then (if ltb (length sock) n
        then (false, take n sock, [])
        else (true, take n sock, drop n sock))
    else (false, [], sock)

-- SWAP_BYTES of the two bytes that were received
unfoldable pub port_of : Bytes → ℕ
port_of (a ∷ b ∷ []) = a * 256 + b
port_of _ = 0

-- parsePeerUpEventHdr: whether the header was read, the event, bmp_data and the stream. bmp_len is a
-- uint32_t, from which the bytes of the header that came are taken away.
unfoldable pub parse_peer_up_event_hdr :
    Host → Bool → Bytes → ℕ → UpHeader → Result (Bool × UpHeader × Bytes × Bytes)
unfolding recv_if port_of
parse_peer_up_event_hdr h is_ipv4 sock bmp_len e =
    let (good1, addr, sock1) = recv_if true 16 sock in
    let (good2, local, sock2) = recv_if good1 2 sock1 in
    let (good3, remote, sock3) = recv_if good2 2 sock2 in
    let bytes_read =
      (if good1 then 16 else 0) + ((if good2 then 2 else 0) + (if good3 then 2 else 0)) in
    let e' : UpHeader = record {
      local_ip =
          if good1
          then (if is_ipv4 then ipv4_text (drop 12 addr) else h.inet_ntop false addr)
          else e.local_ip;
      local_port = if good2 then port_of local else e.local_port;
      remote_port = if good3 then port_of remote else e.remote_port;
    } in
    (do
      (body, left, sock4) ← buffer_bmp_message [] ((bmp_len + 2 ^ 32 - bytes_read) % 2 ^ 32) sock3
      (body', left', sock5) ←
          if good3 then ok (body, left, sock4) else buffer_bmp_message body left sock4
      ok (good3, e', body', sock5))

-- parsePeerDownEventHdr: whether the reason was read, the reason, bmp_len and the stream.
unfoldable pub parse_peer_down_event_hdr : Bytes → ℕ → ℕ → Bool × ℕ × ℕ × Bytes
parse_peer_down_event_hdr [] bmp_len reason = (false, reason, bmp_len, [])
parse_peer_down_event_hdr (b ∷ sock) bmp_len reason =
    (true, b, (bmp_len + 2 ^ 32 - 1) % 2 ^ 32, sock)
