-- ===== src/Bmp/Reader.antt =====
-- BMPReader::ReadIncomingMsg of Server/src/bmp/BMPReader.cpp: one message of the stream, from the header
-- to what the parser of its kind makes of it. What is passed to the message bus is the outcome. An
-- exception ends the session, so what was written before one is left out; hashRouter and the baseline
-- time, which only the bus and the configuration read, are left out too.
pub mod Monitoring
pub mod Isolation
mod Shorter
mod Bodies
mod Shrinks
pub mod Loop
use sonic_bmp.Common.{
  ℕ, zero, suc, ◌+◌, ◌-◌, ◌^◌, Bool, true, false, ◌||◌, ◌&&◌, not, List, [], ◌∷◌, ◌++◌, ◌==◌, ltb,
  leb, if◌then◌else◌, Option, none, some, Text, codes, to_dec, Bytes, length, take, drop, replicate,
  Result, ok, throw, ◌>>=◌, read_uint,
}
use sonic_bmp.Bgp.AddPath.{text_eq}
use sonic_bmp.Bgp.Dispatch.{
  Parser, Updated, handle_update, DownEvent, handle_down_event, UpEvent, handle_up_event,
}
use sonic_bmp.Bgp.Types.{Host, PeerInfo, ParsedData, Callees}
use sonic_bmp.Bmp.CommonHeader.{Message, buffer_size, buffer_bmp_message}
use sonic_bmp.Bmp.Info.{zero_filled}
use sonic_bmp.Bmp.Init.{Router, handle_init_msg}
use sonic_bmp.Bmp.PeerHeader.{Peer}
use sonic_bmp.Bmp.PeerUp.{
  table_size, UpHeader, parse_peer_up_event_hdr, parse_peer_down_event_hdr, parse_peer_up_info,
}
use sonic_bmp.Bmp.Stats.{Stats, stats_size, handle_stats_report}
use sonic_bmp.Bmp.Term.{handle_term_msg}
use sonic_bmp.Bmp.Version2.{handle_message}

-- peer_info_map, with one entry for each key.
abbrev pub PeerInfoMap : Type 0
PeerInfoMap = List (Text × PeerInfo)

-- The value of a key that was missing
abbrev pub new_peer_info : PeerInfo
new_peer_info = record {
  sent_four_octet_asn = false;
  recv_four_octet_asn = false;
  using_2_octet_asn = false;
  add_path_capability = [];
  peer_group = [];
  end_of_rib = false;
}

-- `peer_info_map[key]`
unfoldable pub peer_info_of : Text → PeerInfoMap → PeerInfo
peer_info_of key [] = new_peer_info
peer_info_of key ((k, i) ∷ m) = if text_eq k key then i else peer_info_of key m

-- An assignment through `peer_info_map[key]`
unfoldable pub set_peer_info : Text → PeerInfo → PeerInfoMap → PeerInfoMap
set_peer_info key info [] = (key, info) ∷ []
set_peer_info key info ((k, i) ∷ m) =
    if text_eq k key then (k, info) ∷ m else (k, i) ∷ set_peer_info key info m

-- peer_info_key
abbrev pub peer_info_key : Peer → Text
peer_info_key e = e.peer_addr ++ e.peer_rd

-- The two-octet flag of the peer's entry is taken over, and never taken back here.
unfoldable pub note_two_octet : Peer → PeerInfoMap → PeerInfoMap
note_two_octet e m =
    let key = peer_info_key e in
    let info = peer_info_of key m in
    set_peer_info key
      (if not info.using_2_octet_asn && e.is_two_octet
        then record info { using_2_octet_asn = true }
        else info)
      m

-- The parser of a new parseBGP
abbrev pub new_parser : Parser
new_parser = record { len = 0; type = 0; remaining = 0 }

-- What a message comes to.
pub data Incoming (X : Type 0) : Type 0 where
  monitored : Peer → Updated X → Incoming X
  reported : Peer → Stats → Incoming X
  went_down : Peer → (reason : ℕ) → DownEvent → Incoming X
  came_up : Peer → UpHeader → UpEvent → (table : Bytes) → Incoming X
  up_not_read : Peer → Incoming X
  initiated : Router → Incoming X
  terminated : Router → Incoming X
  other : Peer → Incoming X

-- down_event before the message is read: its text says who closed the session.
unfoldable pub down_text : Text → Peer → ℕ → Text
down_text ip e reason =
    if reason == 1
    then codes "Local close by (" ++ (ip ++ (codes ") for peer (" ++ (e.peer_addr ++ codes ") : ")))
    else codes "Remote peer ("
      ++ (e.peer_addr ++ (codes ") closed local (" ++ (ip ++ codes ") session: ")))

unfoldable pub fsm_text : Text → Peer → ℕ → Text
fsm_text ip e fsm =
    codes "Local ("
    ++ (ip
        ++ (codes ") closed peer ("
            ++ (e.peer_addr
                ++ (codes ") session: fsm_event="
                    ++ (to_dec fsm ++ codes ", No BGP notify message.")))))

-- The text is printed into 255 bytes, of which the last is the terminator.
abbrev pub new_down : Text → DownEvent
new_down text = record { bgp_err_code = 0; bgp_err_subcode = 0; error_text = take 254 text }

module _ {X : Type 0} (h : Host) (c : Callees X) (empty : X) (ip : Text) where
  -- TYPE_PEER_DOWN, by the reason
  unfoldable pub peer_down : Peer → ℕ → Bytes → ℕ → Result DownEvent
  peer_down e reason d size =
      if reason == 1 || reason == 3
      then (do
        (error, event, p) ← handle_down_event d size (new_down (down_text ip e reason)) new_parser
        ok event)
      else if reason == 2
      then (do (fsm, d') ← read_uint 2 d; ok (new_down (fsm_text ip e fsm)))
      else ok (new_down [])

  -- TYPE_PEER_DOWN, with the header: the reason, the event and the stream
  unfoldable pub read_down : Message → Result (ℕ × DownEvent × Bytes)
  read_down m =
      let (read, reason, left, sock) = parse_peer_down_event_hdr m.sock m.len 0 in
      if read
      then (do
        (body, left', sock') ← buffer_bmp_message [] left sock
        event ← peer_down m.peer reason (zero_filled buffer_size body) (length body)
        ok (reason, event, sock'))
      else throw (codes "BMPReader: Unable to read from client socket")

  -- The information behind the open messages, if there is any: the name of the table
  unfoldable pub read_table : Bytes → ℕ → Result Bytes
  read_table body read =
      if ltb read (length body)
      then parse_peer_up_info (drop read (zero_filled buffer_size body)) (length body - read)
          (replicate table_size 0)
      else ok (replicate table_size 0)

  -- TYPE_PEER_UP. The second bufferBMPMessage has nothing left to read.
  unfoldable pub read_up : Message → PeerInfoMap → Result (Incoming X × PeerInfoMap × Bytes)
  read_up m peers = do
    (good, header, body, sock) ←
        parse_peer_up_event_hdr h m.peer.is_ipv4 m.sock m.len
          (record { local_ip = []; local_port = 0; remote_port = 0 })
    if good
        then (do
          event ←
              handle_up_event h (zero_filled buffer_size body) (length body) (0, 0) (0, 0)
                (peer_info_of (peer_info_key m.peer) peers) new_parser
          table ← read_table body event.total
          ok (
            came_up m.peer header event table,
            set_peer_info (peer_info_key m.peer) event.info peers,
            sock,
          ))
        else ok (up_not_read m.peer, peers, sock)

  -- TYPE_ROUTE_MON
  unfoldable pub read_monitoring : Message → PeerInfoMap → Result (Incoming X × PeerInfoMap × Bytes)
  read_monitoring m peers = do
    (body, left, sock) ← buffer_bmp_message [] m.len m.sock
    u ←
        handle_update h c empty (zero_filled buffer_size body) (length body)
          (peer_info_of (peer_info_key m.peer) peers) new_parser
    ok (monitored m.peer u, set_peer_info (peer_info_key m.peer) u.info peers, sock)

  -- Statistics, and what a router says of itself
  unfoldable pub read_quiet :
      Message → PeerInfoMap → Router → Result (Incoming X × PeerInfoMap × Bytes)
  read_quiet m peers router =
      if m.type == 1
      then (do
        (stats, left, sock) ← handle_stats_report m.sock m.len (replicate stats_size 0)
        ok (reported m.peer stats, peers, sock))
      else if m.type == 4
      then (do (r, sock) ← handle_init_msg h m.sock m.len router; ok (initiated r, peers, sock))
      else if m.type == 5
      then (do (r, sock) ← handle_term_msg m.sock m.len router; ok (terminated r, peers, sock))
      else ok (other m.peer, peers, m.sock)

  -- The switch on the type of the message, behind its headers
  unfoldable pub read_body :
      Message → PeerInfoMap → Router → Result (Incoming X × PeerInfoMap × Bytes)
  read_body m peers router =
      if m.type == 2
      then (do (reason, event, sock) ← read_down m; ok (went_down m.peer reason event, peers, sock))
      else if m.type == 3
      then read_up m peers
      else if m.type == 0
      then read_monitoring m peers
      else read_quiet m peers router

  -- ReadIncomingMsg. bmp_type is a char, so a type from 128 on is below 4 too.
  unfoldable pub read_incoming_msg :
      ℕ × ℕ → Bytes → PeerInfoMap → Peer → Router → Result (Incoming X × PeerInfoMap × Bytes)
  read_incoming_msg now sock peers e router = do
    m ← handle_message h now sock e
    read_body m (if ltb m.type 4 || leb 128 m.type then note_two_octet m.peer peers else peers)
        router
