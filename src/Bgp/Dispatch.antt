-- ===== src/Bgp/Dispatch.antt =====
-- parseBGP of Server/src/bgp/parseBGP.cpp: the BGP header, and the handlers of update messages and of
-- the messages in peer up and peer down events. The outcome of an
-- update says what UpdateDB (UpdateDb.antt) is called with. An exception ends the BMP
-- session, so what was written before one is left out.
pub mod Names
pub mod Search
pub mod RoundTrip
pub mod Up
pub mod Down
use sonic_bmp.Common.{
  ℕ, ◌+◌, ◌-◌, ◌%◌, ◌^◌, Bool, true, false, ◌||◌, List, [], ◌∷◌, ◌++◌, Option, none, some, ◌==◌,
  ltb, if◌then◌else◌, Text, codes, Bytes, take, drop, Result, ok, throw, ◌>>=◌, read_bytes, read_u8,
  read_uint,
}
use sonic_bmp.Bgp.Notification.{parse_notify}
use sonic_bmp.Bgp.Open.{OpenState, parse_open_msg}
use sonic_bmp.Bgp.Types.{Host, PeerInfo, ParsedData, Session, Callees}
use sonic_bmp.Bgp.Update.{parse_update_msg}
unfoldable pub use Names.{contains, any_contains, join_from}

-- common_hdr without its marker, and data_bytes_remaining, an unsigned int.
pub record Parser : Type 0 where
  pub len : ℕ
  pub type : ℕ
  pub remaining : ℕ

-- BGP_MSG_TYPES
abbrev pub msg_open : ℕ
msg_open = 1

abbrev pub msg_update : ℕ
msg_update = 2

abbrev pub msg_notification : ℕ
msg_notification = 3

-- BGP_MSG_HDR_LEN
abbrev pub msg_hdr_len : ℕ
msg_hdr_len = 19

-- A difference of unsigned ints.
abbrev pub sub32 : ℕ → ℕ → ℕ
sub32 a b = (a + 2 ^ 32 - b) % 2 ^ 32

-- parseBgpHeader: the message type, 0 for too few bytes.
unfoldable pub parse_bgp_header : Bytes → ℕ → Parser → Result (ℕ × Parser)
parse_bgp_header d size p =
    if ltb size msg_hdr_len then ok (0, record p { len = 0; type = 0 }) else (do
      (marker, d1) ← read_bytes 16 d
      (len, d2) ← read_uint 2 d1
      (type, d3) ← read_u8 d2
      ok (type, record { len = len; type = type; remaining = sub32 len msg_hdr_len }))

-- What handleUpdate returns and writes, and what it passes to UpdateDB, if it does.
pub record Updated (X : Type 0) : Type 0 where
  pub error : Bool
  pub info : PeerInfo
  pub parser : Parser
  pub stored : Option (ParsedData X)

module _ {X : Type 0} where
  -- A new parsed_update_data.
  abbrev pub no_data : X → ParsedData X
  no_data empty = record {
    attrs = [];
    withdrawn = [];
    advertised = [];
    vpn = [];
    vpn_withdrawn = [];
    other = empty;
  }

  -- handleUpdate
  unfoldable pub handle_update :
      Host → Callees X → X → Bytes → ℕ → PeerInfo → Parser → Result (Updated X)
  unfolding parse_bgp_header
  handle_update h c empty d size info p0 = do
    (type, p) ← parse_bgp_header d size p0
    if type == msg_update
        then (do
          (read, s) ←
              parse_update_msg h c (drop msg_hdr_len d) p.remaining
                (record { info = info; parsed = no_data empty })
          if read == size - msg_hdr_len
              then ok (record {
                error = false;
                info = s.info;
                parser = record p { remaining = sub32 p.remaining read };
                stored = some s.parsed;
              })
              else ok (record { error = true; info = s.info; parser = p; stored = none }))
        else ok (record { error = false; info = info; parser = p; stored = none })

-- obj_peer_down_event, without the reason that the BMP header gives.
pub record DownEvent : Type 0 where
  pub bgp_err_code : ℕ
  pub bgp_err_subcode : ℕ
  pub error_text : Text

-- handleDownEvent: true for an error.
unfoldable pub handle_down_event :
    Bytes → ℕ → DownEvent → Parser → Result (Bool × DownEvent × Parser)
unfolding parse_bgp_header
handle_down_event d size e p0 = do
  (type, p) ← parse_bgp_header d size p0
  if type == msg_notification
      then (do
        (error, m) ← parse_notify (drop msg_hdr_len d) p.remaining
        if error
            then ok (true, e, p)
            else ok (
              false,
              record {
                bgp_err_code = m.error_code;
                bgp_err_subcode = m.error_subcode;
                error_text = take 255 m.error_text;
              },
              record p { remaining = sub32 p.remaining 2 },
            ))
      else throw (codes "ERROR: Invalid BGP MSG for BMP down event, expected NOTIFICATION message.")

-- The fields of obj_peer_up_event that one open message fills.
pub record OpenSide : Type 0 where
  pub asn : ℕ
  pub hold_time : ℕ
  pub bgp_id : Text
  pub caps : Text

-- strncpy into the arrays of 16 and 4096 bytes.
unfoldable pub open_side : OpenState → OpenSide
unfolding join_from
open_side s = record {
  asn = s.asn;
  hold_time = s.hold_time;
  bgp_id = take 16 s.bgp_id;
  caps = take 4096 (join_from true s.capabilities);
}

-- One half of handleUpEvent: what the open message gave, common_hdr.len and data behind it.
unfoldable pub read_open :
    Host → Bool → Text → Bytes → ℕ → OpenState → Parser → Result (OpenState × ℕ × Bytes × Parser)
unfolding parse_bgp_header
read_open h sent wrong d size s p0 = do
  (type, p) ← parse_bgp_header d size p0
  if type == msg_open
      then (do
        (n, s') ← parse_open_msg h sent (drop msg_hdr_len d) p.remaining s
        if n == 0
            then throw (codes "Failed to read open message")
            else ok (
              s',
              p.len,
              drop n (drop msg_hdr_len d),
              record p { remaining = sub32 p.remaining n },
            ))
      else throw wrong

-- What handleUpEvent returns and writes.
pub record UpEvent : Type 0 where
  pub total : ℕ
  pub info : PeerInfo
  pub sent : OpenSide
  pub received : OpenSide

-- handleUpEvent. `local` and `remote` are the ASN and hold time that the event holds before.
unfoldable pub handle_up_event :
    Host → Bytes → ℕ → ℕ × ℕ → ℕ × ℕ → PeerInfo → Parser → Result UpEvent
unfolding open_side read_open any_contains
handle_up_event h d size local remote info p0 = do
  (s1, len1, d1, p1) ←
      read_open h true
        (codes "ERROR: Invalid BGP MSG for BMP Sent OPEN message, expected OPEN message.") d size
        (record {
          asn = local.0;
          hold_time = local.1;
          bgp_id = [];
          capabilities = [];
          add_path_capability = info.add_path_capability;
        })
        p0
  (s2, len2, d2, p2) ←
      read_open h false
        (codes "ERROR: Invalid BGP MSG for BMP Received OPEN message, expected OPEN message.") d1
        size
        (record {
          asn = remote.0;
          hold_time = remote.1;
          bgp_id = [];
          capabilities = [];
          add_path_capability = s1.add_path_capability;
        })
        p1
  ok (record {
    total = len1 + len2;
    info = record info {
      sent_four_octet_asn = any_contains (codes "4 Octet ASN") s1.capabilities;
      recv_four_octet_asn = any_contains (codes "4 Octet ASN") s2.capabilities;
      using_2_octet_asn = false;
      add_path_capability = s2.add_path_capability;
    };
    sent = open_side s1;
    received = open_side s2;
  })
