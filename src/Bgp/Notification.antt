-- ===== src/Bgp/Notification.antt =====
-- NotificationMsg::parseNotify of Server/src/bgp/NotificationMsg.cpp.
pub mod Fits
use sonic_bmp.Common.{
  ℕ, ◌+◌, ◌-◌, Bool, true, false, [], ◌∷◌, ◌++◌, ◌==◌, ltb, leb, if◌then◌else◌, Text, codes, to_dec,
  Bytes, length, take, Result, ok, fault, overwrite, ◌>>=◌, read_u8,
}

-- parsed_notify_msg; error_text is the text in an array of 255 bytes.
pub record ParsedNotifyMsg : Type 0 where
  pub error_code : ℕ
  pub error_subcode : ℕ
  pub error_text : Text

unfoldable pub open_text : ℕ → Text
open_text sub =
    if sub == 3
    then codes "Bad BGP ID"
    else if sub == 2
    then codes "Incorrect peer AS"
    else if sub == 6
    then codes "Unacceptable hold time"
    else if sub == 4
    then codes "Unsupported optional parameter"
    else if sub == 1
    then codes "Unsupported BGP version"
    else codes "Open message error - unknown subcode [" ++ (to_dec sub ++ codes "]")

unfoldable pub update_text : ℕ → Text
update_text sub =
    if sub == 4
    then codes "Update attribute flags error"
    else if sub == 5
    then codes "Update attribute lenght error"
    else if sub == 8
    then codes "Invalid network field"
    else if sub == 6
    then codes "Invalid next hop address/attribute"
    else if sub == 9
    then codes "Malformed AS_PATH"
    else if sub == 1
    then codes "Malformed attribute list"
    else if sub == 3
    then codes "Missing well known attribute"
    else if sub == 7
    then codes "Update optional attribute error"
    else if sub == 2
    then codes "Unrecognized well known attribute"
    else codes "Update message error - unknown subcode [" ++ (to_dec sub ++ codes "]")

unfoldable pub cease_text : ℕ → Text
cease_text sub =
    if sub == 1
    then codes "Maximum number of prefixes reached"
    else if sub == 2
    then codes "Administrative shutdown"
    else if sub == 3
    then codes "Peer de-configured"
    else if sub == 4
    then codes "Administratively reset"
    else if sub == 5
    then codes "Connection rejected"
    else if sub == 6
    then codes "Other configuration change"
    else if sub == 7
    then codes "Connection collision resolution"
    else if sub == 8
    then codes "Maximum number of prefixes reached"
    else codes "Unknown cease code, subcode [" ++ (to_dec sub ++ codes "]")

-- What snprintf and sprintf leave in an array of `size` bytes that was zero.
unfoldable pub snprintf : ℕ → Text → Text
snprintf size text = take (size - 1) text

unfoldable pub sprintf : ℕ → Text → Result Text
sprintf size text = if ltb (length text) size then ok text else fault overwrite

-- The switch on the error code. The default case calls sprintf.
unfoldable pub error_text : ℕ → ℕ → Result Text
unfolding open_text update_text cease_text snprintf sprintf
error_text code sub =
    if code == 1
    then ok (
        snprintf 255
          (if sub == 2 then codes "Bad message header length" else codes "Bad message header type"))
    else if code == 2
    then ok (snprintf 255 (open_text sub))
    else if code == 3
    then ok (snprintf 255 (update_text sub))
    else if code == 4
    then ok (snprintf 255 (codes "Hold timer expired"))
    else if code == 5
    then ok (snprintf 255 (codes "FSM error"))
    else if code == 6
    then ok (snprintf 255 (cease_text sub))
    else sprintf 255 (codes "Unknown notification type [" ++ (to_dec code ++ codes "]"))

-- parseNotify: true for an error, and the message. `size++` stands where read_size should move on.
unfoldable pub parse_notify : Bytes → ℕ → Result (Bool × ParsedNotifyMsg)
unfolding error_text
parse_notify d size =
    if ltb 0 size
    then (do
      (code, d1) ← read_u8 d
      if ltb 0 (size + 1)
          then (do
            (sub, d2) ← read_u8 d1
            text ← error_text code sub
            ok (false, record { error_code = code; error_subcode = sub; error_text = text }))
          else ok (true, record { error_code = code; error_subcode = 0; error_text = [] }))
    else ok (true, record { error_code = 0; error_subcode = 0; error_text = [] })
