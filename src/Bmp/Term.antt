-- ===== src/Bmp/Term.antt =====
-- parseBMP::handleTermMsg of Server/src/bmp/parseBMP.cpp: why a router ends its session.
pub mod Items
use sonic_bmp.Common.{
  ℕ, zero, suc, [], ◌++◌, ◌==◌, if◌then◌else◌, Text, codes, to_dec, Bytes, length, Result, ok,
  fault, overread, ◌>>=◌, read_uint,
}
use sonic_bmp.Bmp.CommonHeader.{buffer_size, buffer_bmp_message}
use sonic_bmp.Bmp.Info.{Tlv, tlv_loop, copy_info, zero_filled}
use sonic_bmp.Bmp.Init.{Router, data_size}

abbrev pub term_free_form : ℕ
term_free_form = 0

abbrev pub term_reason : ℕ
term_reason = 1

-- The text for a reason code
unfoldable pub reason_text : ℕ → Text
reason_text code =
    if code == 0
    then codes "Remote session administratively closed"
    else if code == 2
    then codes "Remote out of resources"
    else if code == 3
    then codes "Remote considers connection redundant"
    else if code == 1
    then codes "Remote closed with unspecified reason"
    else codes "Unknown "
      ++ (to_dec code ++ codes " termination reason, which is not part of draft.")

-- The switch. Nothing tests the length of a free-form string, nor that a reason has a value.
unfoldable pub term_save : Tlv → Router → Result Router
term_save t r =
    if t.type == term_free_form
    then (do b ← copy_info data_size data_size t t.len r.term_data; ok (record r { term_data = b }))
    else if t.type == term_reason
    then (if t.len == 0 then fault overread else (do
      (code, d) ← read_uint 2 t.info
      ok (record r { term_reason_code = code; term_reason_text = reason_text code })))
    else ok r

-- handleTermMsg, on a stream with bmp_len bytes of the message left. The rest of bmp_data is zero.
unfoldable pub handle_term_msg : Bytes → ℕ → Router → Result (Router × Bytes)
handle_term_msg sock bmp_len r = do
  (body, left, rest) ← buffer_bmp_message [] bmp_len sock
  r' ←
      tlv_loop data_size term_save (suc (length body)) (zero_filled buffer_size body) zero
        (length body) r
  ok (r', rest)
