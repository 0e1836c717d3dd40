-- ===== src/Bmp/Init.antt =====
-- parseBMP::handleInitMsg of Server/src/bmp/parseBMP.cpp: what an initiation message says of the router.
pub mod Items
pub mod Faults
use sonic_bmp.Common.{
  ℕ, zero, suc, true, not, [], ◌==◌, ltb, if◌then◌else◌, Text, Bytes, length, take, Result, ok,
  ◌>>=◌,
}
use sonic_bmp.Bgp.Types.{Host}
use sonic_bmp.Bmp.CommonHeader.{buffer_size, buffer_bmp_message}
use sonic_bmp.Bmp.Info.{Tlv, tlv_loop, clip, copy_info, copy_string, zero_filled}

-- The fields of obj_router that the parser sets; the arrays with all their bytes.
pub record Router : Type 0 where
  pub hash_type : ℕ
  pub name : Bytes  -- 255
  pub descr : Bytes  -- 255
  pub bgp_id : Text
  pub term_reason_code : ℕ
  pub term_reason_text : Text
  pub term_data : Bytes  -- 4096
  pub initiate_data : Bytes  -- 4096

abbrev pub type_free_form : ℕ
type_free_form = 0

abbrev pub type_sysdescr : ℕ
type_sysdescr = 1

abbrev pub type_sysname : ℕ
type_sysname = 2

abbrev pub type_router_bgp_id : ℕ
type_router_bgp_id = 65531

-- sizeof(r_entry.initiate_data), of infoBuf too; sizeof(r_entry.name) and of descr.
abbrev pub data_size : ℕ
data_size = 4096

abbrev pub name_size : ℕ
name_size = 255

-- The switch. A name asks for a hash by the name, unless a BGP identifier was there.
unfoldable pub init_save : Host → Tlv → Router → Result Router
init_save h t r =
    if t.len == 0
    then ok r
    else if t.type == type_free_form
    then (do
      b ← copy_info data_size data_size t (clip data_size t.len) r.initiate_data
      ok (record r { initiate_data = b }))
    else if t.type == type_sysname
    then (do
      b ← copy_string name_size t (clip name_size t.len) r.name
      ok (record r { name = b; hash_type = if ltb r.hash_type 2 then 1 else r.hash_type }))
    else if t.type == type_sysdescr
    then (do
      b ← copy_string name_size t (clip name_size t.len) r.descr
      ok (record r { descr = b }))
    else if t.type == type_router_bgp_id
    then ok (
        if t.len == 4
        then record r { bgp_id = h.inet_ntop true (take 4 t.info); hash_type = 2 }
        else r)
    else ok r

-- handleInitMsg, on a stream with bmp_len bytes of the message left. The rest of bmp_data is zero.
unfoldable pub handle_init_msg : Host → Bytes → ℕ → Router → Result (Router × Bytes)
handle_init_msg h sock bmp_len r = do
  (body, left, rest) ← buffer_bmp_message [] bmp_len sock
  r' ←
      tlv_loop data_size (init_save h) (suc (length body)) (zero_filled buffer_size body) zero
        (length body) (record r { hash_type = 0 })
  ok (r', rest)
