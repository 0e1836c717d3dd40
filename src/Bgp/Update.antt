-- ===== src/Bgp/Update.antt =====
-- UpdateMsg::parseUpdateMsg of Server/src/bgp/UpdateMsg.cpp. size_t differences wrap in 64 bits.
pub mod RoundTrip
use sonic_bmp.Common.{
  ℕ, ◌+◌, ◌-◌, ◌%◌, ◌^◌, Bool, true, false, not, ◌&&◌, List, [], ◌==◌, ltb, if◌then◌else◌, Bytes,
  drop, Result, ok, ◌>>=◌, read_uint,
}
use sonic_bmp.Bgp.Attributes.{parse_attributes}
use sonic_bmp.Bgp.Nlri.{parse_nlri_data_v4}
use sonic_bmp.Bgp.Types.{Host, ParsedData, Session, Callees}

-- `a - b` on size_t.
abbrev pub sub64 : ℕ → ℕ → ℕ
sub64 a b = (a + 2 ^ 64 - b) % 2 ^ 64

module _ {X : Type 0} where
  -- `parsed_data.advertised.clear(); parsed_data.attrs.clear(); parsed_data.withdrawn.clear();`
  unfoldable pub clear : Session X → Session X
  clear s = record s { parsed = record s.parsed { attrs = []; withdrawn = []; advertised = [] } }

  unfoldable pub withdrawn_part : Host → Bytes → ℕ → Session X → Result (Session X)
  withdrawn_part h d len s =
      if ltb 0 len
      then (do
        gone ← parse_nlri_data_v4 h s.info d len s.parsed.withdrawn
        ok (record s { parsed = record s.parsed { withdrawn = gone } }))
      else ok s

  unfoldable pub attributes_part : Host → Callees X → Bytes → ℕ → Session X → Result (Session X)
  attributes_part h c d len s = if ltb 0 len then parse_attributes h c d len s else ok s

  -- The length is passed on as a uint16_t.
  unfoldable pub nlri_part : Host → Bytes → ℕ → Session X → Result (Session X)
  nlri_part h d len s =
      if ltb 0 len
      then (do
        adv ← parse_nlri_data_v4 h s.info d (len % 2 ^ 16) s.parsed.advertised
        ok (record s { parsed = record s.parsed { advertised = adv } }))
      else ok s

  -- parseUpdateMsg: the number of bytes read, 0 for an error, and what it wrote.
  unfoldable pub parse_update_msg :
      Host → Callees X → Bytes → ℕ → Session X → Result (ℕ × Session X)
  unfolding clear withdrawn_part attributes_part nlri_part
  parse_update_msg h c d size s0 =
      let s = clear s0 in
      if ltb size 2 then ok (0, s) else (do
        (withdrawn_len, withdrawn_ptr) ← read_uint 2 d
        if ltb (sub64 size 2) withdrawn_len then ok (0, s) else (do
          (attr_len, attr_ptr) ← read_uint 2 (drop withdrawn_len withdrawn_ptr)
          let read = 2 + withdrawn_len + 2
          if ltb (sub64 size read) attr_len then ok (0, s) else (do
            let read' = read + attr_len
            let nlri_len = sub64 size read'
            let nlri_ptr = drop attr_len attr_ptr
            if withdrawn_len == 0 && (nlri_len == 0 && attr_len == 0)
                then ok (read', record s { info = record s.info { end_of_rib = true } })
                else (do
                  s1 ← withdrawn_part h withdrawn_ptr withdrawn_len s
                  s2 ← attributes_part h c attr_ptr attr_len s1
                  s3 ← nlri_part h nlri_ptr nlri_len s2
                  ok ((if ltb 0 nlri_len then size else read'), s3)))))
