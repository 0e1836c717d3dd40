-- ===== src/Bgp/Open.antt =====
-- OpenMsg of Server/src/bgp/OpenMsg.cpp: parseOpenMsg and parseCapabilities. The loops' counters i and
-- c are ints that stay small; i and read_size are always equal.
mod Names
pub mod Ends
pub mod Format
pub mod RoundTrip
use sonic_bmp.Common.{
  ℕ, zero, suc, ◌+◌, ◌-◌, ◌/◌, Bool, true, false, not, ◌&&◌, List, [], ◌∷◌, ◌++◌, ◌==◌, ltb, leb,
  if◌then◌else◌, Text, codes, to_dec, Bytes, drop, Result, ok, stuck, ◌>>=◌, read_bytes, read_u8,
  read_uint,
}
use sonic_bmp.Bgp.AddPath.{Container, add_add_path}
use sonic_bmp.Bgp.Types.{Host}
unfoldable pub use Names.{afi_string, safi_string}

-- The output parameters, and the peer's ADD-PATH container that the parser writes to.
pub record OpenState : Type 0 where
  pub asn : ℕ
  pub hold_time : ℕ
  pub bgp_id : Text
  pub capabilities : List Text
  pub add_path_capability : Container

-- `capabilities.push_back(text)`
unfoldable pub push : Text → OpenState → OpenState
push text s = record s { capabilities = s.capabilities ++ (text ∷ []) }

-- A capability whose value is not read: its text.
unfoldable pub named_capability : ℕ → Text
named_capability code =
    if code == 2
    then codes "Route Refresh (2)"
    else if code == 70
    then codes "Route Refresh Enhanced (70)"
    else if code == 128
    then codes "Route Refresh Old (128)"
    else if code == 64
    then codes "Graceful Restart (64)"
    else if code == 3
    then codes "Outbound Filter (3)"
    else if code == 68
    then codes "Multi-session (68)"
    else to_dec code

unfoldable pub direction : ℕ → Text
direction v =
    if v == 2
    then codes "Send"
    else if v == 1
    then codes "Receive"
    else if v == 3
    then codes "Send/Receive"
    else codes "unknown"

unfoldable pub add_path_text : ℕ → ℕ → ℕ → Text
unfolding direction
add_path_text afi safi send_receive =
    codes "ADD Path (69) : afi="
    ++ (to_dec afi
        ++ (codes " safi="
            ++ (to_dec safi
                ++ (codes " send/receive="
                    ++ (to_dec send_receive
                        ++ (codes " : "
                            ++ (safi_string safi
                                ++ (codes " "
                                    ++ (afi_string afi
                                        ++ (codes " " ++ direction send_receive))))))))))

unfoldable pub mpbgp_text : ℕ → ℕ → Text
mpbgp_text afi safi =
    codes "MPBGP (1) : afi="
    ++ (to_dec afi
        ++ (codes " safi="
            ++ (to_dec safi
                ++ (codes " : " ++ (safi_string safi ++ (codes " " ++ afi_string afi))))))

-- One entry of the ADD-PATH capability.
unfoldable pub add_path_entry : Host → Bool → ℕ → ℕ → ℕ → OpenState → OpenState
unfolding add_path_text push
add_path_entry h sent afi safi send_receive s =
    push (add_path_text afi safi send_receive) (record s {
      add_path_capability =
          add_add_path h.junk_codes afi safi send_receive sent s.add_path_capability;
    })

-- The loop `for (l = 0; l < cap->len; l += 4)`, on the rounds left; cap_ptr moves on with it.
unfoldable pub add_path_loop : Host → Bool → ℕ → Bytes → OpenState → Result (OpenState × Bytes)
unfolding add_path_entry
add_path_loop h sent zero cap_ptr s = ok (s, cap_ptr)
add_path_loop h sent (suc n) cap_ptr s = do
  (afi, d1) ← read_uint 2 cap_ptr
  (safi, d2) ← read_u8 d1
  (send_receive, d3) ← read_u8 d2
  add_path_loop h sent n d3 (add_path_entry h sent afi safi send_receive s)

-- The switch on cap->code: whether parsing goes on (`return 0` of the MPBGP case is false), what was
-- written, and cap_ptr, which stays in front of the capability but for ADD-PATH.
unfoldable pub capability :
    Host → Bool → ℕ → ℕ → Bytes → OpenState → Result (Bool × OpenState × Bytes)
unfolding push mpbgp_text named_capability
capability h sent code len cap_ptr s =
    if code == 65
    then (if len == 4
        then (do
          (asn, rest) ← read_uint 4 (drop 2 cap_ptr)
          ok (true, push (codes "4 Octet ASN (65)") (record s { asn = asn }), cap_ptr))
        else ok (true, s, cap_ptr))
    else if code == 69
    then (if leb 4 len
        then (do
          (s', rest) ← add_path_loop h sent ((len + 3) / 4) (drop 2 cap_ptr) s
          ok (true, s', rest))
        else ok (true, s, drop 2 cap_ptr))
    else if code == 1
    then (if len == 4
        then (do
          (afi, d1) ← read_uint 2 (drop 2 cap_ptr)
          (reserved, d2) ← read_u8 d1
          (safi, d3) ← read_u8 d2
          ok (true, push (mpbgp_text afi safi) s, cap_ptr))
        else ok (false, s, cap_ptr))
    else ok (true, push (named_capability code) s, cap_ptr)

-- The loop over the capabilities of one parameter.
unfoldable pub capabilities_loop :
    Host → Bool → ℕ → ℕ → ℕ → Bytes → OpenState → Result (Bool × OpenState)
unfolding capability
capabilities_loop h sent zero param_len c cap_ptr s = stuck
capabilities_loop h sent (suc f) param_len c cap_ptr s =
    let round : Result (Bool × OpenState) = (do
      (code, d1) ← read_u8 cap_ptr
      (len, d2) ← read_u8 d1
      (good, s', cap_ptr') ← capability h sent code len cap_ptr s
      let rest = capabilities_loop h sent f param_len (c + (2 + len)) (drop (2 + len) cap_ptr') s'
      if good then rest else ok (false, s')) in
    if ltb c param_len then round else ok (true, s)

-- What is done with one parameter.
unfoldable pub open_parameter :
    Host → Bool → ℕ → ℕ → ℕ → ℕ → Bytes → OpenState → Result (Bool × OpenState)
open_parameter h sent size read type len value s =
    if not (type == 2)
    then ok (true, s)
    else if leb 2 len && leb (read + 2 + len) size
    then capabilities_loop h sent (suc len) len 0 value s
    else ok (true, s)

-- parseCapabilities: 0 for an error, or read_size.
unfoldable pub parameters_loop :
    Host → Bool → ℕ → ℕ → ℕ → Bytes → OpenState → Result (ℕ × OpenState)
unfolding open_parameter
parameters_loop h sent zero size read d s = stuck
parameters_loop h sent (suc f) size read d s =
    let round : Result (ℕ × OpenState) = (do
      (type, d1) ← read_u8 d
      (len, d2) ← read_u8 d1
      (good, s') ← open_parameter h sent size read type len d2 s
      let rest = parameters_loop h sent f size (read + (2 + len)) (drop len d2) s'
      if good then rest else ok (0, s')) in
    if ltb read size then round else ok (read, s)

unfoldable pub parse_capabilities : Host → Bool → Bytes → ℕ → OpenState → Result (ℕ × OpenState)
parse_capabilities h sent d size s = parameters_loop h sent (suc size) size 0 d s

-- parseOpenMsg: 0 for an error, or the bytes read. The header has 10 bytes.
unfoldable pub parse_open_msg : Host → Bool → Bytes → ℕ → OpenState → Result (ℕ × OpenState)
parse_open_msg h sent d size s0 =
    let s = record s0 { capabilities = [] } in
    if ltb size 10 then ok (0, s) else (do
      (ver, d1) ← read_u8 d
      (asn, d2) ← read_uint 2 d1
      (hold, d3) ← read_uint 2 d2
      (id, d4) ← read_bytes 4 d3
      (param_len, params) ← read_u8 d4
      let s' = record s { asn = asn; hold_time = hold; bgp_id = h.inet_ntop true id }
      if param_len == 0
          then ok (10, s')
          else if ltb (size - 10) param_len
          then (do (n, s'') ← parse_capabilities h sent params (size - 10) s'; ok (size, s''))
          else (do
            (n, s'') ← parse_capabilities h sent params param_len s'
            ok ((if n == 0 then 0 else 10 + param_len), s'')))
