-- ===== src/Bgp/Dispatch/RoundTrip.antt =====
-- Framed BGP messages are handled as their bodies say.
use sonic_bmp.Common.{
  ℕ, ◌+◌, ◌-◌, ◌^◌, ◌≤◌, ◌<◌, ◌≡◌, refl, sym, ap, ◌∙◌, Bool, true, false, [], ◌∷◌, ◌++◌, some, ◌==◌,
  Bytes, length, drop, drop-append-length, append_assoc, arith, ok, read_u8, network,
  length-network, length-append, read_uint-network, read_bytes-length, le→ltb,
}
use sonic_bmp.Bgp.AddPath.{is_add_path_enabled}
use sonic_bmp.Bgp.Dispatch.{Parser, sub32, parse_bgp_header, no_data, handle_update}
use sonic_bmp.Bgp.Types.{Host, PeerInfo, Callees, afi_ipv4, safi_unicast}
use sonic_bmp.Bgp.Update.RoundTrip.{
  Update, IsUpdate, encode_update, update_size, update_result, parse_update_msg-encode_update,
}

-- A message of `n` bytes behind its header.
abbrev pub frame : Bytes → ℕ → ℕ → Bytes → Bytes
frame marker n type body = marker ++ (network 2 (19 + n) ++ (type ∷ body))

pub header_drop :
    (marker : Bytes) (n type : ℕ) (body : Bytes)
    → length marker ≡ 16
    → drop 19 (frame marker n type body) ≡ body
header_drop marker n type body e =
    let front = marker ++ (network 2 (19 + n) ++ (type ∷ [])) in
    let size : length front ≡ 19 = omega (
      arith,
      length-append marker (network 2 (19 + n) ++ (type ∷ [])),
      length-append (network 2 (19 + n)) (type ∷ []),
      length-network 2 (19 + n),
      e,
    ) in
    let whole : frame marker n type body ≡ front ++ body = sym (
      append_assoc marker (network 2 (19 + n) ++ (type ∷ [])) body
      ∙ ap (λ (t : Bytes). marker ++ t) (append_assoc (network 2 (19 + n)) (type ∷ []) body)) in
    ap (λ (k : ℕ). drop k (frame marker n type body)) (sym size)
    ∙ ap (λ (t : Bytes). drop (length front) t) whole
    ∙ drop-append-length front body

pub parse_bgp_header-frame :
    (marker : Bytes) (n type size : ℕ) (body : Bytes) (p : Parser)
    → length marker ≡ 16
    → 19 + n < 256 ^ 2
    → 19 ≤ size
    → parse_bgp_header (frame marker n type body) size p
      ≡ ok (type, record { len = 19 + n; type = type; remaining = n })
unfolding parse_bgp_header read_u8
parse_bgp_header-frame marker n type size body p e small room =
    let left : sub32 (19 + n) 19 ≡ n = omega arith in
    rw
      (
        le→ltb size 19 room,
        read_bytes-length 16 marker (network 2 (19 + n) ++ (type ∷ body)) e,
        read_uint-network 2 (19 + n) (type ∷ body) small,
        left,
      )
      refl

module _ {X : Type 0} where
  -- A framed update message of known parts, as parseUpdateMsg reads it back, is accepted by
  -- handleUpdate when the size that is passed is that of the message: what it means, with nothing of
  -- any message before, goes to UpdateDB, the peer's state is updated, and no byte remains.
  pub handle_update-encode_update :
      (h : Host) (c : Callees X) (empty : X) (enabled : Bool) (u : Update) (marker d : Bytes)
      (info : PeerInfo) (p : Parser)
      → is_add_path_enabled afi_ipv4 safi_unicast info.add_path_capability ≡ enabled
      → IsUpdate enabled info.using_2_octet_asn u
      → length marker ≡ 16
      → 19 + update_size enabled info.using_2_octet_asn u < 256 ^ 2
      → (let n = update_size enabled info.using_2_octet_asn u in
          let s = update_result h u (record { info = info; parsed = no_data empty }) in
          handle_update h c empty
            (frame marker n 2 (encode_update enabled info.using_2_octet_asn u d))
            (19 + n)
            info
            p
          ≡ ok (record {
            error = false;
            info = s.info;
            parser = record { len = 19 + n; type = 2; remaining = 0 };
            stored = some s.parsed;
          }))
  unfolding handle_update
  handle_update-encode_update h c empty enabled u marker d info p e v sixteen small =
      let n = update_size enabled info.using_2_octet_asn u in
      let body = encode_update enabled info.using_2_octet_asn u d in
      let same : (n == 19 + n - 19) ≡ true = ground arith in
      let none_left : sub32 n n ≡ 0 = omega arith in
      rw
        (
          parse_bgp_header-frame marker n 2 (19 + n) body p sixteen small (omega arith),
          handle_update,
          header_drop marker n 2 body sixteen,
          parse_update_msg-encode_update h c enabled u d
              (record { info = info; parsed = no_data empty }) e v,
          same,
          none_left,
        )
        refl
