-- ===== src/Bgp/Open/RoundTrip.antt =====
-- An open message that is written as RFC 4271 (section 4.2), RFC 5492, RFC 6793 and RFC 7911 say is
-- read back.
use sonic_bmp.Common.{
  ℕ, zero, suc, ◌+◌, ◌-◌, ◌*◌, ◌/◌, ◌≤◌, ◌<◌, ◌≡◌, refl, ap, ◌∙◌, Bool, true, List, [], All, ◌∷◌,
  ◌++◌, ◌==◌, ltb, leb, Bool-cases, inl, inr, Bytes, length, drop, drop-two, drop-append-length,
  length-append, append_assoc, arith, Result, ok, read_u8, network, length-network,
  read_uint-network, read_bytes-length, lt→ltb, le→ltb, le→leb,
}
use sonic_bmp.Bgp.Types.{Host}
use sonic_bmp.Bgp.Open.Format.{
  Cap, four_octet, mpbgp, other, Entry, IsCap, IsEntry, cap_code, cap_value, encode_caps,
  encode_entries, encode_paths, apply_cap, apply_caps, apply_paths, Param, body, IsParam,
  encode_params, apply_params, Header, IsHeader, encode_open,
}
use sonic_bmp.Bgp.Open.{
  OpenState, add_path_entry, add_path_loop, capability, capabilities_loop, open_parameter,
  parameters_loop, parse_capabilities, parse_open_msg,
}

length-encode_entries : (es : List Entry) → length (encode_entries es) ≡ 4 * length es
length-encode_entries [] = refl
length-encode_entries (e ∷ es) = omega (
  arith,
  length-append (network 2 e.afi) (e.safi ∷ e.send_receive ∷ encode_entries es),
  length-network 2 e.afi,
  length-encode_entries es,
)

add_path_loop-encode :
    (h : Host) (sent : Bool) (es : List Entry) (d : Bytes) (s : OpenState)
    → All IsEntry es
    → add_path_loop h sent (length es) (encode_entries es ++ d) s ≡ ok (apply_paths h sent es s, d)
unfolding add_path_loop read_u8
add_path_loop-encode h sent [] d s v = refl
add_path_loop-encode h sent (e ∷ es) d s (v, vs) =
    rw
      (
        append_assoc (network 2 e.afi) (e.safi ∷ e.send_receive ∷ encode_entries es) d,
        read_uint-network 2 e.afi (e.safi ∷ e.send_receive ∷ (encode_entries es ++ d)) v,
      )
      (add_path_loop-encode h sent es d (add_path_entry h sent e.afi e.safi e.send_receive s) vs)

capability-cap :
    (h : Host) (sent : Bool) (c : Cap) (d : Bytes) (s : OpenState)
    → IsCap c
    → (let p = cap_code c ∷ length (cap_value c) ∷ (cap_value c ++ d) in
        capability h sent (cap_code c) (length (cap_value c)) p s ≡ ok (true, apply_cap c s, p))
unfolding capability read_u8
capability-cap h sent (four_octet asn) d s v =
    rw (length-network 4 asn, read_uint-network 4 asn d v) refl
capability-cap h sent (mpbgp afi safi) d s v =
    rw
      (
        append_assoc (network 2 afi) (0 ∷ safi ∷ []) d,
        length-append (network 2 afi) (0 ∷ safi ∷ []),
        length-network 2 afi,
        read_uint-network 2 afi (0 ∷ safi ∷ d) v,
      )
      refl
capability-cap h sent (other code value) d s (v, w, x) = rw (v, w, x) refl

-- Behind an ADD-PATH capability the loop counts its bytes once, but moves the pointer over them twice:
-- the next capability is looked for as many bytes behind its place.
pub capabilities_loop-add_path :
    (h : Host) (sent : Bool) (x : Entry) (es : List Entry) (f c param_len : ℕ) (d : Bytes)
    (s : OpenState)
    → All IsEntry (x ∷ es)
    → c < param_len
    → (let n = length (encode_entries (x ∷ es)) in
        capabilities_loop h sent (suc f) param_len c (encode_paths (x ∷ es) ++ d) s
        ≡ capabilities_loop h sent f param_len
            (c + (2 + n))
            (drop (2 + n) d)
            (apply_paths h sent (x ∷ es) s))
unfolding capabilities_loop capability read_u8
capabilities_loop-add_path h sent x es f c param_len d s v more =
    let n = length (encode_entries (x ∷ es)) in
    let long : leb 4 n ≡ true = le→leb 4 n (omega (arith, length-encode_entries (x ∷ es))) in
    let rounds : (n + 3) / 4 ≡ length (x ∷ es) = omega (arith, length-encode_entries (x ∷ es)) in
    rw
      (
        lt→ltb c param_len more,
        capabilities_loop,
        long,
        rounds,
        add_path_loop-encode h sent (x ∷ es) d s v,
      )
      refl

-- The ADD-PATH capability at a parameter's end, behind the c bytes that have been read.
capabilities_loop-paths :
    (h : Host) (sent : Bool) (es : List Entry) (f c param_len : ℕ) (d : Bytes) (s : OpenState)
    → All IsEntry es
    → param_len ≡ c + length (encode_paths es)
    → length (encode_paths es) < f
    → capabilities_loop h sent f param_len c (encode_paths es ++ d) s
      ≡ ok (true, apply_paths h sent es s)
unfolding capabilities_loop
capabilities_loop-paths h sent es zero c param_len d s v e fuel = absurd (omega arith)
capabilities_loop-paths h sent [] (suc f) c param_len d s v e fuel =
    rw (le→ltb c param_len (omega arith), capabilities_loop) refl
capabilities_loop-paths h sent (x ∷ es) (suc zero) c param_len d s v e fuel = absurd (omega arith)
capabilities_loop-paths h sent (x ∷ es) (suc (suc f)) c param_len d s v e fuel =
    let n = length (encode_entries (x ∷ es)) in
    rw
      (
        capabilities_loop-add_path h sent x es (suc f) c param_len d s v (omega arith),
        le→ltb (c + (2 + n)) param_len (omega arith),
        capabilities_loop,
      )
      refl

capabilities_loop-encode :
    (h : Host) (sent : Bool) (cs : List Cap) (es : List Entry) (f c param_len : ℕ) (d : Bytes)
    (s : OpenState)
    → All IsCap cs
    → All IsEntry es
    → param_len ≡ c + length (encode_caps cs) + length (encode_paths es)
    → length (encode_caps cs) + length (encode_paths es) < f
    → capabilities_loop h sent f param_len c (encode_caps cs ++ (encode_paths es ++ d)) s
      ≡ ok (true, apply_paths h sent es (apply_caps cs s))
unfolding capabilities_loop read_u8
capabilities_loop-encode h sent [] es f c param_len d s v w e fuel =
    capabilities_loop-paths h sent es f c param_len d s w (omega arith) (omega arith)
capabilities_loop-encode h sent (x ∷ cs) es zero c param_len d s v w e fuel = absurd (omega arith)
capabilities_loop-encode h sent (x ∷ cs) es (suc f) c param_len d s (v, vs) w e fuel =
    let n = length (cap_value x) in
    let rest = encode_caps cs ++ (encode_paths es ++ d) in
    let sum : length (cap_value x ++ encode_caps cs) ≡ n + length (encode_caps cs) =
      length-append (cap_value x) (encode_caps cs) in
    let more : ltb c param_len ≡ true = lt→ltb c param_len (omega (arith, sum)) in
    let skip : drop (2 + n) (cap_code x ∷ n ∷ (cap_value x ++ rest)) ≡ rest =
      drop-two n (cap_code x) n (cap_value x ++ rest) ∙ drop-append-length (cap_value x) rest in
    rw
      (
        more,
        capabilities_loop,
        append_assoc (cap_value x) (encode_caps cs) (encode_paths es ++ d),
        capability-cap h sent x rest s v,
        skip,
      )
      (capabilities_loop-encode h sent cs es f (c + (2 + n)) param_len d (apply_cap x s) vs w
        (omega (arith, sum)) (omega (arith, sum)))

open_parameter-encode :
    (h : Host) (sent : Bool) (p : Param) (size read : ℕ) (d : Bytes) (s : OpenState)
    → IsParam p
    → read + 2 + length (body p) ≤ size
    → open_parameter h sent size read 2 (length (body p)) (body p ++ d) s
      ≡ ok (true, apply_paths h sent p.paths (apply_caps p.caps s))
unfolding open_parameter
open_parameter-encode h sent p size read d s v room =
    let n = length (body p) in
    let long : leb 2 n ≡ true = le→leb 2 n v.has_some in
    let fits : leb (read + 2 + n) size ≡ true = le→leb (read + 2 + n) size room in
    let sum : n ≡ length (encode_caps p.caps) + length (encode_paths p.paths) =
      length-append (encode_caps p.caps) (encode_paths p.paths) in
    rw (long, fits, append_assoc (encode_caps p.caps) (encode_paths p.paths) d)
      (capabilities_loop-encode h sent p.caps p.paths (suc n) 0 n d s v.are_caps v.are_entries
        (omega (arith, sum)) (omega (arith, sum)))

parameters_loop-encode :
    (h : Host) (sent : Bool) (ps : List Param) (f size read : ℕ) (d : Bytes) (s : OpenState)
    → All IsParam ps
    → size ≡ read + length (encode_params ps)
    → length (encode_params ps) < f
    → parameters_loop h sent f size read (encode_params ps ++ d) s
      ≡ ok (size, apply_params h sent ps s)
unfolding parameters_loop read_u8
parameters_loop-encode h sent ps zero size read d s v e fuel = absurd (omega arith)
parameters_loop-encode h sent [] (suc f) size read d s v e fuel =
    let all : read ≡ size = omega arith in
    rw (le→ltb read size (omega arith), parameters_loop) (ap (λ (n : ℕ). ok (n, s)) all)
parameters_loop-encode h sent (p ∷ ps) (suc f) size read d s (v, vs) e fuel =
    let n = length (body p) in
    let rest = encode_params ps ++ d in
    let sum : length (body p ++ encode_params ps) ≡ n + length (encode_params ps) =
      length-append (body p) (encode_params ps) in
    let more : ltb read size ≡ true = lt→ltb read size (omega (arith, sum)) in
    rw
      (
        more,
        parameters_loop,
        append_assoc (body p) (encode_params ps) d,
        open_parameter-encode h sent p size read rest s v (omega (arith, sum)),
        drop-append-length (body p) rest,
      )
      (parameters_loop-encode h sent ps f size (read + (2 + n)) d
        (apply_paths h sent p.paths (apply_caps p.caps s)) vs (omega (arith, sum))
        (omega (arith, sum)))

apply_params-none :
    (h : Host) (sent : Bool) (ps : List Param) (s : OpenState)
    → (length (encode_params ps) == 0) ≡ true
    → ◌≡◌ {A = Result (ℕ × OpenState)}
        (ok (10, s))
        (ok (10 + length (encode_params ps), apply_params h sent ps s))
apply_params-none h sent [] s e = refl
apply_params-none h sent (p ∷ ps) s e = absurd (ground (arith))

parse_capabilities-encode :
    (h : Host) (sent : Bool) (ps : List Param) (d : Bytes) (s : OpenState)
    → All IsParam ps
    → parse_capabilities h sent (encode_params ps ++ d) (length (encode_params ps)) s
      ≡ ok (length (encode_params ps), apply_params h sent ps s)
unfolding parse_capabilities
parse_capabilities-encode h sent ps d s v =
    parameters_loop-encode h sent ps (suc (length (encode_params ps))) (length (encode_params ps)) 0
      d s v (omega arith) (omega arith)

-- An open message that is written with its header's fields and any list of parameters, each with at
-- least one capability and an ADD-PATH capability only in the last place, is read back by
-- parseOpenMsg: the whole message is consumed, the hold time and the BGP identifier are the header's,
-- the AS number is that of the last four-octet AS capability, or else the header's, the capabilities
-- are listed in their order, and the ADD-PATH entries are in the peer's container. What follows the
-- message changes nothing.
pub parse_open_msg-encode_open :
    (h : Host) (sent : Bool) (x : Header) (ps : List Param) (d : Bytes) (s : OpenState)
    → IsHeader x
    → All IsParam ps
    → parse_open_msg h sent (encode_open x ps d) (10 + length (encode_params ps)) s
      ≡ ok (
        10 + length (encode_params ps),
        apply_params h sent ps (record s {
          asn = x.asn;
          hold_time = x.hold_time;
          bgp_id = h.inet_ntop true x.bgp_id;
          capabilities = [];
        }),
      )
unfolding parse_open_msg read_u8
parse_open_msg-encode_open h sent x ps d s v w =
    let n = length (encode_params ps) in
    let params = encode_params ps ++ d in
    let tail = x.bgp_id ++ (n ∷ params) in
    rw
      (
        le→ltb (10 + n) 10 (omega arith),
        parse_open_msg,
        read_uint-network 2 x.asn (network 2 x.hold_time ++ tail) v.asn_small,
        read_uint-network 2 x.hold_time tail v.hold_small,
        read_bytes-length 4 x.bgp_id (n ∷ params) v.id_length,
      )
      (elim (Bool-cases (n == 0)) [
        | inl none ↦ rw none (apply_params-none h sent ps _ none)
        | inr more ↦
            rw
              (
                more,
                le→ltb (10 + n - 10) n (omega arith),
                parse_capabilities-encode h sent ps d _ w,
                more,
              )
              refl
      ])
