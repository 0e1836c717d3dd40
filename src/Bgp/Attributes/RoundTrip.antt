-- ===== src/Bgp/Attributes/RoundTrip.antt =====
-- Path attributes that are written one after another are read back by parseAttributes.
use sonic_bmp.Common.{
  ℕ, zero, suc, ◌+◌, ◌/◌, ◌^◌, ◌≤◌, ◌<◌, ◌≡◌, refl, ap, ◌∙◌, Bool, true, false, List, [], All, ◌∷◌,
  ◌++◌, ltb, leb, Bool-cases, inl, inr, Bytes, length, drop-append-length, append-empty, subst,
  length-append, append_assoc, arith, ok, read_u8, network, length-network, read_uint-network,
  lt→ltb, le→ltb, le→leb, ltb→le, ltb→lt,
}
use sonic_bmp.Bgp.AsPath.{parse_attr_as_path}
use sonic_bmp.Bgp.AsPath.Fallback.{parse_as_path-encode_segments}
use sonic_bmp.Bgp.Attributes.Format.{
  Value, IsValue, type_of, encode_value, encode_items, apply_value, Attr, IsAttr, encode_length,
  encode_attrs, apply_attrs, origin, as_path, next_hop, med, local_pref, atomic_aggregate,
  aggregator, communities, originator_id, cluster_list, large_community, encode_community,
  encode_large,
}
use sonic_bmp.Bgp.Attributes.Items.{
  read_ipv4-address, cluster_loop-items, community_loop-communities, community_loop-large,
  length-communities, length-large, length-clusters,
}
use sonic_bmp.Bgp.Attributes.{
  is_extended, read_attr_len, parse_attr_aggregator, parse_simple_attr, parse_attr_data,
  attributes_loop, put, parse_attributes,
}
use sonic_bmp.Bgp.Types.{Host, Session, Callees}

module _ {X : Type 0} where
  parse_attr_data-path :
      (h : Host) (c : Callees X) (gs : List _) (d : Bytes) (s : Session X)
      → IsValue s.info.using_2_octet_asn (as_path gs)
      → parse_attr_data h c 2
          (length (encode_value s.info.using_2_octet_asn (as_path gs)))
          (encode_value s.info.using_2_octet_asn (as_path gs) ++ d)
          s
        ≡ ok (apply_value h (as_path gs) s)
  unfolding parse_attr_data parse_attr_as_path
  parse_attr_data-path h c gs d s (v, long) =
      rw (parse_as_path-encode_segments 1 s.info gs d s.parsed.attrs v long) refl

  -- An attribute's value is read back, whatever follows it.
  parse_attr_data-encode_value :
      (h : Host) (c : Callees X) (x : Value) (d : Bytes) (s : Session X)
      → IsValue s.info.using_2_octet_asn x
      → (0 < length (encode_value s.info.using_2_octet_asn x))
      → parse_attr_data h c
          (type_of x)
          (length (encode_value s.info.using_2_octet_asn x))
          (encode_value s.info.using_2_octet_asn x ++ d)
          s
        ≡ ok (apply_value h x s)
  unfolding parse_attr_data parse_simple_attr parse_attr_aggregator read_u8
  parse_attr_data-encode_value h c (origin n) d s v some_bytes = refl
  parse_attr_data-encode_value h c (as_path gs) d s v some_bytes = parse_attr_data-path h c gs d s v
  parse_attr_data-encode_value h c (next_hop ip) d s v some_bytes =
      rw (read_ipv4-address h ip d v) refl
  parse_attr_data-encode_value h c (med n) d s v some_bytes = rw (read_uint-network 4 n d v) refl
  parse_attr_data-encode_value h c (local_pref n) d s v some_bytes =
      rw (read_uint-network 4 n d v) refl
  parse_attr_data-encode_value h c atomic_aggregate d s v some_bytes = absurd (omega arith)
  parse_attr_data-encode_value h c (aggregator asn ip) d s (v, w) some_bytes =
      let eight : length (network 4 asn ++ ip) ≡ 8 =
        omega (arith, length-append (network 4 asn) ip, length-network 4 asn, w) in
      rw
        (
          eight,
          append_assoc (network 4 asn) ip d,
          read_uint-network 4 asn (ip ++ d) v,
          read_ipv4-address h ip d w,
        )
        refl
  parse_attr_data-encode_value h c (communities cs) d s (n, v) some_bytes =
      let rounds : (length (encode_items encode_community cs) + 3) / 4 ≡ length cs =
        omega (arith, length-communities cs) in
      rw (rounds, community_loop-communities cs d v) refl
  parse_attr_data-encode_value h c (originator_id ip) d s v some_bytes =
      rw (read_ipv4-address h ip d v) refl
  parse_attr_data-encode_value h c (cluster_list ips) d s (n, v) some_bytes =
      let rounds : (length (encode_items (λ a. a) ips) + 3) / 4 ≡ length ips =
        omega (arith, length-clusters ips v) in
      rw (rounds, cluster_loop-items h ips d [] v) refl
  parse_attr_data-encode_value h c (large_community cs) d s (n, v) some_bytes =
      let size = length (encode_items encode_large cs) in
      let rounds : (size + 11) / 12 ≡ length cs = omega (arith, length-large cs) in
      let long : leb 12 size ≡ true = le→leb 12 size (omega (arith, length-large cs)) in
      rw (long, rounds, community_loop-large cs d v) refl

  pub apply_value-info : (h : Host) (x : Value) (s : Session X) → (apply_value h x s).info ≡ s.info
  unfolding put
  apply_value-info h (origin n) s = refl
  apply_value-info h (as_path gs) s = refl
  apply_value-info h (next_hop ip) s = refl
  apply_value-info h (med n) s = refl
  apply_value-info h (local_pref n) s = refl
  apply_value-info h atomic_aggregate s = refl
  apply_value-info h (aggregator asn ip) s = refl
  apply_value-info h (communities cs) s = refl
  apply_value-info h (originator_id ip) s = refl
  apply_value-info h (cluster_list ips) s = refl
  apply_value-info h (large_community cs) s = refl

  pub apply_value-advertised :
      (h : Host) (x : Value) (s : Session X)
      → (apply_value h x s).parsed.advertised ≡ s.parsed.advertised
  unfolding put
  apply_value-advertised h (origin n) s = refl
  apply_value-advertised h (as_path gs) s = refl
  apply_value-advertised h (next_hop ip) s = refl
  apply_value-advertised h (med n) s = refl
  apply_value-advertised h (local_pref n) s = refl
  apply_value-advertised h atomic_aggregate s = refl
  apply_value-advertised h (aggregator asn ip) s = refl
  apply_value-advertised h (communities cs) s = refl
  apply_value-advertised h (originator_id ip) s = refl
  apply_value-advertised h (cluster_list ips) s = refl
  apply_value-advertised h (large_community cs) s = refl

  -- An attribute with no value changes nothing.
  apply_value-empty :
      (h : Host) (two : Bool) (x : Value) (s : Session X)
      → IsValue two x
      → length (encode_value two x) ≡ 0
      → apply_value h x s ≡ s
  apply_value-empty h two (origin n) s v e = absurd (omega arith)
  apply_value-empty h true (as_path gs) s (v, w) e = absurd (omega (arith, e))
  apply_value-empty h false (as_path gs) s (v, w) e = absurd (omega (arith, e))
  apply_value-empty h two (next_hop ip) s v e = absurd (omega (arith, e, v))
  apply_value-empty h two (med n) s v e = absurd (omega (arith, e, length-network 4 n))
  apply_value-empty h two (local_pref n) s v e = absurd (omega (arith, e, length-network 4 n))
  apply_value-empty h two atomic_aggregate s v e = refl
  apply_value-empty h two (aggregator asn ip) s v e =
      absurd (omega (arith, e, length-append (network 4 asn) ip, length-network 4 asn))
  apply_value-empty h two (communities cs) s (n, v) e =
      absurd (omega (arith, e, length-communities cs))
  apply_value-empty h two (originator_id ip) s v e = absurd (omega (arith, e, v))
  apply_value-empty h two (cluster_list ips) s (n, v) e =
      absurd (omega (arith, e, length-clusters ips v))
  apply_value-empty h two (large_community cs) s (n, v) e =
      absurd (omega (arith, e, length-large cs))

read_attr_len-encode :
    (flags n read : ℕ) (d : Bytes)
    → n < 256 ^ 2
    → read_attr_len flags read (encode_length flags n ++ d)
      ≡ ok (n, read + length (encode_length flags n), d)
unfolding read_attr_len read_u8
read_attr_len-encode flags n read d v = elim (Bool-cases (is_extended flags)) [
  | inl long ↦ rw (long, read_uint-network 2 n d v, length-network 2 n) refl
  | inr short ↦ rw short refl
]

length-encode_length : (flags n : ℕ) → 1 ≤ length (encode_length flags n)
length-encode_length flags n = elim (Bool-cases (is_extended flags)) [
  | inl long ↦ rw long (omega (arith, length-network 2 n))
  | inr short ↦ rw short (omega arith)
]

module _ {X : Type 0} where
  value_step :
      (h : Host) (c : Callees X) (two : Bool) (x : Value) (d : Bytes) (s : Session X)
      → s.info.using_2_octet_asn ≡ two
      → IsValue two x
      → 0 < length (encode_value two x)
      → parse_attr_data h c (type_of x) (length (encode_value two x)) (encode_value two x ++ d) s
        ≡ ok (apply_value h x s)
  value_step h c two x d s i =
      subst
        (λ t.
          IsValue t x
          → 0 < length (encode_value t x)
          → parse_attr_data h c (type_of x) (length (encode_value t x)) (encode_value t x ++ d) s
            ≡ ok (apply_value h x s))
        i (parse_attr_data-encode_value h c x d s)

  attributes_loop-encode_attrs :
      (h : Host) (c : Callees X) (two : Bool) (xs : List Attr) (f len read : ℕ) (d : Bytes)
      (s : Session X)
      → All (IsAttr two) xs
      → s.info.using_2_octet_asn ≡ two
      → len ≡ read + length (encode_attrs two xs)
      → length (encode_attrs two xs) < f
      → attributes_loop h c f len read (encode_attrs two xs ++ d) s ≡ ok (apply_attrs h xs s)
  unfolding attributes_loop read_u8
  attributes_loop-encode_attrs h c two xs zero len read d s v i e fuel = absurd (omega arith)
  attributes_loop-encode_attrs h c two [] (suc f) len read d s v i e fuel =
      rw (le→ltb read len (omega arith), attributes_loop) refl
  attributes_loop-encode_attrs h c two (x ∷ xs) (suc f) len read d s ((v, small), vs) i e fuel =
      let value = encode_value two x.value in
      let head = encode_length x.flags (length value) in
      let rest = encode_attrs two xs in
      let sum : length (head ++ (value ++ rest)) ≡ length head + length value + length rest =
        omega (arith, length-append head (value ++ rest), length-append value rest) in
      let more : ltb read len ≡ true = lt→ltb read len (omega (arith, sum)) in
      let fits : leb (read + length head + length value) len ≡ true =
        le→leb (read + length head + length value) len (omega (arith, sum)) in
      rw
        (
          more,
          attributes_loop,
          append_assoc head (value ++ rest) d,
          append_assoc value rest d,
          read_attr_len-encode x.flags (length value) read (value ++ (rest ++ d)) small,
          fits,
        )
        (elim (Bool-cases (ltb 0 (length value))) [
          | inl full ↦
              rw
                (
                  full,
                  value_step h c two x.value (rest ++ d) s i v (ltb→lt 0 (length value) full),
                  drop-append-length value (rest ++ d),
                )
                (attributes_loop-encode_attrs h c two xs f len
                  (read + length head + length value + 2) d (apply_value h x.value s) vs
                  (ap (λ p. p.using_2_octet_asn) (apply_value-info h x.value s) ∙ i)
                  (omega (arith, sum)) (omega (arith, sum)))
          | inr empty ↦
              let none : length value ≡ 0 = omega (arith, ltb→le 0 (length value) empty) in
              rw
                (
                  empty,
                  append-empty value (rest ++ d) none,
                  apply_value-empty h two x.value s v none,
                )
                (attributes_loop-encode_attrs h c two xs f len (read + length head + 2) d s vs i
                  (omega (arith, sum, none)) (omega (arith, sum)))
        ])

  -- Known attributes that are written one after another, each with a length field of the size that its
  -- flags announce, are read back by parseAttributes in their order, for a peer whose AS paths have the
  -- number of octets that the code takes them to have; whatever stands behind them changes nothing.
  -- ATOMIC_AGGREGATE, whose value is empty, leaves no trace.
  pub parse_attributes-encode_attrs :
      (h : Host) (c : Callees X) (xs : List Attr) (d : Bytes) (s : Session X)
      → All (IsAttr s.info.using_2_octet_asn) xs
      → parse_attributes h c
          (encode_attrs s.info.using_2_octet_asn xs ++ d)
          (length (encode_attrs s.info.using_2_octet_asn xs))
          s
        ≡ ok (apply_attrs h xs s)
  unfolding parse_attributes
  parse_attributes-encode_attrs h c [] d s v = refl
  parse_attributes-encode_attrs h c (x ∷ xs) d s v =
      let two = s.info.using_2_octet_asn in
      let n = length (encode_attrs two (x ∷ xs)) in
      let value = encode_value two x.value in
      let head = encode_length x.flags (length value) in
      let long : 3 ≤ n = omega (
        arith,
        length-append head (value ++ encode_attrs two xs),
        length-encode_length x.flags (length value),
      ) in
      rw (le→ltb n 3 long) (
        attributes_loop-encode_attrs h c two (x ∷ xs) (suc n) n 0 d s v refl (omega arith)
          (omega arith))
