-- ===== src/Bgp/Attributes/Items.antt =====
-- Lists of communities and of clusters that are written as their RFCs say are printed in their order.
use sonic_bmp.Common.{
  ℕ, ◌*◌, ◌≡◌, refl, sym, ap, ◌∙◌, Bool, true, false, List, [], All, ◌∷◌, ◌++◌, if◌then◌else◌, Text,
  codes, Bytes, length, arith, ok, network, length-network, read_uint-network, read_bytes-length,
  length-append, append_assoc, append-nil,
}
use sonic_bmp.Bgp.Attributes.Format.{
  Community, LargeCommunity, encode_items, print_items, print_clusters, encode_community,
  print_community, IsCommunity, encode_large, print_large, IsLarge, IsAddress,
}
use sonic_bmp.Bgp.Attributes.{read_ipv4, cluster_loop, read_numbers, community_loop}
use sonic_bmp.Bgp.Types.{Host}

pub read_ipv4-address :
    (h : Host) (ip d : Bytes) → IsAddress ip → read_ipv4 h (ip ++ d) ≡ ok (h.inet_ntop true ip, d)
unfolding read_ipv4
read_ipv4-address h ip d v = rw (read_bytes-length 4 ip d v) refl

pub cluster_loop-items :
    (h : Host) (ips : List Bytes) (d : Bytes) (out : Text)
    → All IsAddress ips
    → cluster_loop h (length ips) (encode_items (λ a. a) ips ++ d) out
      ≡ ok (out ++ print_clusters h ips)
unfolding cluster_loop
cluster_loop-items h [] d out v = ap ok (sym (append-nil out))
cluster_loop-items h (ip ∷ ips) d out (v, vs) =
    let text = h.inet_ntop true ip ++ codes " " in
    rw
      (
        append_assoc ip (encode_items (λ a. a) ips) d,
        read_ipv4-address h ip (encode_items (λ a. a) ips ++ d) v,
      )
      (cluster_loop-items h ips d (out ++ text) vs
        ∙ ap ok (append_assoc out text (print_clusters h ips)))

community_loop-items :
    {E : Type 0} (encode : E → Bytes) (print : E → Text) (Valid : E → Type 0) (size : ℕ)
    (sizes : List ℕ)
    → ((e : E) (d : Bytes) → Valid e → read_numbers size sizes (encode e ++ d) ≡ ok (print e, d))
    → (es : List E) (first : Bool) (d : Bytes) (out : Text) → All Valid es
    → community_loop size sizes (length es) first (encode_items encode es ++ d) out
      ≡ ok (out ++ print_items print first es)
unfolding community_loop
community_loop-items encode print Valid size sizes reads [] first d out v =
    ap ok (sym (append-nil out))
community_loop-items encode print Valid size sizes reads (e ∷ es) first d out (v, vs) =
    let text = (if first then [] else codes " ") ++ print e in
    rw (append_assoc (encode e) (encode_items encode es) d, reads e (encode_items encode es ++ d) v)
      (community_loop-items encode print Valid size sizes reads es false d (out ++ text) vs
        ∙ ap ok (append_assoc out text (print_items print false es)))

read_numbers-community :
    (c : Community) (d : Bytes)
    → IsCommunity c
    → read_numbers 2 (2 ∷ []) (encode_community c ++ d) ≡ ok (print_community c, d)
unfolding read_numbers
read_numbers-community c d (v, w) =
    rw
      (
        append_assoc (network 2 c.asn) (network 2 c.value) d,
        read_uint-network 2 c.asn (network 2 c.value ++ d) v,
        read_uint-network 2 c.value d w,
      )
      refl

read_numbers-large :
    (c : LargeCommunity) (d : Bytes)
    → IsLarge c
    → read_numbers 4 (4 ∷ 4 ∷ []) (encode_large c ++ d) ≡ ok (print_large c, d)
unfolding read_numbers
read_numbers-large c d (v, w, x) =
    rw
      (
        append_assoc (network 4 c.global) (network 4 c.local_1 ++ network 4 c.local_2) d,
        append_assoc (network 4 c.local_1) (network 4 c.local_2) d,
        read_uint-network 4 c.global (network 4 c.local_1 ++ (network 4 c.local_2 ++ d)) v,
        read_uint-network 4 c.local_1 (network 4 c.local_2 ++ d) w,
        read_uint-network 4 c.local_2 d x,
      )
      refl

pub community_loop-communities :
    (cs : List Community) (d : Bytes)
    → All IsCommunity cs
    → community_loop 2 (2 ∷ []) (length cs) true (encode_items encode_community cs ++ d) []
      ≡ ok (print_items print_community true cs)
community_loop-communities cs d v =
    community_loop-items encode_community print_community IsCommunity 2 (2 ∷ [])
      read_numbers-community cs true d [] v

pub community_loop-large :
    (cs : List LargeCommunity) (d : Bytes)
    → All IsLarge cs
    → community_loop 4 (4 ∷ 4 ∷ []) (length cs) true (encode_items encode_large cs ++ d) []
      ≡ ok (print_items print_large true cs)
community_loop-large cs d v =
    community_loop-items encode_large print_large IsLarge 4 (4 ∷ 4 ∷ []) read_numbers-large cs true
      d [] v

pub length-communities :
    (cs : List Community) → length (encode_items encode_community cs) ≡ 4 * length cs
length-communities [] = refl
length-communities (c ∷ cs) = omega (
  arith,
  length-append (encode_community c) (encode_items encode_community cs),
  length-append (network 2 c.asn) (network 2 c.value),
  length-network 2 c.asn,
  length-network 2 c.value,
  length-communities cs,
)

pub length-large :
    (cs : List LargeCommunity) → length (encode_items encode_large cs) ≡ 12 * length cs
length-large [] = refl
length-large (c ∷ cs) = omega (
  arith,
  length-append (encode_large c) (encode_items encode_large cs),
  length-append (network 4 c.global) (network 4 c.local_1 ++ network 4 c.local_2),
  length-append (network 4 c.local_1) (network 4 c.local_2),
  length-network 4 c.global,
  length-network 4 c.local_1,
  length-network 4 c.local_2,
  length-large cs,
)

pub length-clusters :
    (ips : List Bytes) → All IsAddress ips → length (encode_items (λ a. a) ips) ≡ 4 * length ips
length-clusters [] v = refl
length-clusters (ip ∷ ips) (v, vs) =
    omega (arith, length-append ip (encode_items (λ a. a) ips), v, length-clusters ips vs)
