-- ===== src/Bgp/AsPath/RoundTrip.antt =====
-- AS paths that are written as RFC 4271 (section 4.3) says, with ASNs of two or four octets.
use sonic_bmp.Common.{
  ℕ, zero, suc, ◌+◌, ◌-◌, ◌*◌, ◌%◌, ◌^◌, ◌≤◌, ◌<◌, ◌≡◌, refl, sym, ap, List, [], ◌∷◌, ◌++◌, some,
  Text, codes, to_dec, Bytes, length, All, arith, ok, read_u8, network, length-network,
  read_uint-network, length-append, append_assoc, append-nil, lt→ltb, le→ltb,
}
use sonic_bmp.Bgp.AsPath.{
  PathState, add_asn, open_brace, close_brace, read_segment, as_path_round, as_path_loop,
}

-- A segment: AS_SET is type 1.
pub record Segment : Type 0 where
  pub type : ℕ
  pub asns : List ℕ

pub record IsSegment (size : ℕ) (s : Segment) : Type 0 where
  pub asns_small : All (λ a. a < 256 ^ size) s.asns

abbrev pub encode_asns : ℕ → List ℕ → Bytes
encode_asns size [] = []
encode_asns size (a ∷ ns) = network size a ++ encode_asns size ns

abbrev pub encode_segments : ℕ → List Segment → Bytes
encode_segments size [] = []
encode_segments size (s ∷ ss) =
    s.type ∷ length s.asns ∷ (encode_asns size s.asns ++ encode_segments size ss)

-- The printed form: a set stands in braces, and a space stands before each ASN and each brace.
abbrev pub print_asns : List ℕ → Text
print_asns [] = []
print_asns (a ∷ ns) = codes " " ++ (to_dec a ++ print_asns ns)

abbrev pub print_segments : List Segment → Text
print_segments [] = []
print_segments (s ∷ ss) =
    open_brace s.type ++ (print_asns s.asns ++ (close_brace s.type ++ print_segments ss))

abbrev pub total : List Segment → ℕ
total [] = 0
total (s ∷ ss) = length s.asns + total ss

abbrev pub last_asn : ℕ → List ℕ → ℕ
last_asn d [] = d
last_asn d (a ∷ ns) = last_asn a ns

abbrev pub last_of : ℕ → List Segment → ℕ
last_of d [] = d
last_of d (s ∷ ss) = last_of (last_asn d s.asns) ss

state_eq :
    {t t' : Text} {c c' a a' : ℕ}
    → t ≡ t'
    → c ≡ c'
    → a ≡ a'
    → ◌≡◌ {A = PathState}
        (record { decoded = t; count = c; asn = a })
        (record { decoded = t'; count = c'; asn = a' })
state_eq p q r = λ i. record { decoded = p i; count = q i; asn = r i }

length-encode_asns : (size : ℕ) (ns : List ℕ) → length (encode_asns size ns) ≡ length ns * size
length-encode_asns size [] = omega arith
length-encode_asns size (a ∷ ns) = omega (
  arith,
  length-append (network size a) (encode_asns size ns),
  length-network size a,
  length-encode_asns size ns,
)

read_segment-encode_asns :
    (size : ℕ) (ns : List ℕ) (d : Bytes) (s : PathState)
    → All (λ a. a < 256 ^ size) ns
    → s.count < 2 ^ 16
    → read_segment size (length ns) (encode_asns size ns ++ d) s
      ≡ ok (
        record {
          decoded = s.decoded ++ print_asns ns;
          count = (s.count + length ns) % 2 ^ 16;
          asn = last_asn s.asn ns;
        },
        d,
      )
unfolding read_segment
read_segment-encode_asns size [] d s small fits =
    ap (λ (t : PathState). ok (t, d)) (state_eq (sym (append-nil s.decoded)) (omega arith) refl)
read_segment-encode_asns size (a ∷ ns) d s (ha, small) fits =
    rw
      (
        append_assoc (network size a) (encode_asns size ns) d,
        read_uint-network size a (encode_asns size ns ++ d) ha,
        read_segment-encode_asns size ns d (add_asn s a) small (omega arith),
      )
      (ap (λ (t : PathState). ok (t, d)) (state_eq (simp append_assoc) (omega arith) refl))

-- The state behind the segments.
abbrev after : PathState → List Segment → PathState
after s ss = record {
  decoded = s.decoded ++ print_segments ss;
  count = (s.count + total ss) % 2 ^ 16;
  asn = last_of s.asn ss;
}

-- The state behind one segment.
abbrev after_one : PathState → Segment → PathState
after_one s g = record {
  decoded = ((s.decoded ++ open_brace g.type) ++ print_asns g.asns) ++ close_brace g.type;
  count = (s.count + length g.asns) % 2 ^ 16;
  asn = last_asn s.asn g.asns;
}

as_path_round-encode :
    (size left : ℕ) (g : Segment) (d : Bytes) (s : PathState)
    → IsSegment size g
    → s.count < 2 ^ 16
    → 2 + length g.asns * size ≤ left
    → as_path_round size left (g.type ∷ length g.asns ∷ (encode_asns size g.asns ++ d)) s
      ≡ ok (some (after_one s g, left - 2 - length g.asns * size, d))
unfolding as_path_round read_u8
as_path_round-encode size left g d s v fits room = rw (
  le→ltb left (length g.asns * size + 2) (omega arith),
  read_segment-encode_asns size g.asns d (record s { decoded = s.decoded ++ open_brace g.type })
      v.asns_small fits,
)

after-nil : (s : PathState) → s.count < 2 ^ 16 → s ≡ after s []
after-nil s fits = state_eq (sym (append-nil s.decoded)) (omega arith) refl

after-cons :
    (s : PathState) (g : Segment) (gs : List Segment) → after (after_one s g) gs ≡ after s (g ∷ gs)
after-cons s g gs = state_eq (simp append_assoc) (omega arith) refl

length-encode_segments :
    (size : ℕ) (g : Segment) (gs : List Segment)
    → length (encode_segments size (g ∷ gs))
      ≡ 2 + length g.asns * size + length (encode_segments size gs)
length-encode_segments size g gs = omega (
  arith,
  length-append (encode_asns size g.asns) (encode_segments size gs),
  length-encode_asns size g.asns,
)

pub as_path_loop-encode_segments :
    (gs : List Segment) (f size left : ℕ) (d : Bytes) (s : PathState)
    → All (IsSegment size) gs
    → s.count < 2 ^ 16
    → left < f
    → left ≡ length (encode_segments size gs)
    → as_path_loop f size left (encode_segments size gs ++ d) s ≡ ok (some (after s gs))
unfolding as_path_loop
as_path_loop-encode_segments gs zero size left d s v fits fuel e = absurd (omega arith)
as_path_loop-encode_segments [] (suc f) size left d s v fits fuel e =
    rw (le→ltb 0 left (omega arith)) (ap (λ (t : PathState). ok (some t)) (after-nil s fits))
as_path_loop-encode_segments (g ∷ gs) (suc f) size left d s (vg, v) fits fuel e =
    let len = length-encode_segments size g gs in
    rw
      (
        lt→ltb 0 left (omega arith),
        append_assoc (encode_asns size g.asns) (encode_segments size gs) d,
        as_path_round-encode size left g (encode_segments size gs ++ d) s vg fits (omega arith),
        as_path_loop-encode_segments gs f size (left - 2 - length g.asns * size) d (after_one s g) v
            (omega arith) (omega arith) (omega arith),
      )
      (ap (λ (t : PathState). ok (some t)) (after-cons s g gs))
