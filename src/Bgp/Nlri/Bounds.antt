-- ===== src/Bgp/Nlri/Bounds.antt =====
-- The loops over prefixes end, and how far past the announced length they read.
use sonic_bmp.Common.{
  ℕ, zero, suc, ◌+◌, ◌-◌, ◌≤◌, ◌<◌, ◌≡◌, refl, Bool, true, false, ◌&&◌, inl, inr, List, [], ◌∷◌,
  ◌==◌, ltb, leb, Bool-cases, Bytes, length, replicate, All, le→leb, leb→le, arith, fault, overread,
  Safe, Post, OnlyOverwrite, Ends, NoFault, Post-bind, read_bytes, read_u8, read_uint,
  read_bytes-Safe, read_bytes-eq_fault, read_uint-Safe, read_u8-Safe, length-append,
  length-replicate, All-append, ltb→lt,
}
use sonic_bmp.Bgp.AddPath.{is_add_path_enabled}
use sonic_bmp.Bgp.Types.{Host, PrefixTuple, PeerInfo, addr_bytes, copy_into, afi_ipv4, safi_unicast}
use sonic_bmp.Bgp.Nlri.{read_path_id, tuple_v4, nlri_v4_round, nlri_v4_loop, parse_nlri_data_v4}

pub read_path_id-Safe :
    (enabled : Bool) (len read : ℕ) (d : Bytes)
    → read < len
    → len ≤ length d + read
    → Safe
        (λ p. (p.1 ≤ len) × (read ≤ p.1) × (length p.2 + p.1 ≡ length d + read))
        (read_path_id enabled len read d)
unfolding read_path_id
read_path_id-Safe enabled len read d h k = elim (Bool-cases (enabled && leb 4 (len - read))) [
  | inl path ↦
      rw (path, read_path_id)
        (Post-bind NoFault _ _ (read_uint 4 d) _ (read_uint-Safe 4 d (ground arith))
          (λ p e. ground arith))
  | inr bare ↦ rw (bare, read_path_id) (omega arith)
]

pub copy_into-Ends : (size : ℕ) (bs : Bytes) → Ends (λ raw. Unit) (copy_into size bs)
unfolding copy_into
copy_into-Ends size bs = ground arith

-- The copy overwrites what lies behind the array unless the bytes fit.
pub copy_into-Post :
    (size : ℕ) (bs : Bytes)
    → Post OnlyOverwrite (λ raw. (length bs ≤ size) × (length raw ≡ size)) (copy_into size bs)
unfolding copy_into
copy_into-Post size bs = elim (Bool-cases (leb (length bs) size)) [
  | inl fits ↦
      rw (fits, copy_into)
        (
          leb→le _ _ fits,
          omega (
            arith,
            leb→le _ _ fits,
            length-append bs (replicate (size - length bs) 0),
            length-replicate {A = ℕ} (size - length bs) 0,
          ),
        )
  | inr long ↦ rw (long, copy_into) tt
]

copy_into-Safe :
    (size : ℕ) (bs : Bytes) → length bs ≤ size → Safe (λ raw. length raw ≡ size) (copy_into size bs)
unfolding copy_into
copy_into-Safe size bs h =
    rw (le→leb _ _ h, copy_into)
      (omega (
        arith,
        length-append bs (replicate (size - length bs) 0),
        length-replicate {A = ℕ} (size - length bs) 0,
      ))

-- A stored IPv4 prefix: at most 32 bits, and all sixteen bytes of the address set.
abbrev pub IsV4 : PrefixTuple → Type 0
IsV4 t = (t.len ≤ 32) × (length t.prefix_bin ≡ 16) × (t.is_ipv4 ≡ true)

tuple_v4-IsV4 :
    (h : Host) (path_id bits : ℕ) (raw : Bytes)
    → addr_bytes bits ≤ 4
    → length raw ≡ 4
    → IsV4 (tuple_v4 h path_id bits raw)
unfolding tuple_v4
tuple_v4-IsV4 h path_id bits raw small e = (
  ground arith,
  omega (arith, length-append raw (replicate 12 0), length-replicate {A = ℕ} 12 0),
  refl,
)

nlri_v4_round-Safe :
    (h : Host) (enabled : Bool) (len read : ℕ) (d : Bytes) (out : List PrefixTuple)
    → read < len
    → len + 5 ≤ length d + read
    → All IsV4 out
    → Safe
        (λ p. All IsV4 p.0 × (read ≤ p.1) × (length p.2 + (p.1 + 1) ≡ length d + read))
        (nlri_v4_round h enabled len read d out)
unfolding nlri_v4_round
nlri_v4_round-Safe h enabled len read d out lt room good =
    Post-bind NoFault _ _ (read_path_id enabled len read d) _
      (read_path_id-Safe enabled len read d lt (omega arith))
      λ p ep. Post-bind NoFault _ _ (read_u8 p.2) _ (read_u8-Safe p.2 (omega arith)) λ q eq.
        elim (Bool-cases (leb (addr_bytes q.0) 4)) [
          | inl fits ↦ rw fits (
              Post-bind NoFault _ _ (read_bytes (addr_bytes q.0) q.1) _
                (read_bytes-Safe (addr_bytes q.0) q.1
                  (omega (arith, leb→le (addr_bytes q.0) 4 fits)))
                λ r er.
                  Post-bind NoFault _ _ (copy_into 4 r.0) _
                    (copy_into-Safe 4 r.0 (omega (arith, leb→le (addr_bytes q.0) 4 fits)))
                    λ raw eraw. (
                      All-append IsV4 out _ good
                          (tuple_v4-IsV4 h p.0 q.0 raw (leb→le _ _ fits) eraw, tt),
                      omega arith,
                      omega arith,
                    ))
          | inr large ↦ rw large (good, omega arith, omega arith)
        ]

nlri_v4_loop-Safe :
    (f : ℕ) (h : Host) (enabled : Bool) (len read : ℕ) (d : Bytes) (out : List PrefixTuple)
    → len - read < f
    → len + 5 ≤ length d + read
    → All IsV4 out
    → Safe (All IsV4) (nlri_v4_loop h enabled f len read d out)
unfolding nlri_v4_loop
nlri_v4_loop-Safe zero h enabled len read d out fuel room good = absurd (omega arith)
nlri_v4_loop-Safe (suc f) h enabled len read d out fuel room good =
    elim (Bool-cases (ltb read len)) [
      | inl more ↦ rw more (
          Post-bind NoFault _ _ (nlri_v4_round h enabled len read d out) _
            (nlri_v4_round-Safe h enabled len read d out (ltb→lt _ _ more) room good)
            λ p ep.
              nlri_v4_loop-Safe f h enabled len (p.1 + 1) p.2 p.0
                (omega (arith, ltb→lt read len more)) (omega arith) ep.0)
      | inr done ↦ rw done good
    ]

-- parseNlriData_v4 on a buffer that holds five bytes more than the announced length neither reads
-- past the buffer nor writes past `ipv4_raw`, and all that it stores are IPv4 prefixes of at most 32
-- bits with sixteen address bytes; so it reads at most five bytes past its input.
pub parse_nlri_data_v4-Safe :
    (h : Host) (info : PeerInfo) (d : Bytes) (len : ℕ)
    → len + 5 ≤ length d
    → Safe (All IsV4) (parse_nlri_data_v4 h info d len [])
unfolding parse_nlri_data_v4
parse_nlri_data_v4-Safe h info d len room = elim (Bool-cases (len == 0)) [
  | inl empty ↦ rw empty tt
  | inr some ↦ rw some (nlri_v4_loop-Safe (suc len) h _ len 0 d [] (omega arith) (omega arith) tt)
]

-- It does read past its input: the last prefix may announce more bytes than there are.
pub parse_nlri_data_v4-overread :
    (h : Host) (info : PeerInfo) (bits : ℕ) (rest : Bytes)
    → is_add_path_enabled afi_ipv4 safi_unicast info.add_path_capability ≡ false
    → addr_bytes bits ≤ 4
    → length rest < addr_bytes bits
    → parse_nlri_data_v4 h info (bits ∷ rest) (1 + length rest) [] ≡ fault overread
unfolding parse_nlri_data_v4 nlri_v4_loop nlri_v4_round read_path_id read_u8
parse_nlri_data_v4-overread h info bits rest off small short =
    rw (off) (ground (arith, read_bytes-eq_fault (addr_bytes bits) rest short))
