-- ===== src/Bgp/LastAddress.antt =====
-- The last address of a prefix, which Server/src/bgp/parseBGP.cpp (UpdateDBL3Vpn, UpdateDBAdvPrefixes)
-- and Server/src/bgp/linkstate/MPLinkState.cpp (parseDescrPrefix) compute in the same way.
pub mod Range
use sonic_bmp.Common.{
  ℕ, ◌-◌, ◌*◌, ◌/◌, ◌^◌, Bool, ◌++◌, ltb, leb, if◌then◌else◌, Bytes, take, drop, replicate, network,
  bit_or,
}
use sonic_bmp.Bgp.ExtCommunity.{uint_of}

-- `value |= ~0 >> shift` on n bytes that are swapped before and behind it.
unfoldable pub set_low : ℕ → ℕ → Bytes → Bytes
set_low n shift bs = network n (bit_or (uint_of bs) ((2 ^ (8 * n) - 1) / 2 ^ shift))

-- prefix_bcast_bin: what it becomes, and of an IPv4 prefix what it keeps. Both arrays have 16 bytes.
unfoldable pub last_address : Bool → ℕ → Bytes → Bytes → Bytes
last_address ipv4 len prefix_bin bcast_bin =
    if ipv4
    then (if ltb len 32
        then set_low 4 len (take 4 prefix_bin) ++ drop 4 bcast_bin
        else take 16 prefix_bin)
    else if ltb len 128
    then (if leb 64 len
        then take 8 prefix_bin ++ set_low 8 (len - 64) (take 8 (drop 8 prefix_bin))
        else set_low 8 len (take 8 prefix_bin) ++ replicate 8 255)
    else take 16 prefix_bin
