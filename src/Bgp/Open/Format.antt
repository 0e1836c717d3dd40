-- ===== src/Bgp/Open/Format.antt =====
-- Open messages to be written, as RFC 4271 (section 4.2), RFC 5492, RFC 6793 and RFC 7911 say, and what
-- they mean. An ADD-PATH capability stands last in its parameter.
use sonic_bmp.Common.{
  ℕ, ◌^◌, ◌≤◌, ◌<◌, ◌≡◌, Bool, false, List, [], All, ◌∷◌, ◌++◌, ◌==◌, codes, Bytes, length, network,
}
use sonic_bmp.Bgp.Types.{Host}
use sonic_bmp.Bgp.Open.{OpenState, push, named_capability, mpbgp_text, add_path_entry}

-- A capability to be written, but for ADD-PATH: the four-octet AS number, a family of the multiprotocol
-- extensions, or a code and a value that the parser does not look into.
pub data Cap : Type 0 where
  four_octet : (asn : ℕ) → Cap
  mpbgp : (afi safi : ℕ) → Cap
  other : (code : ℕ) (value : Bytes) → Cap

pub record Entry : Type 0 where
  pub afi : ℕ
  pub safi : ℕ
  pub send_receive : ℕ

abbrev pub IsCap : Cap → Type 0
IsCap (four_octet asn) = asn < 256 ^ 4
IsCap (mpbgp afi safi) = afi < 256 ^ 2
IsCap (other code value) = ((code == 65) ≡ false) × ((code == 69) ≡ false) × ((code == 1) ≡ false)

abbrev pub cap_code : Cap → ℕ
cap_code (four_octet asn) = 65
cap_code (mpbgp afi safi) = 1
cap_code (other code value) = code

abbrev pub cap_value : Cap → Bytes
cap_value (four_octet asn) = network 4 asn
cap_value (mpbgp afi safi) = network 2 afi ++ (0 ∷ safi ∷ [])
cap_value (other code value) = value

abbrev pub encode_caps : List Cap → Bytes
encode_caps [] = []
encode_caps (c ∷ cs) = cap_code c ∷ length (cap_value c) ∷ (cap_value c ++ encode_caps cs)

abbrev pub encode_entries : List Entry → Bytes
encode_entries [] = []
encode_entries (e ∷ es) = network 2 e.afi ++ (e.safi ∷ e.send_receive ∷ encode_entries es)

-- The ADD-PATH capability, if there are entries.
abbrev pub encode_paths : List Entry → Bytes
encode_paths [] = []
encode_paths (e ∷ es) = 69 ∷ length (encode_entries (e ∷ es)) ∷ encode_entries (e ∷ es)

-- What a capability means.
abbrev pub apply_cap : Cap → OpenState → OpenState
apply_cap (four_octet asn) s = push (codes "4 Octet ASN (65)") (record s { asn = asn })
apply_cap (mpbgp afi safi) s = push (mpbgp_text afi safi) s
apply_cap (other code value) s = push (named_capability code) s

abbrev pub apply_caps : List Cap → OpenState → OpenState
apply_caps [] s = s
apply_caps (c ∷ cs) s = apply_caps cs (apply_cap c s)

abbrev pub apply_paths : Host → Bool → List Entry → OpenState → OpenState
apply_paths h sent [] s = s
apply_paths h sent (e ∷ es) s =
    apply_paths h sent es (add_path_entry h sent e.afi e.safi e.send_receive s)

abbrev pub IsEntry : Entry → Type 0
IsEntry e = e.afi < 256 ^ 2

-- A parameter of the open message: capabilities, and the entries of its ADD-PATH capability, if any.
pub record Param : Type 0 where
  pub caps : List Cap
  pub paths : List Entry

abbrev pub body : Param → Bytes
body p = encode_caps p.caps ++ encode_paths p.paths

-- A parameter has a capability at least.
pub record IsParam (p : Param) : Type 0 where
  pub has_some : 2 ≤ length (body p)
  pub are_caps : All IsCap p.caps
  pub are_entries : All IsEntry p.paths

abbrev pub encode_params : List Param → Bytes
encode_params [] = []
encode_params (p ∷ ps) = 2 ∷ length (body p) ∷ (body p ++ encode_params ps)

abbrev pub apply_params : Host → Bool → List Param → OpenState → OpenState
apply_params h sent [] s = s
apply_params h sent (p ∷ ps) s =
    apply_params h sent ps (apply_paths h sent p.paths (apply_caps p.caps s))

-- The fields of the fixed header.
pub record Header : Type 0 where
  pub version : ℕ
  pub asn : ℕ
  pub hold_time : ℕ
  pub bgp_id : Bytes

pub record IsHeader (x : Header) : Type 0 where
  pub asn_small : x.asn < 256 ^ 2
  pub hold_small : x.hold_time < 256 ^ 2
  pub id_length : length x.bgp_id ≡ 4

-- The open message, with `d` behind it.
abbrev pub encode_open : Header → List Param → Bytes → Bytes
encode_open x ps d =
    x.version
    ∷ (network 2 x.asn
        ++ (network 2 x.hold_time
            ++ (x.bgp_id ++ (length (encode_params ps) ∷ (encode_params ps ++ d)))))
