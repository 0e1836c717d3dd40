-- ===== src/Bgp/LinkStateAttr/Protocol.antt =====
-- The choice of the names of flags by the protocol of a row, in
-- Server/src/bgp/linkstate/MPLinkStateAttr.cpp.
use sonic_bmp.Common.{◌≡◌, refl, inl, inr, ◌==◌, Bool-cases, [], ◌∷◌, Text, arith, Result, ok}
use sonic_bmp.Bgp.LinkStateAttr.Values.{strcmp_ge, by_protocol}

-- Protocols are told apart by order and not by equality, and "OSPF" comes behind "IS-IS": whatever the name
-- of the protocol, the names of flags for OSPF are not used.
pub by_protocol-never_ospf :
    (protocol : Text) (isis ospf : Result Text)
    → by_protocol protocol isis ospf ≡ by_protocol protocol isis (ok [])
unfolding by_protocol strcmp_ge
by_protocol-never_ospf [] isis ospf = refl
by_protocol-never_ospf (c ∷ cs) isis ospf = elim (Bool-cases (c == 73)) [
  | inl i ↦ ground arith
  | inr other ↦ ground arith
]
