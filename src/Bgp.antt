-- ===== src/Bgp.antt =====
-- The BGP message parsers of Server/src/bgp.
pub mod AttrType
pub mod Attrs
pub mod AddPath
pub mod Types
pub mod Nlri
pub mod AsPath
pub mod Labels
pub mod MpReach
pub mod MpUnreach
pub mod Attributes
pub mod Update
pub mod Open
pub mod Notification
pub mod Dispatch
pub mod ExtCommunity
pub mod Evpn
pub mod LastAddress
pub mod LinkState
pub mod LinkStateAttr
pub mod UpdateDb
