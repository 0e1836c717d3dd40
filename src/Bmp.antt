-- ===== src/Bmp.antt =====
-- The BMP parser, Server/src/bmp/parseBMP.cpp.
pub mod PeerHeader
pub mod CommonHeader
pub mod Info
pub mod Init
pub mod Term
pub mod PeerUp
pub mod Stats
pub mod Version2
pub mod Reader
