-- ===== src/Lib.antt =====
-- A model of the BGP and BMP parsing core of the SONiC BMP collector, and what holds of it.
--
-- The collector (Server/src) reads the BMP stream of a router. parseBMP (bmp/parseBMP.cpp) takes the
-- BMP headers off and buffers a message, parseBGP (bgp/parseBGP.cpp) reads the BGP header and hands
-- the body to the parser of its kind: UpdateMsg, OpenMsg or NotificationMsg. UpdateMsg calls
-- MPReachAttr and MPUnReachAttr for the multiprotocol attributes, these call the parsers of labelled,
-- EVPN and BGP-LS routes, and UpdateDB of parseBGP makes rows of the decoded data and sends them to a
-- message bus. The peers' state that the parsers share is BMPReader::peer_info: the ADD-PATH
-- container, the AS path encoding and the End-of-RIB flag.
--
-- Files, with the paths of the source under Server/src:
--   Common: numbers and tests, lists, printed text (Decimal), signed numbers (Integers), shifts and ors
--     (Bits), outcomes of code (Outcome) and reading from a buffer (Wire: memcpy from a pointer that
--     moves on, and SWAP_BYTES of bgp/bgp_common.h).
--   Bgp/Types: bgp/bgp_common.h, the structures of bgp/UpdateMsg.h, bgp/MPReachAttr.h and
--     bgp/MPUnReachAttr.h, and BMPReader::peer_info.
--   Bgp/AttrType, Bgp/Attrs: UPDATE_ATTR_TYPES and parsed_attrs_map of bgp/UpdateMsg.h.
--   Bgp/AddPath: bgp/AddPathDataContainer.cpp (addAddPath, isAddPathEnabled).
--   Bgp/Nlri: UpdateMsg::parseNlriData_v4 and MPReachAttr::parseNlriData_IPv4IPv6.
--   Bgp/AsPath: UpdateMsg::parseAttr_AsPath.
--   Bgp/Labels: MPReachAttr::decodeLabel and parseNlriData_LabelIPv4IPv6, and
--     EVPN::parseRouteDistinguisher.
--   Bgp/Evpn: EVPN::parseNlriData and, in Fields, parseEthernetSegmentIdentifier.
--   Bgp/LinkState: bgp/linkstate/MPLinkState.cpp; its rows (Rows), the loops over descriptors
--     (Descriptors) and the three kinds of NLRI (Routes).
--   Bgp/LinkStateAttr: bgp/linkstate/MPLinkStateAttr.cpp; the arrays it writes (Arrays) and the values it
--     prints (Values).
--   Bgp/MpReach, Bgp/MpUnreach: MPReachAttr and MPUnReachAttr.
--   Bgp/Attributes: UpdateMsg::parseAttributes, parseAttrData and parseAttr_Aggegator.
--   Bgp/Update: UpdateMsg::parseUpdateMsg.
--   Bgp/Open: OpenMsg::parseOpenMsg and parseCapabilities.
--   Bgp/Notification: NotificationMsg::parseNotify.
--   Bgp/Dispatch: parseBGP::parseBgpHeader, handleUpdate, handleDownEvent and handleUpEvent.
--   Bgp/UpdateDb: parseBGP::UpdateDB and the functions behind it, up to the calls of the message bus; the
--     path attributes (PathAttr) and the BGP-LS attributes merged into rows (Merge). Bgp/LastAddress: the
--     last address of a prefix.
--   Bgp/ExtCommunity: ExtCommunity::parseExtCommunities with its decoders, and in Version6
--     parsev6ExtCommunities.
--   Bmp/PeerHeader, Bmp/CommonHeader: parseBMP::parsePeerFlags, parsePeerHdr, parseBMPv3 and
--     bufferBMPMessage. Bmp/Version2: handleMessage and parseBMPv2.
--   Bmp/Info: the loops over information TLVs. Bmp/Init, Bmp/Term: handleInitMsg and handleTermMsg.
--   Bmp/PeerUp: parsePeerUpEventHdr, parsePeerDownEventHdr and parsePeerUpInfo. Bmp/Stats:
--     handleStatsReport.
--   Bmp/Reader: BMPReader::ReadIncomingMsg, and peer_info_map; in Loop readerThreadLoop, on fuel for one
--     round for each byte of the stream and one more.
--   Queue: safeQueue.hpp. A thread's method runs in single accesses to the shared object, and the
--     accesses of all threads are interleaved in any order (Step, Reach).
--   Examples: runs on concrete inputs.
--
-- A function of the source is a function to Result, whose cases are the value returned with
-- everything that was written, a C++ exception, and a fault: a read behind the buffer that a pointer
-- points into (overread) or a write behind an array (overwrite). A pointer is the list of the bytes
-- from there to the buffer's end; a socket is the list of the bytes still to come, and Recv with
-- MSG_WAITALL takes as many as there are. Logging is left out. Where the code reads a variable that
-- it has not initialised, the model reads a field of Host.
--
-- Integers are natural numbers; a conversion to a shorter type and a difference of size_t keep their
-- wrap-around (% 2 ^ 16, sub32, sub64). Loops that count bytes run on fuel, one more than the
-- announced length; each round takes a byte at least, so the fuel is enough. A loop with no fuel left
-- gives the outcome stuck, which the theorems whose names end in Ends and Safe exclude for prefixes,
-- AS paths, labels, EVPN and BGP-LS routes, BGP-LS attributes, open messages and the loops over TLVs
-- on every input, and the round trips for well-formed input. The loop over BGP-LS routes, whose
-- counter of 16 bits wraps around, has the bytes of the buffer for fuel, since each round takes
-- thirteen of them. parseAttr_AsPath calls itself once at most and has fuel 2. A number is printed
-- with twenty decimal or eight hexadecimal digits of fuel, enough for 64 and for 32 bits.
--
-- The parsers of UpdateMsg, MPReachAttr and MPUnReachAttr take those of the other classes as one
-- record, Callees; Bgp/ExtCommunity, Bgp/LinkStateAttr, Bgp/LinkState and Bgp/Evpn fill it.
--
-- Not modelled: of BMPReader hashRouter, the rate of route dumps and disconnect; inet_ntop of the C
-- library (Host), MD5, a copy of another project's code, the hash of the attributes that the message
-- bus writes back, and a bandwidth that overflows in MPLinkStateAttr, which are parameters; the copy
-- of a packet that Recv keeps; the message buses, configuration, logging and sockets, which are input
-- and output.
pub mod Common
pub mod Bgp
pub mod Bmp
pub mod Queue
pub mod Examples
