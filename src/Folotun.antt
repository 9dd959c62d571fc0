-- ===== src/Folotun.antt =====
-- upstream/xray-core/main/folotun: the PacketFlow v1 framing over a stream socket, and the checks of
-- the endpoint addresses that the wrapper dials.
pub mod Packet
pub mod Stream
pub mod Frame
pub mod Endpoint
pub mod Socket
pub mod Descriptors
