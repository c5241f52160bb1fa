-- ===== src/Rpc.antt =====
-- The request/response layer, crawler/rpc/request.
pub mod Stream
pub mod Reader
pub mod Varint
pub mod Encode
pub mod Respond
pub mod Serve
pub mod Method
