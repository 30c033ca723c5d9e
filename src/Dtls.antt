-- ===== src/Dtls.antt =====
-- trio/_dtls.py: what DTLS sends before and beside OpenSSL: records, handshake fragments, the first
-- message of a client, volleys of handshake messages, and the cookies of a listening endpoint.
pub mod Bytes
pub mod ContentType
pub mod HandshakeType
pub mod Record
pub mod Handshake
pub mod ClientHello
pub mod Cookie
pub mod Volley
mod Examples
