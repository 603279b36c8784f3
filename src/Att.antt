-- ===== src/Att.antt =====
-- linux/att: the Attribute Protocol, its PDUs, the attribute database and the server.
pub mod Pdu
pub mod Handler
pub mod Db
pub mod Server
pub mod Generate
pub mod Client
