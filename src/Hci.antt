-- ===== src/Hci.antt =====
-- The host controller interface and the L2CAP connection of linux/hci: packets and commands, ACL fragments,
-- transmit credits, signalling, security and advertising reports.
pub mod Acl
pub mod Pool
pub mod Update
pub mod Smp
pub mod Signal
pub mod Report
pub mod Cmd
pub mod Flow
pub mod Dispatch
