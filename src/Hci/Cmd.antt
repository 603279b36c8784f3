-- ===== src/Hci/Cmd.antt =====
-- linux/hci/cmd: the commands of the host controller interface and their marshalling.
pub mod Wire
pub mod Control
pub mod Info
pub mod LeSetup
pub mod LeLink
pub mod Requests
pub mod Sizes
pub mod OpCodes
pub mod Layouts
pub mod Fits
pub mod RoundTrip
