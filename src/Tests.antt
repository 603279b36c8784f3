-- ===== src/Tests.antt =====
-- Runs of the definitions on concrete inputs, and the theorems at inputs where their hypotheses hold.
mod Server
mod Wire
mod Packets
mod Client
mod Bearer
mod Reports
mod Commands
mod Flow
mod Dispatch
