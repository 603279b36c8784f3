-- ===== src/Att/Server.antt =====
-- linux/att/server.go and newCCCD of linux/att/db.go: the state of the ATT server and its handlers.
-- Requests are handled one after the other. The transmit buffer stands for its size: a response is
-- the bytes written to its front, and what lies behind them is never sent.
pub mod State
pub mod Call
pub mod Scan
pub mod Reads
pub mod Writes
pub mod Dispatch
pub mod Inv
pub mod Calls
pub mod Rounds
pub mod Answers
pub mod ReadAnswers
pub mod WriteAnswers
pub mod Total
pub mod Session
pub mod ShortWrite
