-- ===== src/Joint.antt =====
-- The processes together: what one of them writes is what the other one reads.
pub mod Queue
pub mod Rounds
pub mod Session
pub mod Contact
pub mod Join
pub mod Upload
pub mod Fetch
pub mod Download
