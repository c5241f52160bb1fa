-- ===== src/Examples.antt =====
-- Concrete runs of the parts of the crawler.
pub mod Codec
pub mod Requests
pub mod Slots
pub mod Names
pub mod Peers
pub mod Api
pub mod Settings
pub mod Files
pub mod Updates
pub mod Answers
pub mod Setup
pub mod Statuses
pub mod Shutdown
pub mod Starts
pub mod Discoveries
