-- ===== src/Tests.antt =====
-- Runs of the models at concrete inputs.
pub mod World
mod Queues
mod AsyncQueues
mod Tasks
mod Memory
mod Messages
mod Files
mod Events
mod Sockets
mod TaskLives
mod Threadpools
mod Listing
mod Sources
mod Programs
mod Lines
mod Announcements
mod Echoes
mod Reports
