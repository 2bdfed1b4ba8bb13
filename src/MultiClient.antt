-- ===== src/MultiClient.antt =====
-- multiclient.go: which of its clients a `MultiClient` sends with, and how it sends.
pub mod Score
pub mod Policy
pub mod Sending
pub mod Hub
pub mod Spread
pub mod Direct
pub mod States
pub mod Reconnect
pub mod Create
pub mod Sessions
