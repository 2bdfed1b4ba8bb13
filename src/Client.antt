-- ===== src/Client.antt =====
-- client.go: a client, by what it does. `Keys` and `Encryption` encrypt for the destinations,
-- `Batch` splits what is sent, `Publish` sends to the subscribers of a topic.
pub mod Keys
pub mod Encryption
pub mod State
pub mod Destination
pub mod Outbound
pub mod Batch
pub mod Connect
pub mod Publish
pub mod Send
pub mod Reply
pub mod Inbound
pub mod Handling
pub mod Link
