-- ===== src/Rpc.antt =====
-- rpc.go: calls of a node's JSON-RPC interface, and what the package makes of them.
pub mod Call
pub mod Requests
pub mod Listing
pub mod Methods
pub mod Fallback
pub mod Transactions
