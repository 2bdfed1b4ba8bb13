-- ===== src/Lib.antt =====
-- The NKN SDK for Go: clients that exchange end-to-end encrypted messages over the nodes of the NKN
-- network, multiclients that bundle several of them, and payment channels on the NKN chain.
--
-- A `Client` (client.go) keeps one websocket connection to a node. It finds the node and connects in a
-- loop (`connect`), takes calls under a lock (`Close`, `Reconnect`, `writeMessage`), encrypts a payload
-- for its destinations, packs the messages into batches below a size limit, and writes them. What comes
-- in goes to event channels (util.go). A `MultiClient` (multiclient.go) has several clients, whose
-- addresses differ by an identifier, and chooses by a policy which of them send. `NanoPay` and
-- `NanoPayClaimer` (nanopay.go) are the two ends of a payment channel.
--
-- - Base: lists, signed integers with Go's wrap-around, bytes and maps. Errors (error.go) has the error
--   values and the three ways in which a call ends: a value, an error, a panic. Action chains calls on a
--   state that stays changed when a later call fails.
-- - Resolver: resolver.go. Resolver/Chain says which chains of answers it follows.
-- - Identifier: `addIdentifier`, `removeIdentifier` of multiclient.go, `addIdentifierPrefix` of util.go.
-- - Channel: OnConnect, OnMessage, OnError and OnMessageEvent of util.go, as one generic emitter.
-- - Message: message.go, with NaCl (`Nacl`) and protobuf (`Codec`) as records of operations and laws.
-- - Client/Keys, Client/Encryption: `getOrComputeSharedKey`, `encryptPayload`, `decryptPayload`.
-- - Client/State: `Close`, `Reconnect`, `writeMessage`, the state that `connectToNode` and the reply to
--   setClient set. State/Lifecycle has their steps in any order: what happens under the lock is one step,
--   and each send on a channel with no lock held (of `Reconnect`, to `OnConnect` after the lock is
--   released, of the answer to a challenge) is another. State/Race is about the send of `Reconnect`.
-- - Client/Destination, Client/Outbound, Client/Batch: `processDests`, `newOutboundMessage`,
--   `newClientMessage`, `sendTimeout`.
-- - Client/Connect: `connect`. The number of rounds is the number of retries.
-- - Client/Send: `Send` with its events and the channel for the reply (Send/Reply). Client/Reply: the reply
--   of the client that has received the message.
-- - Client/Publish: `publish` up to its call of `send`. Its loop has fuel, since it need not end:
--   Publish/Pages says when it does.
-- - Client/Inbound: the part of `handleMessage` that takes an inbound message.
-- - Client/Handling: the rest of `handleMessage`, on what a node sends, and `sendReceipt`. The goroutines
--   that it starts are jobs that run later.
-- - Client/Link: a running client, with the goroutines of `connectToNode` and `handleReconnect`. A run is a
--   list of their turns (Link/Turns), so it needs no fuel. The parts of `Reconnect`, of the reply to
--   setClient and of the answer to a challenge are turns too (Turns/Parts), since no lock is held between
--   them; the other turns are undivided. Link/Attended says when a client is not lost, Turns/Restless and
--   Turns/Leftover what can go wrong.
-- - NanoPay: the chain as a record of operations and laws; NanoPay/Payer is `NewNanoPay` and
--   `IncrementAmount`, NanoPay/Claimer the claimer of `NewNanoPayClaimer` and `Claim` with `flush`,
--   `close` and `Amount`, NanoPay/Checks what `Claim` checks, NanoPay/Payment a payer and a claimer together.
--   NanoPay/Claimer/Flusher is the goroutine that flushes; its loop after a close has fuel, and more than
--   the nanoseconds that are left is enough.
-- - MultiClient: `CalculateClientScore` (Score), `getClientsByPolicy` (Policy),
--   `sendWithClient` and `send` (Sending), `Send` with its goroutine (Spread); the creation of the
--   clients in `NewMultiClient` (Create), with its goroutines in any order; what its goroutines put on the
--   channels, the cache of message ids and `Close` (Hub); `SendWithClient` (Direct);
--   `handleSessionMsg`, `Listen`, `DialWithConfig`, `AcceptSession` and the function by which a session
--   sends (Sessions), with the package ncp as a record of operations; `GetAllSubConnStates` and
--   `GetClientStats` (States), `Reconnect` (Reconnect).
-- - Rpc: rpc.go. Rpc/Call is `RPCCall`: its workers, the loop over the servers and the caller's context take
--   their steps in any order, and a run is a list of events, which needs no fuel; the bodies share one
--   `result`, and `null` makes a worker panic. Rpc/Requests has the
--   methods of a node and the type of the answer to each, Rpc/Methods the functions that call them (with
--   Rpc/Listing for subscribers), Rpc/Fallback which configs wallets, clients and multiclients call with
--   (wallet.go, client.go, multiclient.go), Rpc/Transactions the functions that make, sign and send.
-- - Wallet: `NewWallet`, `WalletFromJSON`, `MarshalJSON` and `VerifyPassword` of wallet.go, with
--   `MergeWalletConfig` of config.go. The package vault (`Vault`) is a record of operations, JSON and the
--   copying of configs among them; Wallet/RoundTrip names what it is relied on for.
-- - Fixtures: stand-ins for the code outside the repository, on which the Tests modules run.
--
-- Not modelled: HTTP and JSON, the package vault and the signing by it, the merging of configurations
-- by another library (config.go), ncp, the expiration of cached message ids, deadlines of connections,
-- and the rounding of float64 in scores. Of util.go only the channels of events, `addIdentifierPrefix`
-- and `sessionKey` are modelled; the rest of it converts keys, amounts and addresses by other packages,
-- draws random bytes, and asks seed nodes for their state. An error with a code keeps the code and not
-- the text. Times are given from outside.
pub mod Base
pub mod Errors
pub mod Action
pub mod Resolver
pub mod Identifier
pub mod Channel
pub mod Message
pub mod Client
pub mod NanoPay
pub mod Rpc
pub mod Wallet
pub mod MultiClient
pub mod Fixtures
