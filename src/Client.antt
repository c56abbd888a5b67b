-- ===== src/Client.antt =====
-- client/PlatformClient.ts: the client of the platform's remote calls. The socket and its transport
-- are those of the packages rsocket-core and rsocket-websocket-client; what they tell the client
-- comes as events, and what the client asks of them is its output.
pub mod Chunks
pub mod Subscriptions
pub mod Connection
