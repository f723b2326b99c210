-- ===== src/Wire.antt =====
-- The two wire contracts, of the Agent (crates/agent-api) and of the elevated broker
-- (crates/broker-api), and the framing that both use.
pub mod Frame
pub mod Agent
pub mod Broker
mod Examples
