-- ===== src/Network.antt =====
-- packages/connectors/src/ip-policy.ts: which addresses a connector may reach.
pub mod Ipv4
pub mod Ipv6
pub mod Policy
