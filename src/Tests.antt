-- ===== src/Tests.antt =====
-- Tests: every property applied to data on which its hypotheses hold.
mod Polling
mod Content
mod Requests
mod Accounts
mod Client
mod MediaCache
mod Feed
mod Maintenance
mod TokenCache
