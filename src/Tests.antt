-- ===== src/Tests.antt =====
-- The theorems at concrete inputs, and runs of the definitions.
mod Parts
mod Framing
mod Datagrams
mod Translation
mod Accounts
mod Sessions
mod Client
