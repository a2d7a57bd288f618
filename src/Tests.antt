-- ===== src/Tests.antt =====
-- Runs of the model at concrete inputs, and the theorems applied to concrete inputs.
mod Lockout
mod Cooldown
mod Challenges
mod Users
mod State
mod Accounts
mod Contacts
mod Rules
mod SendAs
mod Sessions
mod Mailcache
mod Totp
mod Retry
mod Login
