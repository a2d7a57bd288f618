-- ===== src/Cooldown.antt =====
-- The small in-memory guards of backend/internal/api that bound how often something happens per key:
-- mfa_push_cooldown.go, sendas_cooldown.go and native_pairing_nonce.go. Times are nanoseconds, and an
-- operation reads the clock once, as `now`.
pub mod Push
pub mod SendAs
pub mod Nonce
