-- ===== src/Auth.antt =====
-- Sign-In-With-Solana: app/src/app/api/auth/nonce/route.ts and app/src/app/api/auth/verify/route.ts.
pub mod Message
pub mod Routes
pub mod Laws
pub mod Replay
mod Examples
