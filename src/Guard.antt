-- ===== src/Guard.antt =====
-- app/src/lib/guard.ts: the rate limiter and the same-origin test of the API routes.
-- The table of buckets is a JavaScript `Map`, here its entries in insertion order.
pub mod Limiter
pub mod View
pub mod Quota
pub mod Request
mod Examples
