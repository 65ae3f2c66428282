-- ===== src/Session.antt =====
-- app/src/lib/session.ts: the signed session cookie.
-- Node's HMAC and JavaScript's conversions between numbers and text are parameters.
pub mod Cookie
pub mod Laws
pub mod Examples
