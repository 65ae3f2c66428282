-- ===== src/Json.antt =====
-- JSON values and documents, as app/src/lib/db.ts stores them: `Record<string, unknown> & { id }`.
-- A document is its fields in order. Numbers are integers: the program stores times, counts and
-- basis points.
mod Fields
unfoldable pub use Fields.*
