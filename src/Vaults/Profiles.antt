-- ===== src/Vaults/Profiles.antt =====
-- app/src/lib/metadataStore.ts and app/src/lib/verifySig.ts.
use fbyt.Base.{
  ℕ, Text, text_eq, Bool, false, Option, none, some, List, [], ◌∷◌, ◌++◌, codes, if◌then◌else◌,
}
use fbyt.Base.Int.{ℤ, pos}
use fbyt.Json.{Doc, num, str, end, field}
use fbyt.Db.Sql.{Sql}
use fbyt.Db.Ops.{id_of, with_id, db_all, db_get, db_put}

pub record VaultMetadata : Type 0 where
  pub name : Text
  pub description : Text
  pub strategy : Text
  pub updated_by : Text
  pub updated_at : ℕ

-- The document that is stored for it, without its id.
abbrev pub metadata_doc : VaultMetadata → Doc
metadata_doc m = field "name" (str m.name) (
    field "description" (str m.description) (
      field "strategy" (str m.strategy)
        (field "updatedBy" (str m.updated_by) (field "updatedAt" (num (pos m.updated_at)) end))))

-- `out[a]` after `for (const r of rows) out[r.id] = r`: the last row of an id.
unfoldable pub profile_at : List Doc → Text → Option Doc
unfolding id_of
profile_at [] a = none
profile_at (r ∷ rs) a = elim (profile_at rs a) [
  | some v ↦ some v
  | none ↦ if text_eq (id_of r) a then some r else none
]

module _ (sql : Sql) where
  open sql use {Db}

  -- `getAllMetadata`, as the lookups that are made in its result.
  unfoldable pub get_all_metadata : Db → Text → Option Doc
  unfolding profile_at
  get_all_metadata d = profile_at (db_all sql d "vaultMetadata")

  unfoldable pub get_metadata : Db → Text → Option Doc
  get_metadata d vault = db_get sql d "vaultMetadata" vault

  unfoldable pub set_metadata : Db → Text → VaultMetadata → Db
  set_metadata d vault m = (db_put sql d "vaultMetadata" (with_id (metadata_doc m) vault)).0

-- What verifySig.ts and the route use of Node.
pub record Signing : Type 1 where
  pub Bytes : Type 0
  -- new TextEncoder().encode(text)
  pub utf8 : Text → Bytes
  -- Buffer.from(text, 'base64')
  pub base64 : Text → Bytes
  -- verify(null, message, spki, signature) with the key of the address; `none` is an exception
  pub ed25519 : Text → Bytes → Bytes → Option Bool
  -- `${issuedAt}`
  pub print : ℤ → Text

module _ (sg : Signing) where
  open sg use {Bytes, ed25519, print}

  unfoldable pub verify_ed25519 : Text → Bytes → Bytes → Bool
  verify_ed25519 signer message signature = elim (ed25519 signer message signature) [
    | some ok ↦ ok
    | none ↦ false
  ]

  unfoldable pub metadata_message : Text → ℤ → Text
  metadata_message vault issued_at =
      codes "FBYT vault profile\nvault: " ++ (vault ++ (codes "\nissued: " ++ print issued_at))
