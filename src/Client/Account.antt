-- ===== src/Client/Account.antt =====
-- The accounts that an instruction of the generated client is built with, and parsed into.
use fbyt.Base.{ℕ, String, Text, Bool, true, false, Option, none, some, List, codes}

-- An entry of `originalAccounts`: whether it is writable, and the address that it has if none is given.
pub record AccountField : Type 0 where
  pub name : String
  pub is_writable : Bool
  pub fallback : Option Text

abbrev pub writes : String → AccountField
writes n = record { name = n; is_writable = true; fallback = none }

abbrev pub reads : String → AccountField
reads n = record { name = n; is_writable = false; fallback = none }

abbrev pub reads_or : String → String → AccountField
reads_or n a = record { name = n; is_writable = false; fallback = some (codes a) }

-- The number of accounts that are needed, and the names that they get in turn.
pub record ParseTable : Type 0 where
  pub expected : ℕ
  pub names : List String
