-- ===== src/Client/Tables/PoolAccounts.antt =====
-- The accounts of app/src/generated/instructions, from approveOraclePool to createOraclePool.
use fbyt.Base.{List, [], ◌∷◌}
use fbyt.Client.Account.{AccountField, ParseTable, reads, reads_or, writes}

abbrev pub approve_oracle_pool_accounts : List AccountField
approve_oracle_pool_accounts =
    writes "admin" ∷ writes "adminPool" ∷ writes "tokenMint" ∷ writes "oraclePool" ∷ []

abbrev pub approve_oracle_pool_parsed : ParseTable
approve_oracle_pool_parsed = record {
  expected = 4;
  names = "admin" ∷ "adminPool" ∷ "tokenMint" ∷ "oraclePool" ∷ [];
}

abbrev pub close_oracle_pool_accounts : List AccountField
close_oracle_pool_accounts =
    writes "admin" ∷ writes "adminPool" ∷ writes "tokenMint" ∷ writes "oraclePool" ∷ []

abbrev pub close_oracle_pool_parsed : ParseTable
close_oracle_pool_parsed = record {
  expected = 4;
  names = "admin" ∷ "adminPool" ∷ "tokenMint" ∷ "oraclePool" ∷ [];
}

abbrev pub close_vault_accounts : List AccountField
close_vault_accounts =
    reads "adminPool" ∷ writes "vaultPool" ∷ writes "moneyManager" ∷ writes "tokenMint" ∷ []

abbrev pub close_vault_parsed : ParseTable
close_vault_parsed = record {
  expected = 4;
  names = "adminPool" ∷ "vaultPool" ∷ "moneyManager" ∷ "tokenMint" ∷ [];
}

abbrev pub create_admin_pool_accounts : List AccountField
create_admin_pool_accounts =
    writes "admin"
    ∷ writes "operator"
    ∷ reads_or "program" "3yw2g3VUUGy5vsgBgPaGomxQ95hwEhKprxbeeLhpza5Y"
    ∷ reads "programData"
    ∷ writes "adminPool"
    ∷ reads_or "systemProgram" "11111111111111111111111111111111"
    ∷ []

abbrev pub create_admin_pool_parsed : ParseTable
create_admin_pool_parsed = record {
  expected = 6;
  names = "admin" ∷ "operator" ∷ "program" ∷ "programData" ∷ "adminPool" ∷ "systemProgram" ∷ [];
}

abbrev pub create_investor_pool_accounts : List AccountField
create_investor_pool_accounts =
    writes "investor"
    ∷ reads "adminPool"
    ∷ writes "vaultPool"
    ∷ writes "tokenMint"
    ∷ writes "investorPool"
    ∷ reads_or "systemProgram" "11111111111111111111111111111111"
    ∷ []

abbrev pub create_investor_pool_parsed : ParseTable
create_investor_pool_parsed = record {
  expected = 6;
  names =
      "investor" ∷ "adminPool" ∷ "vaultPool" ∷ "tokenMint" ∷ "investorPool" ∷ "systemProgram" ∷ [];
}

abbrev pub create_money_manager_pool_accounts : List AccountField
create_money_manager_pool_accounts =
    reads "adminPool"
    ∷ writes "moneyManager"
    ∷ writes "moneyManagerPool"
    ∷ reads_or "systemProgram" "11111111111111111111111111111111"
    ∷ []

abbrev pub create_money_manager_pool_parsed : ParseTable
create_money_manager_pool_parsed = record {
  expected = 4;
  names = "adminPool" ∷ "moneyManager" ∷ "moneyManagerPool" ∷ "systemProgram" ∷ [];
}

abbrev pub create_oracle_pool_accounts : List AccountField
create_oracle_pool_accounts =
    writes "requester"
    ∷ writes "adminPool"
    ∷ writes "tokenMint"
    ∷ writes "oraclePool"
    ∷ reads_or "systemProgram" "11111111111111111111111111111111"
    ∷ []

abbrev pub create_oracle_pool_parsed : ParseTable
create_oracle_pool_parsed = record {
  expected = 5;
  names = "requester" ∷ "adminPool" ∷ "tokenMint" ∷ "oraclePool" ∷ "systemProgram" ∷ [];
}
