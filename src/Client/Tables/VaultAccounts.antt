-- ===== src/Client/Tables/VaultAccounts.antt =====
-- The accounts of app/src/generated/instructions, from createVault on.
use fbyt.Base.{List, [], ◌∷◌}
use fbyt.Client.Account.{AccountField, ParseTable, reads, reads_or, writes}

abbrev pub create_vault_accounts : List AccountField
create_vault_accounts =
    writes "adminPool"
    ∷ writes "admin"
    ∷ writes "moneyManager"
    ∷ writes "moneyManagerPool"
    ∷ writes "vaultPool"
    ∷ writes "assetRegistry"
    ∷ reads "oraclePool"
    ∷ reads "priceUpdate"
    ∷ writes "tokenMint"
    ∷ reads_or "systemProgram" "11111111111111111111111111111111"
    ∷ []

abbrev pub create_vault_parsed : ParseTable
create_vault_parsed = record {
  expected = 10;
  names =
      "adminPool" ∷ "admin" ∷ "moneyManager" ∷ "moneyManagerPool" ∷ "vaultPool" ∷ "assetRegistry"
      ∷ "oraclePool" ∷ "priceUpdate" ∷ "tokenMint" ∷ "systemProgram" ∷ [];
}

abbrev pub deposit_token_fund_accounts : List AccountField
deposit_token_fund_accounts =
    writes "investor"
    ∷ reads "adminPool"
    ∷ writes "vaultPool"
    ∷ writes "assetRegistry"
    ∷ writes "investorPool"
    ∷ writes "oraclePool"
    ∷ writes "fromAccount"
    ∷ writes "toAccount"
    ∷ writes "tokenMint"
    ∷ reads "priceUpdate"
    ∷ reads_or "tokenProgram" "TokenkegQfeZyiNwAJbNbGKPFXCWuBvf9Ss623VQ5DA"
    ∷ reads_or "systemProgram" "11111111111111111111111111111111"
    ∷ []

abbrev pub deposit_token_fund_parsed : ParseTable
deposit_token_fund_parsed = record {
  expected = 12;
  names =
      "investor" ∷ "adminPool" ∷ "vaultPool" ∷ "assetRegistry" ∷ "investorPool" ∷ "oraclePool"
      ∷ "fromAccount" ∷ "toAccount" ∷ "tokenMint" ∷ "priceUpdate" ∷ "tokenProgram" ∷ "systemProgram"
      ∷ [];
}

abbrev pub get_price_info_accounts : List AccountField
get_price_info_accounts =
    writes "payer"
    ∷ reads "adminPool"
    ∷ writes "priceUpdate"
    ∷ reads_or "systemProgram" "11111111111111111111111111111111"
    ∷ []

abbrev pub get_price_info_parsed : ParseTable
get_price_info_parsed = record {
  expected = 4;
  names = "payer" ∷ "adminPool" ∷ "priceUpdate" ∷ "systemProgram" ∷ [];
}

abbrev pub revoke_trading_delegate_accounts : List AccountField
revoke_trading_delegate_accounts = writes "vaultPool" ∷ reads "moneyManager" ∷ []

abbrev pub revoke_trading_delegate_parsed : ParseTable
revoke_trading_delegate_parsed = record { expected = 2; names = "vaultPool" ∷ "moneyManager" ∷ [] }

abbrev pub set_trading_delegate_accounts : List AccountField
set_trading_delegate_accounts = writes "vaultPool" ∷ reads "moneyManager" ∷ []

abbrev pub set_trading_delegate_parsed : ParseTable
set_trading_delegate_parsed = record { expected = 2; names = "vaultPool" ∷ "moneyManager" ∷ [] }

abbrev pub swap_accounts : List AccountField
swap_accounts =
    writes "adminPool"
    ∷ writes "admin"
    ∷ writes "trader"
    ∷ writes "tokenMint"
    ∷ writes "vaultPool"
    ∷ writes "assetRegistry"
    ∷ reads "inputMint"
    ∷ reads "inputMintProgram"
    ∷ reads "outputMint"
    ∷ reads "outputMintProgram"
    ∷ writes "vaultInputTokenAccount"
    ∷ writes "vaultOutputTokenAccount"
    ∷ writes "oraclePoolFrom"
    ∷ writes "oraclePoolTo"
    ∷ reads "inputPriceUpdate"
    ∷ reads "outputPriceUpdate"
    ∷ reads_or "jupiterProgram" "JUP6LkbZbjS1jKKwapdHNy74zcZ3tLUZoi5QNyVTaV4"
    ∷ reads_or "systemProgram" "11111111111111111111111111111111"
    ∷ []

abbrev pub swap_parsed : ParseTable
swap_parsed = record {
  expected = 18;
  names =
      "adminPool" ∷ "admin" ∷ "trader" ∷ "tokenMint" ∷ "vaultPool" ∷ "assetRegistry" ∷ "inputMint"
      ∷ "inputMintProgram" ∷ "outputMint" ∷ "outputMintProgram" ∷ "vaultInputTokenAccount"
      ∷ "vaultOutputTokenAccount" ∷ "oraclePoolFrom" ∷ "oraclePoolTo" ∷ "inputPriceUpdate"
      ∷ "outputPriceUpdate" ∷ "jupiterProgram" ∷ "systemProgram" ∷ [];
}

abbrev pub update_oracle_pool_accounts : List AccountField
update_oracle_pool_accounts =
    writes "admin" ∷ writes "adminPool" ∷ writes "tokenMint" ∷ writes "oraclePool" ∷ []

abbrev pub update_oracle_pool_parsed : ParseTable
update_oracle_pool_parsed = record {
  expected = 4;
  names = "admin" ∷ "adminPool" ∷ "tokenMint" ∷ "oraclePool" ∷ [];
}

abbrev pub withdraw_money_management_fee_accounts : List AccountField
withdraw_money_management_fee_accounts =
    reads "adminPool"
    ∷ writes "operator"
    ∷ writes "vaultPool"
    ∷ reads "assetRegistry"
    ∷ reads_or "tokenProgram" "TokenkegQfeZyiNwAJbNbGKPFXCWuBvf9Ss623VQ5DA"
    ∷ reads_or "tokenProgram2022" "TokenzQdBNbLqP5VEhdkAS6EPFLC1PHnBqCXEpPxuEb"
    ∷ []

abbrev pub withdraw_money_management_fee_parsed : ParseTable
withdraw_money_management_fee_parsed = record {
  expected = 6;
  names =
      "adminPool" ∷ "operator" ∷ "vaultPool" ∷ "assetRegistry" ∷ "tokenProgram" ∷ "tokenProgram2022"
      ∷ [];
}

abbrev pub withdraw_token_fund_accounts : List AccountField
withdraw_token_fund_accounts =
    writes "investor"
    ∷ writes "moneyManager"
    ∷ reads "adminPool"
    ∷ writes "vaultPool"
    ∷ writes "assetRegistry"
    ∷ writes "investorPool"
    ∷ reads_or "tokenProgram" "TokenkegQfeZyiNwAJbNbGKPFXCWuBvf9Ss623VQ5DA"
    ∷ reads_or "tokenProgram2022" "TokenzQdBNbLqP5VEhdkAS6EPFLC1PHnBqCXEpPxuEb"
    ∷ reads_or "systemProgram" "11111111111111111111111111111111"
    ∷ []

abbrev pub withdraw_token_fund_parsed : ParseTable
withdraw_token_fund_parsed = record {
  expected = 9;
  names =
      "investor" ∷ "moneyManager" ∷ "adminPool" ∷ "vaultPool" ∷ "assetRegistry" ∷ "investorPool"
      ∷ "tokenProgram" ∷ "tokenProgram2022" ∷ "systemProgram" ∷ [];
}
