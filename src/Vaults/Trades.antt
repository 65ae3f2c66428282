-- ===== src/Vaults/Trades.antt =====
-- app/src/lib/trades.ts: the trades of a vault, from the logs of its transactions.
use fbyt.Base.{
  ℕ, Text, text_eq, Bool, false, Option, none, some, List, [], ◌∷◌, ◌++◌, codes, if◌then◌else◌,
}
use fbyt.Client.Codec.{Codecs, Object, Value, letters, lookup}
use fbyt.Client.Encoded.{decode_event}
use fbyt.Client.Events.{trading_event, event_discriminator}
use fbyt.Client.Kit.{is_prefix}
use fbyt.Http.{Response, json, fail}
use fbyt.Nav.Ledger.{Read, threw, got}
use fbyt.Uploads.DataUrl.{drop_prefix, payload_of}

-- A signature of getSignaturesForAddress.
pub record SignatureInfo : Type 0 where
  pub signature : Text
  pub failed : Bool
  pub block_time : Option ℕ

-- The calls of the chain: the signatures of an address, the latest first, and the logs of a transaction, which
-- are [] when there are none or when the call throws. `base64` is Buffer.from(text, 'base64').
pub record Logs : Type 0 where
  pub signatures : Text → ℕ → Read (List SignatureInfo)
  pub lines : Text → List Text
  pub base64 : Text → List ℕ

-- A trade. Its amounts stay the integers that are decoded, and its time the number of the chain: their
-- printing and the conversion of the time by `Number` are left out. Addresses are texts.
pub record Trade : Type 0 where
  pub signature : Text
  pub block_time : Option ℕ
  pub input_mint : Option Value
  pub output_mint : Option Value
  pub input_amount : Option Value
  pub output_amount : Option Value
  pub input_decimals : Option Value
  pub output_decimals : Option Value
  pub trader : Option Value

-- line.match(/^Program data: (.+)$/), its group
unfoldable pub program_data : Text → Option Text
unfolding drop_prefix payload_of
program_data line = elim (drop_prefix (codes "Program data: ") line) [
  | none ↦ none
  | some t ↦ payload_of t
]

unfoldable pub starts_with_discriminator : List ℕ → Bool
unfolding is_prefix
starts_with_discriminator b = is_prefix (event_discriminator trading_event) b

unfoldable pub is_of_vault : Object → Text → Bool
unfolding lookup
is_of_vault e vault = elim (lookup "vaultPool" e) [ some (letters t) ↦ text_eq t vault | _ ↦ false ]

unfoldable pub trade_of : SignatureInfo → Object → Trade
unfolding lookup
trade_of s e = record {
  signature = s.signature;
  block_time = s.block_time;
  input_mint = lookup "inputMint" e;
  output_mint = lookup "outputMint" e;
  input_amount = lookup "inputAmount" e;
  output_amount = lookup "outputAmount" e;
  input_decimals = lookup "inputMintDecimals" e;
  output_decimals = lookup "outputMintDecimals" e;
  trader = lookup "trader" e;
}

module _ (c : Codecs) (logs : Logs) (vault : Text) where
  open logs use {signatures, lines, base64}

  -- From `const bytes` on. An event that is not decoded is skipped.
  unfoldable pub trade_in : SignatureInfo → List ℕ → Option Trade
  unfolding starts_with_discriminator is_of_vault trade_of decode_event
  trade_in s b =
      if starts_with_discriminator b
      then elim (decode_event c trading_event b) [
        | none ↦ none
        | some e ↦ if is_of_vault e vault then some (trade_of s e) else none
      ]
      else none

  unfoldable pub read_line : SignatureInfo → Text → Option Trade
  unfolding program_data trade_in
  read_line s line = elim (program_data line) [ none ↦ none | some m ↦ trade_in s (base64 m) ]

  unfoldable pub read_lines : SignatureInfo → List Text → List Trade
  unfolding read_line
  read_lines s [] = []
  read_lines s (x ∷ xs) =
      let rest = read_lines s xs in elim (read_line s x) [ none ↦ rest | some t ↦ t ∷ rest ]

  unfoldable pub read_all : List SignatureInfo → List Trade
  unfolding read_lines
  read_all [] = []
  read_all (s ∷ ss) =
      let rest = read_all ss in if s.failed then rest else read_lines s (lines s.signature) ++ rest

  unfoldable pub fetch_trades : ℕ → Read (List Trade)
  unfolding read_all
  fetch_trades limit = elim (signatures vault limit) [ threw ↦ threw | got ss ↦ got (read_all ss) ]

  -- The route GET /api/vaults/[address]/trades, with the limit that `fetchTrades` has by itself.
  unfoldable pub show_trades : Response (List Trade)
  unfolding fetch_trades
  show_trades = elim (fetch_trades 25) [ threw ↦ fail 502 "exception" | got ts ↦ json ts ]
