-- ===== src/Vaults/Logged.antt =====
-- A trade that the program logs is read from the log.
use text.Mathlib.Text.{◌==◌ as str_eq}
use text.Mathlib.TextEquality.{eq_iff}
use fbyt.Base.{
  ℕ, ◌≡◌, ◌∙◌, refl, arith, String, Text, text_eq, Bool, true, false, Option, none, some, List, [],
  ◌∷◌, ◌++◌, codes, if◌then◌else◌,
}
use fbyt.Client.Codec.{Codecs, AreStandard, Layout, Object, Value, letters, lookup, AllFit, picked}
use fbyt.Client.Encoded.{encode_event}
use fbyt.Client.Events.{trading_event, event_discriminator}
use fbyt.Client.Layouts.Tables.{event_encoder}
use fbyt.Client.Layouts.VaultEvents.{trading_event_encoder}
use fbyt.Client.Written.{event_read, event_body, is_prefix-rest}
use fbyt.Uploads.DataUrl.{drop_prefix, payload_of}
use fbyt.Vaults.Trades.{
  SignatureInfo, Logs, Trade, program_data, starts_with_discriminator, is_of_vault, trade_of,
  trade_in, read_line,
}

drop_prefix-append : (p t : Text) → drop_prefix p (p ++ t) ≡ some t
unfolding drop_prefix
drop_prefix-append [] t = refl
drop_prefix-append (x ∷ xs) t = ground (arith, drop_prefix-append xs t)

abbrev has_field : String → Layout → Bool
has_field k [] = false
has_field k ((n, kind) ∷ fs) = if str_eq n k then true else has_field k fs

lookup-picked_missing :
    (k : String) (fs : Layout) (o : Object) → lookup k o ≡ none → lookup k (picked fs o) ≡ none
unfolding picked lookup
lookup-picked_missing k [] o h = refl
lookup-picked_missing k ((n, kind) ∷ fs) o h =
    ground (arith, h, lookup-picked_missing k fs o h, eq_iff n k)

-- The fields of a layout are those of the object that is encoded.
lookup-picked :
    (k : String) (fs : Layout) (o : Object)
    → has_field k fs ≡ true
    → lookup k (picked fs o) ≡ lookup k o
unfolding picked lookup
lookup-picked k [] o h = cc
lookup-picked k ((n, kind) ∷ fs) o h =
    ground (arith, h, lookup-picked k fs o, lookup-picked_missing k fs o, eq_iff n k)

abbrev of_event : SignatureInfo → Object → Trade
of_event s o = record {
  signature = s.signature;
  block_time = s.block_time;
  input_mint = lookup "inputMint" o;
  output_mint = lookup "outputMint" o;
  input_amount = lookup "inputAmount" o;
  output_amount = lookup "outputAmount" o;
  input_decimals = lookup "inputMintDecimals" o;
  output_decimals = lookup "outputMintDecimals" o;
  trader = lookup "trader" o;
}

trade_of-picked :
    (s : SignatureInfo) (o : Object)
    → trade_of s (picked (event_encoder trading_event) o) ≡ of_event s o
unfolding trade_of event_encoder
trade_of-picked s o =
    let at : (k : String)
        → has_field k trading_event_encoder ≡ true
        → lookup k (picked trading_event_encoder o) ≡ lookup k o =
      λ k h. lookup-picked k trading_event_encoder o h in
    rw
      (
        at "inputMint" refl,
        at "outputMint" refl,
        at "inputAmount" refl,
        at "outputAmount" refl,
        at "inputMintDecimals" refl,
        at "outputMintDecimals" refl,
        at "trader" refl,
      )
      refl

is_of_vault-picked :
    (o : Object) (v vault : Text)
    → lookup "vaultPool" o ≡ some (letters v)
    → is_of_vault (picked (event_encoder trading_event) o) vault ≡ text_eq v vault
unfolding is_of_vault event_encoder
is_of_vault-picked o v vault h =
    let e : lookup "vaultPool" (picked trading_event_encoder o) ≡ some (letters v) =
      lookup-picked "vaultPool" trading_event_encoder o refl ∙ h in
    at (lookup "vaultPool" (picked trading_event_encoder o)) e
  where
    at :
        (x : Option Value)
        → x ≡ some (letters v)
        → elim x [ some (letters t) ↦ text_eq t vault | _ ↦ false ] ≡ text_eq v vault
    at x e = rw e refl

-- With standard codecs: from a line of a log that carries a trading event as the client writes it, whatever
-- bytes follow it, a trade is read if the event is of the vault, and nothing if it is of another one. The
-- trade has the event's mints, amounts, decimals and trader, and the signature and time of the transaction.
-- The text of the line is not empty and has no line end, and the values have the sizes of their fields.
pub read_line-logged :
    (c : Codecs)
    → AreStandard c
    → (logs : Logs) (vault v : Text) (s : SignatureInfo) (o : Object) (b rest : List ℕ) (p : Text)
    → AllFit c (event_encoder trading_event) o
    → encode_event c trading_event o ≡ some b
    → lookup "vaultPool" o ≡ some (letters v)
    → logs.base64 p ≡ b ++ rest
    → payload_of p ≡ some p
    → read_line c logs vault s (codes "Program data: " ++ p) ≡ (
        if text_eq v vault
        then some (record {
          signature = s.signature;
          block_time = s.block_time;
          input_mint = lookup "inputMint" o;
          output_mint = lookup "outputMint" o;
          input_amount = lookup "inputAmount" o;
          output_amount = lookup "outputAmount" o;
          input_decimals = lookup "inputMintDecimals" o;
          output_decimals = lookup "outputMintDecimals" o;
          trader = lookup "trader" o;
        })
        else none)
unfolding read_line program_data trade_in starts_with_discriminator
read_line-logged c std logs vault v s o b rest p fit written of encoded plain =
    let (r, _, b_is) = event_body c std trading_event o b written in
    let d = event_discriminator trading_event in
    ground (
      arith,
      drop_prefix-append (codes "Program data: ") p,
      plain,
      encoded,
      is_prefix-rest d b rest (r, b_is),
      event_read c std trading_event o b rest fit written,
      trade_of-picked s o,
      is_of_vault-picked o v vault of,
    )
