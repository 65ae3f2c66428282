-- ===== src/Client/Examples.antt =====
-- A kit by the text of its laws, and the data of a swap, of a vault and of a trade.
use fbyt.Base.{
  String, Text, Bool, false, map, if◌then◌else◌, Option, none, drop, length, arith, codes, subst,
  take-append_self, ℕ, ◌≡◌, ◌↔◌, refl, List, [], ◌∷◌, ◌++◌, true, some, take, replicate,
}
use fbyt.Client.Kit.{Kit, IsStandardKit, is_prefix}
use fbyt.Client.Accounts.{ClientAccount, account_discriminator, identify_account}
use fbyt.Client.Events.{ClientEvent, event_discriminator, identify_event}
use fbyt.Client.Instructions.{
  ClientInstruction, set_trading_delegate, instruction_discriminator, identify_instruction,
}
use fbyt.Client.Known.{identify_iff}
use fbyt.Client.Codec.{
  Kind, u8, u64, address, fixed_bytes, Value, number, letters, bytes, Codecs, Fits, AreStandard,
  Object, AllFit, lookup, encode_struct, decode_struct, picked,
}
use fbyt.Client.Layouts.Tables.{instruction_encoder}
use fbyt.Client.Encoded.{
  sealed, instruction, layout_of, fields_of, encode_instruction, encode_item, decode_item, IsTaken,
}
use fbyt.Client.Written.{written_is_read}
use fbyt.Client.Tables.All.{accounts_of}
use fbyt.Client.Built.{
  Metas, Built, given_of, meta_of, build_instruction, parse_instruction, parse-build_instruction,
}
use text.Mathlib.Text.{◌==◌ as str_eq}
use fbyt.Base.Int.{pos}

abbrev plain : Kit
plain = record {
  contains_bytes = λ b bytes offset. is_prefix bytes b;
  fix_size = λ bytes n. take n (bytes ++ replicate n 0);
}

plain-IsStandardKit : IsStandardKit plain
plain-IsStandardKit = record { contains_at_start = λ b bytes. refl; fixed = λ bytes n. refl }

abbrev vault_bytes : List ℕ
vault_bytes = 64 ∷ 55 ∷ 145 ∷ 17 ∷ 146 ∷ 105 ∷ 18 ∷ 195 ∷ 254 ∷ []

identify_iff_example :
    ((a : ClientAccount)
      → (identify_account plain vault_bytes ≡ some a)
        ↔ (is_prefix (account_discriminator a) vault_bytes ≡ true))
    × ((e : ClientEvent)
        → (identify_event plain vault_bytes ≡ some e)
          ↔ (is_prefix (event_discriminator e) vault_bytes ≡ true))
    × ((i : ClientInstruction)
        → (identify_instruction plain vault_bytes ≡ some i)
          ↔ (is_prefix (instruction_discriminator i) vault_bytes ≡ true))
identify_iff_example = identify_iff plain plain-IsStandardKit vault_bytes

-- Codecs of bytes, addresses and small numbers, each address with its length before it.
unfoldable pub toy_encode : Kind → Value → Option (List ℕ)
toy_encode (fixed_bytes n) (bytes b) = some b
toy_encode address (letters t) = some (length t ∷ t)
toy_encode u64 (number (pos n)) = some (n ∷ [])
toy_encode u8 (number (pos n)) = some (n ∷ [])
toy_encode k v = none

unfoldable pub toy_decode : Kind → List ℕ → Option (Value × List ℕ)
toy_decode (fixed_bytes n) b = some (bytes (take n b), drop n b)
toy_decode address (n ∷ b) = some (letters (take n b), drop n b)
toy_decode u64 (n ∷ b) = some (number (pos n), b)
toy_decode u8 (n ∷ b) = some (number (pos n), b)
toy_decode k b = none

abbrev pub toy : Codecs
toy = record {
  encode = toy_encode;
  decode = toy_decode;
  struct_encode = encode_struct toy_encode;
  struct_decode = decode_struct toy_decode;
  add_prefix = λ d b. d ++ b;
  cut_prefix = λ d b. if is_prefix d b then some (drop (length d) b) else none;
  IsPlain = λ t. Unit;
}

drop_own : (b rest : List ℕ) → drop (length b) (b ++ rest) ≡ rest
drop_own [] rest = refl
drop_own (x ∷ xs) rest = ground (arith, drop_own xs rest)

toy_reads :
    (k : Kind) (v : Value) (b rest : List ℕ)
    → Fits toy k v
    → toy_encode k v ≡ some b
    → toy_decode k (b ++ rest) ≡ some (v, rest)
unfolding toy_encode toy_decode
toy_reads (fixed_bytes n) (bytes b) b' rest fit h =
    ground (arith, fit, h, take-append_self b rest, drop_own b rest)
toy_reads address (letters t) b rest fit h =
    ground (arith, h, take-append_self t rest, drop_own t rest)
toy_reads u64 (number (pos n)) b rest fit h = ground (arith, h)
toy_reads u8 (number (pos n)) b rest fit h = ground (arith, h)
toy_reads k v b rest fit h = cc

pub toy-AreStandard : AreStandard toy
unfolding toy_encode
toy-AreStandard = record {
  decode-encode = toy_reads;
  fixed_as_is = λ b. refl;
  struct_encoded = λ fs o. refl;
  struct_decoded = λ fs b. refl;
  prefix_added = λ d b. refl;
  prefix_cut = λ d b. refl;
}

abbrev delegated : Object
delegated = ("tradingDelegate", letters (codes "d")) ∷ []

abbrev delegated_bytes : List ℕ
delegated_bytes = 181 ∷ 195 ∷ 120 ∷ 236 ∷ 254 ∷ 84 ∷ 61 ∷ 77 ∷ 1 ∷ b'd' ∷ []

delegated_fits :
    AllFit toy
      (layout_of (instruction set_trading_delegate))
      (fields_of (instruction set_trading_delegate) delegated)
unfolding layout_of fields_of instruction_encoder lookup instruction_discriminator
delegated_fits = (
  λ v h.
      subst (Fits toy (fixed_bytes 8))
        (some_value (bytes (instruction_discriminator set_trading_delegate)) v h) refl,
  (λ v h. subst (Fits toy address) (some_value (letters (codes "d")) v h) tt, tt),
)
  where
    some_value : (a v : Value) → some a ≡ some v → a ≡ v
    some_value a v h = cc

writes : encode_item toy (instruction set_trading_delegate) delegated ≡ some delegated_bytes
unfolding encode_item encode_instruction encode_struct instruction_encoder lookup toy_encode
    instruction_discriminator
writes = refl

written_is_read_example :
    IsTaken plain (delegated_bytes ++ (7 ∷ [])) (instruction set_trading_delegate)
    × (decode_item toy (instruction set_trading_delegate) (delegated_bytes ++ (7 ∷ []))
        ≡ some (
            picked
              (layout_of (instruction set_trading_delegate))
              (fields_of (instruction set_trading_delegate) delegated)))
written_is_read_example =
    written_is_read plain plain-IsStandardKit toy toy-AreStandard (instruction set_trading_delegate)
      delegated delegated_bytes (7 ∷ []) delegated_fits writes

-- Metas that keep the program, the account and whether it is written.
abbrev metas : Metas
metas = record {
  Given = Text;
  Meta = Text × Option Text × Bool;
  at_address = λ a. a;
  account_meta = λ program given writes. (program, given, writes);
}

abbrev inputs : String → Option Text
inputs n = if str_eq n "vaultPool" then some (codes "v") else some (codes "m")

abbrev delegating : Built (Metas.Meta metas)
delegating = record {
  program = codes "fbyt";
  accounts = (codes "fbyt", some (codes "v"), true) ∷ (codes "fbyt", some (codes "m"), false) ∷ [];
  payload = delegated_bytes;
}

builds :
    build_instruction metas toy set_trading_delegate (codes "fbyt") inputs delegated
    ≡ some delegating
unfolding build_instruction accounts_of given_of encode_instruction encode_struct
    instruction_encoder lookup toy_encode instruction_discriminator
builds = refl

delegating_fits :
    AllFit toy
      (instruction_encoder set_trading_delegate)
      (sealed (instruction_discriminator set_trading_delegate) delegated)
unfolding layout_of fields_of
delegating_fits = delegated_fits

parse-build_instruction_example :
    parse_instruction metas toy set_trading_delegate
      (record delegating { accounts = delegating.accounts ++ ((codes "fbyt", none, false) ∷ []) })
    ≡ some (record {
      program = codes "fbyt";
      accounts =
          map
            (λ f. (f.name, meta_of metas toy (codes "fbyt") inputs f))
            (accounts_of set_trading_delegate);
      payload =
          picked
            (instruction_encoder set_trading_delegate)
            (sealed (instruction_discriminator set_trading_delegate) delegated);
    })
parse-build_instruction_example =
    parse-build_instruction metas toy toy-AreStandard set_trading_delegate (codes "fbyt") inputs
      delegated delegating ((codes "fbyt", none, false) ∷ []) delegating_fits builds
