-- ===== src/Client/Encoded.antt =====
-- What the generated client writes of an account, an event or the data of an instruction, it reads back.
use fbyt.Base.{ℕ, ◌≡◌, Option, none, some, List, ◌∷◌}
use fbyt.Client.Kit.{Kit}
use fbyt.Client.Codec.{Codecs, Layout, Object, bytes}
use fbyt.Client.Accounts.{ClientAccount, account_discriminator, identify_account}
use fbyt.Client.Events.{ClientEvent, event_discriminator, identify_event}
use fbyt.Client.Instructions.{ClientInstruction, instruction_discriminator, identify_instruction}
use fbyt.Client.Layouts.Tables.{
  account_encoder, account_decoder, event_encoder, event_decoder, instruction_encoder,
  instruction_decoder,
}

-- `{ ...value, discriminator }`, for the fields that an encoder looks up
abbrev pub sealed : List ℕ → Object → Object
sealed d o = ("discriminator", bytes d) ∷ o

abbrev pub value_of : Option (Object × List ℕ) → Option Object
value_of none = none
value_of (some (o, left)) = some o

module _ (c : Codecs) where
  unfoldable pub encode_account : ClientAccount → Object → Option (List ℕ)
  unfolding account_encoder
  encode_account a o = c.struct_encode (account_encoder a) (sealed (account_discriminator a) o)

  unfoldable pub decode_account : ClientAccount → List ℕ → Option Object
  unfolding account_decoder
  decode_account a b = value_of (c.struct_decode (account_decoder a) b)

  unfoldable pub encode_event : ClientEvent → Object → Option (List ℕ)
  unfolding event_encoder
  encode_event e o = elim (c.struct_encode (event_encoder e) o) [
    | none ↦ none
    | some b ↦ some (c.add_prefix (event_discriminator e) b)
  ]

  unfoldable pub decode_event : ClientEvent → List ℕ → Option Object
  unfolding event_decoder
  decode_event e b = elim (c.cut_prefix (event_discriminator e) b) [
    | none ↦ none
    | some rest ↦ value_of (c.struct_decode (event_decoder e) rest)
  ]

  unfoldable pub encode_instruction : ClientInstruction → Object → Option (List ℕ)
  unfolding instruction_encoder
  encode_instruction i o =
      c.struct_encode (instruction_encoder i) (sealed (instruction_discriminator i) o)

  unfoldable pub decode_instruction : ClientInstruction → List ℕ → Option Object
  unfolding instruction_decoder
  decode_instruction i b = value_of (c.struct_decode (instruction_decoder i) b)

-- What the client writes and reads: an account, an event, or the data of an instruction.
pub data Item : Type 0 where
  account : ClientAccount → Item
  event : ClientEvent → Item
  instruction : ClientInstruction → Item

unfoldable pub layout_of : Item → Layout
unfolding account_encoder event_encoder instruction_encoder
layout_of (account a) = account_encoder a
layout_of (event e) = event_encoder e
layout_of (instruction i) = instruction_encoder i

-- The fields that are written: the discriminator of an event is no field.
unfoldable pub fields_of : Item → Object → Object
fields_of (account a) o = sealed (account_discriminator a) o
fields_of (event e) o = o
fields_of (instruction i) o = sealed (instruction_discriminator i) o

module _ (c : Codecs) where
  unfoldable pub encode_item : Item → Object → Option (List ℕ)
  unfolding encode_account encode_event encode_instruction
  encode_item (account a) o = encode_account c a o
  encode_item (event e) o = encode_event c e o
  encode_item (instruction i) o = encode_instruction c i o

  unfoldable pub decode_item : Item → List ℕ → Option Object
  unfolding decode_account decode_event decode_instruction
  decode_item (account a) b = decode_account c a b
  decode_item (event e) b = decode_event c e b
  decode_item (instruction i) b = decode_instruction c i b

-- The client takes the bytes for the item.
unfoldable pub IsTaken : Kit → List ℕ → Item → Type 0
IsTaken kit b (account a) = identify_account kit b ≡ some a
IsTaken kit b (event e) = identify_event kit b ≡ some e
IsTaken kit b (instruction i) = identify_instruction kit b ≡ some i
