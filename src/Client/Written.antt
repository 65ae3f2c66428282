-- ===== src/Client/Written.antt =====
-- What the generated client writes it reads back, and takes for what it is.
use mathlib.Core.List.{append_assoc}
use fbyt.Base.{
  ℕ, ◌≡◌, ◌∙◌, refl, ap, sym, subst, inl, inr, arith, true, some, List, [], ◌∷◌, ◌++◌, drop, length,
}
use fbyt.Client.Kit.{Kit, IsStandardKit, is_prefix, prefix-append}
use fbyt.Client.Codec.{
  Codecs, AreStandard, Layout, Object, fixed_bytes, AllFit, picked, decode-encode_struct,
  encode_struct-starts, Option-values,
}
use fbyt.Client.Accounts.{ClientAccount, account_discriminator}
use fbyt.Client.Events.{ClientEvent, event_discriminator}
use fbyt.Client.Instructions.{ClientInstruction, instruction_discriminator}
use fbyt.Client.Known.{identify_iff}
use fbyt.Client.Layouts.Tables.{
  account_encoder, account_decoder, event_encoder, event_decoder, instruction_encoder,
  instruction_decoder,
}
use fbyt.Client.Layouts.Agree.{
  account_decoder-encoder, event_decoder-encoder, instruction_decoder-encoder,
  account_encoder-sealed, instruction_encoder-sealed,
}
use fbyt.Client.Encoded.{
  sealed, value_of, encode_account, decode_account, encode_event, decode_event, encode_instruction,
  decode_instruction, Item, account, event, instruction, layout_of, fields_of, encode_item,
  decode_item, IsTaken,
}

pub is_prefix-rest :
    (d b rest : List ℕ) → (r : List ℕ) × (b ≡ d ++ r) → is_prefix d (b ++ rest) ≡ true
is_prefix-rest d b rest (r, e) =
    subst (λ x. is_prefix d x ≡ true)
      (sym (ap (λ (x : List ℕ). x ++ rest) e ∙ append_assoc d r rest)) (prefix-append d (r ++ rest))

drop-length : (d b : List ℕ) → drop (length d) (d ++ b) ≡ b
drop-length [] b = refl
drop-length (x ∷ xs) b = ground (arith, drop-length xs b)

module _ (c : Codecs) (std : AreStandard c) where
  struct_read :
      (fs gs : Layout) (o : Object) (b rest : List ℕ)
      → gs ≡ fs
      → AllFit c fs o
      → c.struct_encode fs o ≡ some b
      → value_of (c.struct_decode gs (b ++ rest)) ≡ some (picked fs o)
  struct_read fs gs o b rest same fit h =
      ap (λ (ls : Layout). value_of (c.struct_decode ls (b ++ rest))) same
      ∙ ap value_of (
          std.struct_decoded fs (b ++ rest)
          ∙ decode-encode_struct c std fs o b rest fit (sym (std.struct_encoded fs o) ∙ h))

  sealed_starts :
      (d : List ℕ) (ls : Layout) (o : Object) (b : List ℕ)
      → (fs : Layout) × (ls ≡ ("discriminator", fixed_bytes (length d)) ∷ fs)
      → c.struct_encode ls (sealed d o) ≡ some b
      → (r : List ℕ) × (b ≡ d ++ r)
  sealed_starts d ls o b (fs, e) h = encode_struct-starts c std "discriminator" d fs o b (
      sym (std.struct_encoded (("discriminator", fixed_bytes (length d)) ∷ fs) (sealed d o))
      ∙ ap (λ (x : Layout). c.struct_encode x (sealed d o)) (sym e)
      ∙ h)

  account_read :
      (a : ClientAccount) (o : Object) (b rest : List ℕ)
      → AllFit c (account_encoder a) (sealed (account_discriminator a) o)
      → encode_account c a o ≡ some b
      → decode_account c a (b ++ rest)
        ≡ some (picked (account_encoder a) (sealed (account_discriminator a) o))
  unfolding encode_account decode_account
  account_read a o b rest fit h =
      struct_read (account_encoder a) (account_decoder a) (sealed (account_discriminator a) o) b
        rest (account_decoder-encoder a) fit h

  pub instruction_read :
      (i : ClientInstruction) (o : Object) (b rest : List ℕ)
      → AllFit c (instruction_encoder i) (sealed (instruction_discriminator i) o)
      → encode_instruction c i o ≡ some b
      → decode_instruction c i (b ++ rest)
        ≡ some (picked (instruction_encoder i) (sealed (instruction_discriminator i) o))
  unfolding encode_instruction decode_instruction
  instruction_read i o b rest fit h =
      struct_read (instruction_encoder i) (instruction_decoder i)
        (sealed (instruction_discriminator i) o) b rest (instruction_decoder-encoder i) fit h

  account_starts :
      (a : ClientAccount) (o : Object) (b : List ℕ)
      → encode_account c a o ≡ some b
      → (r : List ℕ) × (b ≡ account_discriminator a ++ r)
  unfolding encode_account
  account_starts a o b h =
      sealed_starts (account_discriminator a) (account_encoder a) o b (account_encoder-sealed a) h

  instruction_starts :
      (i : ClientInstruction) (o : Object) (b : List ℕ)
      → encode_instruction c i o ≡ some b
      → (r : List ℕ) × (b ≡ instruction_discriminator i ++ r)
  unfolding encode_instruction
  instruction_starts i o b h =
      sealed_starts (instruction_discriminator i) (instruction_encoder i) o b
        (instruction_encoder-sealed i) h

  pub event_body :
      (e : ClientEvent) (o : Object) (b : List ℕ)
      → encode_event c e o ≡ some b
      → (r : List ℕ) × (c.struct_encode (event_encoder e) o ≡ some r)
        × (b ≡ event_discriminator e ++ r)
  unfolding encode_event
  event_body e o b h = elim (Option-values (c.struct_encode (event_encoder e) o)) [
    | inl f ↦ absurd (ground (arith, h, f))
    | inr (r, f) ↦ (r, f, ground (arith, h, f, std.prefix_added (event_discriminator e) r))
  ]

  pub event_read :
      (e : ClientEvent) (o : Object) (b rest : List ℕ)
      → AllFit c (event_encoder e) o
      → encode_event c e o ≡ some b
      → decode_event c e (b ++ rest) ≡ some (picked (event_encoder e) o)
  unfolding decode_event
  event_read e o b rest fit h =
      let (r, f, b_is) = event_body e o b h in
      let d = event_discriminator e in
      let left : drop (length d) (b ++ rest) ≡ r ++ rest =
        ap (λ (x : List ℕ). drop (length d) (x ++ rest)) b_is
        ∙ ap (drop (length d)) (append_assoc d r rest)
        ∙ drop-length d (r ++ rest) in
      let cut : c.cut_prefix d (b ++ rest) ≡ some (r ++ rest) =
        std.prefix_cut d (b ++ rest) ∙ ground (arith, is_prefix-rest d b rest (r, b_is), left) in
      rw (cut, decode_event)
        (struct_read (event_encoder e) (event_decoder e) o r rest (event_decoder-encoder e) fit f)

-- With a standard kit and standard codecs: what the client writes of an account, an event or the data of an
-- instruction, whatever bytes follow, it takes for this account, event or instruction, and it reads all its
-- fields back with their values, provided that the values have the sizes of their fields.
pub written_is_read :
    (kit : Kit)
    → IsStandardKit kit
    → (c : Codecs) → AreStandard c
    → (x : Item) (o : Object) (b rest : List ℕ) → AllFit c (layout_of x) (fields_of x o)
    → encode_item c x o ≡ some b
    → IsTaken kit (b ++ rest) x
      × (decode_item c x (b ++ rest) ≡ some (picked (layout_of x) (fields_of x o)))
unfolding layout_of fields_of encode_item decode_item IsTaken
written_is_read kit kit_std c std (account a) o b rest fit h = (
  ((identify_iff kit kit_std (b ++ rest)).0 a).1
      (is_prefix-rest (account_discriminator a) b rest (account_starts c std a o b h)),
  account_read c std a o b rest fit h,
)
written_is_read kit kit_std c std (event e) o b rest fit h =
    let (r, _, b_is) = event_body c std e o b h in
    (
      ((identify_iff kit kit_std (b ++ rest)).1 e).1
          (is_prefix-rest (event_discriminator e) b rest (r, b_is)),
      event_read c std e o b rest fit h,
    )
written_is_read kit kit_std c std (instruction i) o b rest fit h = (
  ((identify_iff kit kit_std (b ++ rest)).2 i).1
      (is_prefix-rest (instruction_discriminator i) b rest (instruction_starts c std i o b h)),
  instruction_read c std i o b rest fit h,
)
