-- ===== src/Client/Built.antt =====
-- An instruction that the generated client builds is parsed to what it was built from.
use fbyt.Base.{
  ℕ, ◌≡◌, ◌∙◌, refl, ap, sym, inl, inr, arith, String, Text, Bool, false, Option, none, some, List,
  [], ◌∷◌, ◌++◌, map, length, length-append, length-map, ltb, if◌then◌else◌, ◌+◌,
}
use fbyt.Client.Codec.{Codecs, AreStandard, Object, AllFit, picked, Option-values}
use fbyt.Client.Instructions.{ClientInstruction, instruction_discriminator}
use fbyt.Client.Layouts.Tables.{instruction_encoder}
use mathlib.Core.List.{append-nil}
use fbyt.Client.Encoded.{sealed, encode_instruction, decode_instruction}
use fbyt.Client.Account.{AccountField}
use fbyt.Client.Tables.All.{accounts_of, parsed_of, names-parsed, expected-parsed}
use fbyt.Client.Written.{instruction_read}

-- What is given for an account, an address or a signer, and the metas of getAccountMetaFactory.
pub record Metas : Type 1 where
  pub Given : Type 0
  pub Meta : Type 0
  pub at_address : Text → Given
  -- getAccountMetaFactory(programAddress, 'programId')(name, { value, isWritable })
  pub account_meta : Text → Option Given → Bool → Meta

pub record Built (M : Type 0) : Type 0 where
  pub program : Text
  pub accounts : List M
  pub payload : List ℕ

pub record Parsed (M : Type 0) : Type 0 where
  pub program : Text
  pub accounts : List (String × M)
  pub payload : Object

-- `getNextAccount` for each name
unfoldable pub take_names {ℓ} : {M : Type ℓ} → List String → List M → List (String × M)
take_names [] ms = []
take_names (n ∷ ns) [] = []
take_names (n ∷ ns) (m ∷ ms) = (n, m) ∷ take_names ns ms

module _ (mt : Metas) (c : Codecs) where
  open mt use {Given, Meta, at_address, account_meta}

  -- `input.name ?? null`, and the default value
  unfoldable pub given_of : (String → Option Given) → AccountField → Option Given
  given_of input f = elim (input f.name) [
    | some v ↦ some v
    | none ↦ elim f.fallback [ none ↦ none | some a ↦ some (at_address a) ]
  ]

  abbrev pub meta_of : Text → (String → Option Given) → AccountField → Meta
  meta_of program input f = account_meta program (given_of input f) f.is_writable

  unfoldable pub build_instruction :
      ClientInstruction → Text → (String → Option Given) → Object → Option (Built Meta)
  unfolding accounts_of given_of encode_instruction
  build_instruction i program input args = elim (encode_instruction c i args) [
    | none ↦ none
    | some b ↦ some (record {
      program = program;
      accounts = map (meta_of program input) (accounts_of i);
      payload = b;
    })
  ]

  unfoldable pub parse_instruction : ClientInstruction → Built Meta → Option (Parsed Meta)
  unfolding parsed_of take_names decode_instruction
  parse_instruction i ix =
      if ltb (length ix.accounts) (parsed_of i).expected
      then none
      else elim (decode_instruction c i ix.payload) [
        | none ↦ none
        | some o ↦ some (record {
          program = ix.program;
          accounts = take_names (parsed_of i).names ix.accounts;
          payload = o;
        })
      ]

take_names-map :
    {A M : Type 0} (name : A → String) (f : A → M) (fs : List A) (rest : List M)
    → take_names (map name fs) (map f fs ++ rest) ≡ map (λ x. (name x, f x)) fs
unfolding take_names
take_names-map name f [] rest = refl
take_names-map name f (x ∷ xs) rest =
    ap (λ (ys : List _). (name x, f x) ∷ ys) (take_names-map name f xs rest)

enough : (a b : ℕ) → ltb (a + b) a ≡ false
enough a b = ground arith

module _ (mt : Metas) (c : Codecs) where
  open mt use {Meta}

  parse_instruction-read :
      (i : ClientInstruction) (ix : Built Meta) (o : Object)
      → ltb (length ix.accounts) (parsed_of i).expected ≡ false
      → decode_instruction c i ix.payload ≡ some o
      → parse_instruction mt c i ix
        ≡ some (record {
          program = ix.program;
          accounts = take_names (parsed_of i).names ix.accounts;
          payload = o;
        })
  unfolding parse_instruction
  parse_instruction-read i ix o e f = ground (arith, e, f)

-- With standard codecs, an instruction that the client builds, with any accounts that are added after its own,
-- is parsed to the program, to each account under its name, as it was given or by its default, and to
-- the values of the fields of its data, provided that the values have the sizes of their fields.
pub parse-build_instruction :
    (mt : Metas) (c : Codecs)
    → AreStandard c
    → (i : ClientInstruction) (program : Text) (input : String → Option (Metas.Given mt))
      (args : Object) (ix : Built (Metas.Meta mt)) (more : List (Metas.Meta mt))
    → AllFit c (instruction_encoder i) (sealed (instruction_discriminator i) args)
    → build_instruction mt c i program input args ≡ some ix
    → parse_instruction mt c i (record ix { accounts = ix.accounts ++ more })
      ≡ some (record {
        program = program;
        accounts = map (λ f. (f.name, meta_of mt c program input f)) (accounts_of i);
        payload = picked (instruction_encoder i) (sealed (instruction_discriminator i) args);
      })
unfolding build_instruction
parse-build_instruction mt c std i program input args ix more fit h =
    elim (Option-values (encode_instruction c i args)) [
      | inl e ↦ absurd (ground (arith, h, e))
      | inr (b, e) ↦
          let metas = map (meta_of mt c program input) (accounts_of i) in
          let built : Built (Metas.Meta mt) = record {
            program = program;
            accounts = metas;
            payload = b;
          } in
          let ix_is : ix ≡ built = ground (arith, h, e) in
          let long : ltb (length (metas ++ more)) (parsed_of i).expected ≡ false =
            ap (ltb (length (metas ++ more))) (expected-parsed i)
            ∙ ap (λ (n : ℕ). ltb n (length (accounts_of i)))
                (length-append metas more
                  ∙ ap (λ (n : ℕ). n + length more)
                      (length-map (meta_of mt c program input) (accounts_of i)))
            ∙ enough (length (accounts_of i)) (length more) in
          let payload : Object =
            picked (instruction_encoder i) (sealed (instruction_discriminator i) args) in
          let read : decode_instruction c i b ≡ some payload =
            ap (decode_instruction c i) (sym (append-nil b))
            ∙ instruction_read c std i args b [] fit e in
          ap
            (λ (x : Built (Metas.Meta mt)).
              parse_instruction mt c i (record x { accounts = x.accounts ++ more }))
            ix_is
          ∙ parse_instruction-read mt c i (record built { accounts = metas ++ more }) payload long
              read
          ∙ ap
              (λ (ys : List (String × Metas.Meta mt)).
                some (record { program = program; accounts = ys; payload = payload }))
              (ap (λ (ns : List String). take_names ns (metas ++ more)) (names-parsed i)
                ∙ take_names-map (λ f. f.name) (meta_of mt c program input) (accounts_of i) more)
    ]
