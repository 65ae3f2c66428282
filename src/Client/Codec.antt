-- ===== src/Client/Codec.antt =====
-- The codecs of @solana/kit that the generated client puts together, as a parameter, and its structs.
use text.Mathlib.Text.{◌==◌ as str_eq}
use fbyt.Base.{
  ℕ, ◌≡◌, ◌⊎◌, ◌∙◌, refl, ap, inl, inr, arith, String, Text, Bool, Option, none, some, List, [],
  ◌∷◌, ◌++◌, length, drop, if◌then◌else◌,
}
use text.Mathlib.TextEquality.{eq_iff}
use fbyt.Base.Int.{ℤ}
use fbyt.Client.Kit.{is_prefix}
use mathlib.Core.List.{append_assoc}

-- getU8Encoder and so on, fixEncoderSize(getBytesEncoder(), n), addEncoderSizePrefix(getUtf8Encoder(),
-- getU32Encoder()), the same of bytes, getArrayEncoder(getU64Encoder(), { size: n }), and
-- getArrayEncoder(getAddressEncoder()); and their decoders.
pub data Kind : Type 0 where
  u8 u16 u32 u64 i32 i64 boolean address utf8 prefixed_bytes addresses : Kind
  fixed_bytes u64_array : ℕ → Kind

pub data Value : Type 0 where
  number : ℤ → Value
  flag : Bool → Value
  letters : Text → Value
  bytes : List ℕ → Value
  numbers : List ℤ → Value
  texts : List Text → Value

abbrev pub Field : Type 0
Field = String × Kind

abbrev pub Layout : Type 0
Layout = List Field

abbrev pub Object : Type 0
Object = List (String × Value)

unfoldable pub lookup : String → Object → Option Value
lookup k [] = none
lookup k ((n, v) ∷ o) = let rest = lookup k o in if str_eq n k then some v else rest

-- The fields one after the other, by the codecs of their kinds.
module _ (encode : Kind → Value → Option (List ℕ)) where
  unfoldable pub encode_struct : Layout → Object → Option (List ℕ)
  unfolding lookup
  encode_struct [] o = some []
  encode_struct ((n, k) ∷ fs) o = elim (lookup n o) [
    | none ↦ none
    | some v ↦ elim (encode k v) [
      | none ↦ none
      | some b ↦ elim (encode_struct fs o) [ none ↦ none | some r ↦ some (b ++ r) ]
    ]
  ]

module _ (decode : Kind → List ℕ → Option (Value × List ℕ)) where
  unfoldable pub decode_struct : Layout → List ℕ → Option (Object × List ℕ)
  decode_struct [] b = some ([], b)
  decode_struct ((n, k) ∷ fs) b = elim (decode k b) [
    | none ↦ none
    | some (v, rest) ↦ elim (decode_struct fs rest) [
      | none ↦ none
      | some (o, left) ↦ some ((n, v) ∷ o, left)
    ]
  ]

-- An encoder throws on a value that is not in its range, and a decoder on bytes that are missing.
pub record Codecs : Type 1 where
  pub encode : Kind → Value → Option (List ℕ)
  pub decode : Kind → List ℕ → Option (Value × List ℕ)
  -- getStructEncoder(fields).encode(value), and getStructDecoder(fields) with what it leaves
  pub struct_encode : Layout → Object → Option (List ℕ)
  pub struct_decode : Layout → List ℕ → Option (Object × List ℕ)
  -- getHiddenPrefixEncoder and getHiddenPrefixDecoder, with a constant for a prefix: the decoder throws without it
  pub add_prefix : List ℕ → List ℕ → List ℕ
  pub cut_prefix : List ℕ → List ℕ → Option (List ℕ)
  -- A text that UTF-8 keeps: no half of a surrogate pair, and no NUL, which the decoder removes.
  pub IsPlain : Text → Type 0

-- A value that a codec does not cut, fill or clean.
abbrev pub Fits : Codecs → Kind → Value → Type 0
Fits c (fixed_bytes n) (bytes b) = length b ≡ n
Fits c utf8 (letters t) = c.IsPlain t
Fits c k v = Unit

-- Documented behaviour: a decoder reads what the encoder of its kind has written and leaves what follows, bytes of
-- the fixed size are written as they are, a struct is its fields one after the other, and a hidden prefix
-- stands before what it hides.
pub record AreStandard (c : Codecs) : Type 0 where
  pub decode-encode :
      (k : Kind) (v : Value) (b rest : List ℕ)
      → Fits c k v
      → c.encode k v ≡ some b
      → c.decode k (b ++ rest) ≡ some (v, rest)
  pub fixed_as_is : (b : List ℕ) → c.encode (fixed_bytes (length b)) (bytes b) ≡ some b
  pub struct_encoded :
      (fs : Layout) (o : Object) → c.struct_encode fs o ≡ encode_struct c.encode fs o
  pub struct_decoded :
      (fs : Layout) (b : List ℕ) → c.struct_decode fs b ≡ decode_struct c.decode fs b
  pub prefix_added : (d b : List ℕ) → c.add_prefix d b ≡ d ++ b
  pub prefix_cut :
      (d b : List ℕ) → c.cut_prefix d b ≡ (if is_prefix d b then some (drop (length d) b) else none)

-- The values of the fields fit.
abbrev pub AllFit : Codecs → Layout → Object → Type 0
AllFit c [] o = Unit
AllFit c ((n, k) ∷ fs) o = ((v : Value) → lookup n o ≡ some v → Fits c k v) × AllFit c fs o

-- The fields of a layout, with the values of an object.
unfoldable pub picked : Layout → Object → Object
unfolding lookup
picked [] o = []
picked ((n, k) ∷ fs) o = elim (lookup n o) [ none ↦ picked fs o | some v ↦ (n, v) ∷ picked fs o ]

pub Option-values {ℓ} : {A : Type ℓ} → (o : Option A) → (o ≡ none) ⊎ ((a : A) × (o ≡ some a))
Option-values none = inl refl
Option-values (some a) = inr (a, refl)

-- A struct that is encoded is decoded to the values of its fields, and what follows is left.
pub decode-encode_struct :
    (c : Codecs)
    → AreStandard c
    → (fs : Layout) (o : Object) (b rest : List ℕ) → AllFit c fs o
    → encode_struct c.encode fs o ≡ some b
    → decode_struct c.decode fs (b ++ rest) ≡ some (picked fs o, rest)
unfolding encode_struct decode_struct picked
decode-encode_struct c std [] o b rest fit h = ground arith
decode-encode_struct c std ((n, k) ∷ fs) o b rest (fit, fits) h =
    elim (Option-values (lookup n o)) [
      | inl e ↦ absurd (ground (arith, h, e))
      | inr (v, e) ↦ elim (Option-values (c.encode k v)) [
        | inl f ↦ absurd (ground (arith, h, e, f))
        | inr (x, f) ↦ elim (Option-values (encode_struct c.encode fs o)) [
          | inl g ↦ absurd (ground (arith, h, e, f, g))
          | inr (y, g) ↦
              let b_is : b ≡ x ++ y = ground (arith, h, e, f, g) in
              let at : b ++ rest ≡ x ++ (y ++ rest) =
                ap (λ (z : List ℕ). z ++ rest) b_is ∙ append_assoc x y rest in
              rw at (
                ground (
                  arith,
                  e,
                  std.decode-encode k v x (y ++ rest) (fit v e) f,
                  decode-encode_struct c std fs o y rest fits g,
                ))
        ]
      ]
    ]

-- What a struct that starts with bytes of a fixed size is encoded to starts with them.
pub encode_struct-starts :
    (c : Codecs)
    → AreStandard c
    → (n : String) (d : List ℕ) (fs : Layout) (o : Object) (b : List ℕ)
    → encode_struct c.encode ((n, fixed_bytes (length d)) ∷ fs) ((n, bytes d) ∷ o) ≡ some b
    → (r : List ℕ) × (b ≡ d ++ r)
unfolding encode_struct lookup
encode_struct-starts c std n d fs o b h =
    elim (Option-values (encode_struct c.encode fs ((n, bytes d) ∷ o))) [
      | inl e ↦ absurd (ground (arith, h, e, std.fixed_as_is d, eq_iff n n))
      | inr (r, e) ↦ (r, ground (arith, h, e, std.fixed_as_is d, eq_iff n n))
    ]
