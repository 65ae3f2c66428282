-- ===== src/Http/Laws.antt =====
-- Reasoning about handlers: a response that is no early return, and state that is left alone.
use fbyt.Base.{
  ℕ, ◌≡◌, ◌≢◌, refl, sym, ap, subst, String, Text, ◌⊎◌, inl, inr, Option, none, some, arith, [],
  ◌∷◌,
}
use fbyt.Guard.Request.{Request, Limits}
use fbyt.Http.{
  Platform, Server, Handler, Response, json, fail, thrown, limited, signed_in, current_user,
  user_of, ◌>>=◌,
}

pub Response-cases {ℓ} :
    {A : Type ℓ} (r : Response A)
    → ((a : A) × (r ≡ json a)) ⊎ ((n : ℕ) × (m : String) × (r ≡ fail n m)) ⊎ (r ≡ thrown)
Response-cases (json a) = inl (a, refl)
Response-cases (fail n m) = inr (inl (n, m, refl))
Response-cases thrown = inr (inr refl)

module _ {pf : Platform} {A B : Type 0} (m : Handler pf A) (f : A → Handler pf B)
    (s : Server pf) where
  -- A chain that answers with a body has run to its end.
  pub >>=-json :
      (b : B)
      → ((m >>= f) s).1 ≡ json b
      → (a : A) × ((m s).1 ≡ json a)
        × ((f a (m s).0).1 ≡ json b)
        × (((m >>= f) s).0 ≡ (f a (m s).0).0)
  >>=-json b h = elim (Response-cases (m s).1) [
    | inl (a, e) ↦ (a, e, ground (arith, e), ground (arith, e))
    | inr (inl (n, t, e)) ↦ absurd (ground (arith, e))
    | inr (inr e) ↦ absurd (ground (arith, e))
  ]

-- A first part that has a body is followed by the rest.
pub >>=-run :
    {pf : Platform} {A B : Type 0} (m : Handler pf A) (f : A → Handler pf B) (s : Server pf) (a : A)
    → (m s).1 ≡ json a
    → ((m >>= f) s).1 ≡ (f a (m s).0).1
>>=-run m f s a e = ground (arith, e)

-- The guard touches no document.
pub limited-db :
    {pf : Platform} (req : Request) (now : ℕ) (opts : Limits) (s : Server pf)
    → (limited req now opts s).0.db ≡ s.db
unfolding limited
limited-db req now opts s = refl

pub signed_in-db :
    {pf : Platform} (req : Request) (now : ℕ) (s : Server pf) → (signed_in req now s).0.db ≡ s.db
unfolding signed_in
signed_in-db req now s = refl

-- `signed_in` answers with the address that the session cookie stands for, and changes nothing.
pub signed_in-json :
    {pf : Platform} (req : Request) (now : ℕ) (s : Server pf) (me : Text)
    → (signed_in req now s).1 ≡ json me
    → current_user pf req now ≡ some (some me)
unfolding signed_in
signed_in-json {pf} req now s me h = named (current_user pf req now) h
  where
    named : (o : Option (Option Text)) → user_of o ≡ json me → o ≡ some (some me)
    named none h = cc
    named (some none) h = cc
    named (some (some [])) h = cc
    named (some (some (c ∷ cs))) h = cc

pub signed_in-run :
    {pf : Platform} (req : Request) (now : ℕ) (s : Server pf) (me : Text)
    → me ≢ []
    → current_user pf req now ≡ some (some me)
    → (signed_in req now s).1 ≡ json me
unfolding signed_in
signed_in-run req now s [] n e = absurd (n refl)
signed_in-run req now s (c ∷ cs) n e = ap user_of e

pub signed_in-nonempty :
    {pf : Platform} (req : Request) (now : ℕ) (s : Server pf) (me : Text)
    → (signed_in req now s).1 ≡ json me
    → me ≢ []
unfolding signed_in
signed_in-nonempty {pf} req now s me h e = named (current_user pf req now) h
  where
    named : (o : Option (Option Text)) → user_of o ≡ json me → ⊥
    named none h = cc
    named (some none) h = cc
    named (some (some [])) h = cc
    named (some (some (c ∷ cs))) h = cc

-- A handler keeps a property of the state, however it answers.
pub record Keeps {pf : Platform} {A : Type 0} (P : Server pf → Type 0) (m : Handler pf A)
    : Type 0 where
  pub at : (s : Server pf) → P s → P (m s).0

module _ {pf : Platform} {A B : Type 0} (m : Handler pf A) (f : A → Handler pf B) where
  bound : (s : Server pf) (a : A) → (m s).1 ≡ json a → ((m >>= f) s).0 ≡ (f a (m s).0).0
  bound s a e = ground (arith, e)

  stopped_fail :
      (s : Server pf) (n : ℕ) (t : String) → (m s).1 ≡ fail n t → ((m >>= f) s).0 ≡ (m s).0
  stopped_fail s n t e = ground (arith, e)

  stopped_thrown : (s : Server pf) → (m s).1 ≡ thrown → ((m >>= f) s).0 ≡ (m s).0
  stopped_thrown s e = ground (arith, e)

  pub Keeps-bind :
      {P : Server pf → Type 0} → Keeps P m → ((a : A) → Keeps P (f a)) → Keeps P (m >>= f)
  Keeps-bind {P} k kf = record {
    at = λ s h. elim (Response-cases (m s).1) [
      | inl (a, e) ↦ subst P (sym (bound s a e)) ((kf a).at (m s).0 (k.at s h))
      | inr (inl (n, t, e)) ↦ subst P (sym (stopped_fail s n t e)) (k.at s h)
      | inr (inr e) ↦ subst P (sym (stopped_thrown s e)) (k.at s h)
    ];
  }

  -- A chain whose first part has no body ends with that part.
  pub answers_or_stops :
      (s : Server pf) → ((a : A) × ((m s).1 ≡ json a)) ⊎ (((m >>= f) s).0 ≡ (m s).0)
  answers_or_stops s = elim (Response-cases (m s).1) [
    | inl y ↦ inl y
    | inr (inl (n, t, e)) ↦ inr (stopped_fail s n t e)
    | inr (inr e) ↦ inr (stopped_thrown s e)
  ]

-- The answer of a chain depends on the answers of what follows.
pub >>=-answer :
    {pf : Platform} {A B : Type 0} (m : Handler pf A) (f g : A → Handler pf B) (s : Server pf)
    → ((a : A) (t : Server pf) → (f a t).1 ≡ (g a t).1)
    → ((m >>= f) s).1 ≡ ((m >>= g) s).1
>>=-answer m f g s h = elim (Response-cases (m s).1) [
  | inl (a, e) ↦ ground (arith, e, h a (m s).0)
  | inr (inl (n, t, e)) ↦ ground (arith, e)
  | inr (inr e) ↦ ground (arith, e)
]

pub >>=-same :
    {pf : Platform} {A B : Type 0} (m n : Handler pf A) (f : A → Handler pf B) (s : Server pf)
    → m s ≡ n s
    → (m >>= f) s ≡ (n >>= f) s
>>=-same {pf} {A} {B} m n f s e =
    ap (λ (r : Server pf × Response A). ((λ (t : Server pf). r) >>= f) s) e
