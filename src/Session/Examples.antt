-- ===== src/Session/Examples.antt =====
-- A concrete runtime, and the session laws at concrete cookies.
use fbyt.Base.{
  ℕ, zero, suc, ◌+◌, ◌≡◌, ◌≢◌, refl, Text, Bool, true, Option, none, some, [], ◌∷◌, ◌++◌, arith,
  codes, ◌==◌, if◌then◌else◌, ltb, text_eq, length, replicate, map, inl, split,
}
use fbyt.Base.Split.{Lacks}
use fbyt.Session.Cookie.{Runtime, IsStandard, secret, sign_session, verify_session, payload}
use fbyt.Session.Laws.{
  verify-sign, IsAuthentic, verify_session-IsAuthentic, no_session_without_secret,
}

-- Times in unary, and a digest that keeps everything but the dots.
abbrev undotted : ℕ → ℕ
undotted c = if c == b'.' then b'd' else c

unfoldable pub digest : Text → Text → Text
digest key payload = map undotted (key ++ payload)

abbrev pub process : Bool → Option Text → Runtime
process prod key = record {
  session_secret = key;
  production = prod;
  hmac = digest;
  Number = ℕ;
  number = λ n. n;
  parse = λ t. some (length t);
  print = λ n. replicate n b'1';
  older = λ now n age. ltb (n + age) now;
}

abbrev pub healthy : Runtime
healthy = process true (some (codes "key"))

Lacks-undotted : (t : Text) → Lacks b'.' (map undotted t)
Lacks-undotted [] = tt
Lacks-undotted (c ∷ cs) = ground (arith, Lacks-undotted cs)

Lacks-ones : (n : ℕ) → Lacks b'.' (replicate n b'1')
Lacks-ones zero = tt
Lacks-ones (suc n) = (ground arith, Lacks-ones n)

length-ones : (n : ℕ) → length {A = ℕ} (replicate n b'1') ≡ n
length-ones zero = refl
length-ones (suc n) = omega (arith, length-ones n)

pub healthy-IsStandard : IsStandard healthy
unfolding digest
healthy-IsStandard = record {
  hmac_digits = λ key p. Lacks-undotted (key ++ p);
  print_digits = λ n safe. Lacks-ones n;
  parse-print = λ n safe. rw (length-ones n);
  older_past = λ now n age a b c h. ground arith;
  older_recent = λ now n age a b c h. ground arith;
}

abbrev cookie : Text
cookie = codes "alice.111.keyaliced111"

Lacks-alice : Lacks b'.' (codes "alice")
Lacks-alice = ground arith

signed : sign_session healthy 3 (codes "alice") ≡ some cookie
unfolding sign_session secret digest text_eq
signed = refl

verify-sign_example :
    verify_session healthy 9 (some cookie)
    ≡ (if ltb (3 + 604_800_000) 9 then some none else some (some (codes "alice")))
verify-sign_example =
    verify-sign healthy healthy-IsStandard (codes "alice") Lacks-alice 3 9 cookie (omega arith)
      (omega arith) signed

read_back : verify_session healthy 9 (some cookie) ≡ some (some (codes "alice"))
read_back = verify-sign_example

verify_session-IsAuthentic_example : IsAuthentic healthy 9 (split b'.' cookie) (codes "alice")
verify_session-IsAuthentic_example =
    verify_session-IsAuthentic healthy 9 cookie (codes "alice") read_back

no_session_without_secret_example :
    (sign_session (process true none) 9 (codes "alice") ≡ none)
    × (verify_session (process true none) 9 (some cookie) ≢ some (some (codes "alice")))
no_session_without_secret_example =
    no_session_without_secret (process true none) 9 (codes "alice") (some cookie) (codes "alice")
      refl (inl refl)
