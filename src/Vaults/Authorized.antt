-- ===== src/Vaults/Authorized.antt =====
-- Who may write a vault's profile, and what the signature covers.
use fbyt.Base.{
  ℕ, ◌*◌, ◌≤◌, ◌≡◌, Option-cases, inl, inr, refl, ap, ◌∙◌, Text, text_eq, text_eq_iff, true, false,
  Option, none, some, arith, ltb, if◌then◌else◌, Bool-cases,
}
use fbyt.Base.Int.{pos, ◌-ℤ◌}
use fbyt.Json.{Doc, Json, num, str, get, get-set}
use fbyt.Db.Sql.{Sql}
use fbyt.Db.Ops.{id_of, with_id}
use fbyt.Db.Laws.{get-put}
use fbyt.Bots.Manager.{Fetched-cases}
use fbyt.Guard.Request.{Request, per_minute}
use fbyt.Http.{Platform, Server, Handler, Response, json, limited, body_fields, ◌>>=◌}
use fbyt.Http.Laws.{>>=-json, >>=-answer, >>=-same, limited-db}
use fbyt.Bots.Register.{Vault, Fetched, exists}
use fbyt.Vaults.Profiles.{
  VaultMetadata, metadata_doc, get_metadata, set_metadata, Signing, verify_ed25519,
  metadata_message,
}
use fbyt.Vaults.Claims.{IsClip, clip_text-IsClip, claim_of-fields, within}
use fbyt.Vaults.Edit.{
  max_age_ms, abs_ℤ, Claim, claim_of, metadata_of, read_claim, check_claim, check_manager,
  store_metadata, edit_profile, edit_body, put_metadata,
}

-- What an accepted write of a body rests on, and what it stores.
pub record IsAuthorized (pf : Platform) (sg : Signing) (chain : Text → Fetched) (address : Text)
    (body : Option Json) (now : ℕ) (s t : Server pf) : Type 0 where
  pub claim : Claim
  pub vault : Vault
  pub profile : VaultMetadata
  pub by_signer : get (body_fields body) "signer" ≡ some (str claim.signer)
  pub with_signature : get (body_fields body) "signature" ≡ some (str claim.signature)
  pub at_time : get (body_fields body) "issuedAt" ≡ some (num claim.issued_at)
  pub recent : abs_ℤ (pos now -ℤ claim.issued_at) ≤ 5 * 60 * 1000
  pub signed :
      verify_ed25519 sg claim.signer
        (Signing.utf8 sg (metadata_message sg address claim.issued_at))
        (Signing.base64 sg claim.signature)
      ≡ true
  pub on_chain : chain address ≡ exists vault
  pub manager : vault.money_manager ≡ claim.signer
  pub name : IsClip (get (body_fields body) "name") 80 profile.name
  pub description : IsClip (get (body_fields body) "description") 500 profile.description
  pub strategy : IsClip (get (body_fields body) "strategy") 200 profile.strategy
  pub updated_by : profile.updated_by ≡ claim.signer
  pub updated_at : profile.updated_at ≡ now
  pub stored :
      (i : Text)
      → get_metadata pf.sql t.db i ≡ (
          if text_eq address i
          then some (with_id (metadata_doc profile) address)
          else get_metadata pf.sql s.db i)

id_of-with_id : (d : Doc) (a : Text) → id_of (with_id d a) ≡ a
unfolding id_of
id_of-with_id d a = rw (get-set d "id" "id" (str a), id_of) refl

get-set_metadata :
    (sql : Sql) (d : Sql.Db sql) (a i : Text) (m : VaultMetadata)
    → get_metadata sql (set_metadata sql d a m) i
      ≡ (if text_eq a i then some (with_id (metadata_doc m) a) else get_metadata sql d i)
unfolding get_metadata set_metadata
get-set_metadata sql d a i m =
    get-put sql d "vaultMetadata" "vaultMetadata" i (with_id (metadata_doc m) a)
    ∙ rw (id_of-with_id (metadata_doc m) a) refl

module _ {pf : Platform} (sg : Signing) (chain : Text → Fetched) (address : Text) where
  read-json :
      (body : Doc) (s : Server pf) (c : Claim)
      → (read_claim {pf = pf} body s).1 ≡ json c
      → ((read_claim {pf = pf} body s).0 ≡ s)
        × (claim_of (get body "signer") (get body "signature") (get body "issuedAt") ≡ some c)
  unfolding read_claim
  read-json body s c h = (
    ground arith,
    elim (Option-cases
        (claim_of (get body "signer") (get body "signature") (get body "issuedAt"))) [
          | inl e ↦ absurd (ground (arith, e, h))
          | inr (d, e) ↦ e ∙ ap (λ (x : Claim). some x) (ground (arith, e, h))
        ],
  )

  check-json :
      (c : Claim) (now : ℕ) (s : Server pf) (u : Unit {0})
      → (check_claim {pf = pf} sg address c now s).1 ≡ json u
      → (ltb max_age_ms (abs_ℤ (pos now -ℤ c.issued_at)) ≡ false)
        × (verify_ed25519 sg c.signer
              (Signing.utf8 sg (metadata_message sg address c.issued_at))
              (Signing.base64 sg c.signature)
            ≡ true)
        × ((check_claim {pf = pf} sg address c now s).0 ≡ s)
  unfolding check_claim
  check-json c now s u h = ground arith

  manager-json :
      (signer : Text) (s : Server pf) (u : Unit {0})
      → (check_manager {pf = pf} chain address signer s).1 ≡ json u
      → (v : Vault) × (chain address ≡ exists v)
        × (v.money_manager ≡ signer)
        × ((check_manager {pf = pf} chain address signer s).0 ≡ s)
  unfolding check_manager
  manager-json signer s u h = elim (Fetched-cases (chain address)) [
    | inl (v, e) ↦ elim (Bool-cases (text_eq v.money_manager signer)) [
      | inl m ↦ (v, e, (text_eq_iff v.money_manager signer).0 m, ground (arith, e, m))
      | inr m ↦ absurd (ground (arith, e, m))
    ]
    | inr (inl e) ↦ absurd (ground (arith, e))
    | inr (inr e) ↦ absurd (ground (arith, e))
  ]

  get-store :
      (s : Server pf) (i : Text) (m : VaultMetadata)
      → get_metadata (Platform.sql pf) (store_metadata {pf = pf} address m s).0.db i ≡ (
          if text_eq address i
          then some (with_id (metadata_doc m) address)
          else get_metadata (Platform.sql pf) s.db i)
  unfolding store_metadata
  get-store s i m = get-set_metadata (Platform.sql pf) s.db address i m

  edit-IsAuthorized :
      (request : Option Json) (now : ℕ) (s : Server pf) (u : Unit {0})
      → (edit_profile {pf = pf} sg chain address (body_fields request) now s).1 ≡ json u
      → IsAuthorized pf sg chain address request now s
          (edit_profile {pf = pf} sg chain address (body_fields request) now s).0
  unfolding edit_profile
  edit-IsAuthorized request now s u h =
      let body = body_fields request in
      let keep : Claim → Handler pf (Unit {0}) =
        λ c. store_metadata address (metadata_of body c.signer now) in
      let manage : Claim → Handler pf (Unit {0}) =
        λ c. check_manager chain address c.signer >>= λ _. keep c in
      let check : Claim → Handler pf (Unit {0}) =
        λ c. check_claim sg address c now >>= λ _. manage c in
      let (c, p, q, z) = >>=-json (read_claim body) check s u h in
      let s1 = (read_claim {pf = pf} body s).0 in
      let (e1, read) = read-json body s c p in
      let (a, b, i) = claim_of-fields _ _ _ c read in
      let (u1, p1, q1, z1) = >>=-json (check_claim sg address c now) (λ _. manage c) s1 u q in
      let s2 = (check_claim {pf = pf} sg address c now s1).0 in
      let (u2, p2, q2, z2) =
        >>=-json (check_manager chain address c.signer) (λ _. keep c) s2 u q1 in
      let (recent, signed, e2) = check-json c now s1 u1 p1 in
      let (v, there, manager, e3) = manager-json c.signer s2 u2 p2 in
      let s3 = (check_manager {pf = pf} chain address c.signer s2).0 in
      let same : s3.db ≡ s.db = ap (λ (x : Server pf). x.db) (e3 ∙ e2 ∙ e1) in
      record {
        claim = c;
        vault = v;
        profile = metadata_of body c.signer now;
        by_signer = a;
        with_signature = b;
        at_time = i;
        recent = within (abs_ℤ (pos now -ℤ c.issued_at)) recent;
        signed = signed;
        on_chain = there;
        manager = manager;
        name = clip_text-IsClip (get body "name") 80;
        description = clip_text-IsClip (get body "description") 500;
        strategy = clip_text-IsClip (get body "strategy") 200;
        updated_by = refl;
        updated_at = refl;
        stored = λ i.
            ap (λ (x : Server pf). get_metadata (Platform.sql pf) x.db i) (z ∙ z1 ∙ z2)
            ∙ get-store s3 i (metadata_of body c.signer now)
            ∙ rw same refl;
      }

  body-IsAuthorized :
      (body : Option Json) (now : ℕ) (s : Server pf) (u : Unit {0})
      → (edit_body {pf = pf} sg chain address body now s).1 ≡ json u
      → IsAuthorized pf sg chain address body now s
          (edit_body {pf = pf} sg chain address body now s).0
  unfolding edit_body
  body-IsAuthorized none now s u h = cc
  body-IsAuthorized (some b) now s u h = edit-IsAuthorized (some b) now s u h

  -- When a write of a profile is answered, the body of the request names a signer, a signature and a time
  -- that is at most five minutes away; the signature is the signer's over the vault's address and this
  -- time, and the signer is the vault's money manager on the chain. The profile of this vault is then the
  -- body's name, description and strategy, cut to 80, 500 and 200 units, with the signer and the present
  -- time, and no other profile changes.
  pub put_metadata-IsAuthorized :
      (req : Request) (body : Option Json) (now : ℕ) (s : Server pf) (u : Unit {0})
      → (put_metadata {pf = pf} sg chain req address body now s).1 ≡ json u
      → IsAuthorized pf sg chain address body now s
          (put_metadata {pf = pf} sg chain req address body now s).0
  unfolding put_metadata
  put_metadata-IsAuthorized req body now s u h =
      let (w, p, q, z) =
        >>=-json (limited req now (per_minute 20)) (λ _. edit_body sg chain address body now) s u
          h in
      let s1 = (limited {pf = pf} req now (per_minute 20) s).0 in
      let g = body-IsAuthorized body now s1 u q in
      let same : s1.db ≡ s.db = limited-db req now (per_minute 20) s in
      record {
        claim = g.claim;
        vault = g.vault;
        profile = g.profile;
        by_signer = g.by_signer;
        with_signature = g.with_signature;
        at_time = g.at_time;
        recent = g.recent;
        signed = g.signed;
        on_chain = g.on_chain;
        manager = g.manager;
        name = g.name;
        description = g.description;
        strategy = g.strategy;
        updated_by = g.updated_by;
        updated_at = g.updated_at;
        stored = λ i.
            ap (λ (x : Server pf). get_metadata (Platform.sql pf) x.db i) z
            ∙ g.stored i
            ∙ rw same refl;
      }

  read_claim_same :
      (b c : Doc) (s : Server pf)
      → get b "signer" ≡ get c "signer"
      → get b "signature" ≡ get c "signature"
      → get b "issuedAt" ≡ get c "issuedAt"
      → read_claim {pf = pf} b s ≡ read_claim {pf = pf} c s
  unfolding read_claim
  read_claim_same b c s e f g = ground (arith, e, f, g)

  -- The answer to a write depends on the fields of the claim alone: whatever name, description or strategy
  -- comes with them, one signature of the manager allows it.
  pub edit_profile_unsigned :
      (b c : Doc) (now : ℕ) (s : Server pf)
      → get b "signer" ≡ get c "signer"
      → get b "signature" ≡ get c "signature"
      → get b "issuedAt" ≡ get c "issuedAt"
      → (edit_profile {pf = pf} sg chain address b now s).1
        ≡ (edit_profile {pf = pf} sg chain address c now s).1
  unfolding edit_profile store_metadata
  edit_profile_unsigned b c now s e f g =
      let keep : Doc → Claim → Handler pf (Unit {0}) =
        λ d k. store_metadata address (metadata_of d k.signer now) in
      let manage : Doc → Claim → Handler pf (Unit {0}) =
        λ d k. check_manager chain address k.signer >>= λ _. keep d k in
      let rest : Doc → Claim → Handler pf (Unit {0}) =
        λ d k. check_claim sg address k now >>= λ _. manage d k in
      ap (λ (r : Server pf × Response (Unit {0})). r.1)
        (>>=-same (read_claim b) (read_claim c) (rest b) s (read_claim_same b c s e f g))
      ∙ >>=-answer (read_claim c) (rest b) (rest c) s (λ k t.
        >>=-answer (check_claim sg address k now) (λ _. manage b k) (λ _. manage c k) t
          (λ _ t1.
            >>=-answer (check_manager chain address k.signer) (λ _. keep b k) (λ _. keep c k) t1
              (λ _ t2. refl)))
