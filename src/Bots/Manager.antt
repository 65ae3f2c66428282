-- ===== src/Bots/Manager.antt =====
-- Only the manager of a vault registers a bot for it.
use mathlib.Core.Option
use fbyt.Base.{
  ℕ, ◌≡◌, refl, ap, ◌∙◌, Text, text_eq, true, false, ◌⊎◌, Option, none, some, arith, if◌then◌else◌,
  subst, inl, inr, Bool-cases,
}
use fbyt.Json.{Doc, Json}
use fbyt.Db.Ops.{db_get, db_append, with_id}
use fbyt.Db.Laws.{get-append}
use fbyt.Guard.Request.{Request, per_minute}
use fbyt.Http.{
  Platform, Server, Handler, json, limited, signed_in, current_user, body_fields, ◌>>=◌,
}
use fbyt.Http.Laws.{>>=-json, limited-db, signed_in-db, signed_in-json}
use fbyt.Bots.Register.{
  Vault, Fetched, fetch_failed, absent, exists, Chain, default_pk, bot_doc, Wanted, wanted_of,
  delegate_of, store_bot, register_bot,
}

-- What a registered bot rests on.
pub record IsRegistered (pf : Platform) (chain : Chain) (req : Request) (now : ℕ) (s t : Server pf)
    (id : Text) : Type 0 where
  pub me : Text
  pub wanted : Wanted
  pub vault : Vault
  pub session : current_user pf req now ≡ some (some me)
  pub on_chain : chain wanted.vault ≡ exists vault
  pub manager : text_eq vault.money_manager me ≡ true
  pub has_delegate : text_eq vault.trading_delegate default_pk ≡ false
  pub stored :
      (i : Text)
      → db_get pf.sql t.db "bots" i ≡ (
          if text_eq id i
          then some (
              Option.get_or
                (db_get pf.sql s.db "bots" id)
                (with_id (bot_doc wanted.vault me vault.trading_delegate wanted.strategy now) id))
          else db_get pf.sql s.db "bots" i)

pub Fetched-cases :
    (f : Fetched) → ((v : Vault) × (f ≡ exists v)) ⊎ ((f ≡ absent) ⊎ (f ≡ fetch_failed))
Fetched-cases (exists v) = inl (v, refl)
Fetched-cases absent = inr (inl refl)
Fetched-cases fetch_failed = inr (inr refl)

module _ {pf : Platform} where
  wanted-json :
      (body : Doc) (s : Server pf) (w : Wanted)
      → (wanted_of {pf = pf} body s).1 ≡ json w
      → (wanted_of {pf = pf} body s).0 ≡ s
  unfolding wanted_of
  wanted-json body s w h = ground arith

  delegate-json :
      (chain : Chain) (vault : Json) (me : Text) (s : Server pf) (t : Text)
      → (delegate_of {pf = pf} chain vault me s).1 ≡ json t
      → (v : Vault) × (chain vault ≡ exists v)
        × (text_eq v.money_manager me ≡ true)
        × (text_eq v.trading_delegate default_pk ≡ false)
        × (t ≡ v.trading_delegate)
        × ((delegate_of {pf = pf} chain vault me s).0 ≡ s)
  unfolding delegate_of
  delegate-json chain vault me s t h = elim (Fetched-cases (chain vault)) [
    | inl (v, e) ↦ elim (Bool-cases (text_eq v.money_manager me)) [
      | inl m ↦ elim (Bool-cases (text_eq v.trading_delegate default_pk)) [
        | inl n ↦ absurd (ground (arith, e, m, n))
        | inr n ↦ (v, e, m, n, ground (arith, e, m, n), ground (arith, e, m, n))
      ]
      | inr m ↦ absurd (ground (arith, e, m))
    ]
    | inr (inl e) ↦ absurd (ground (arith, e))
    | inr (inr e) ↦ absurd (ground (arith, e))
  ]

  store-json :
      (w : Wanted) (me delegate fresh : Text) (now : ℕ) (s : Server pf) (id : Text)
      → (store_bot {pf = pf} w me delegate fresh now s).1 ≡ json id
      → (i : Text)
      → db_get (Platform.sql pf) (store_bot {pf = pf} w me delegate fresh now s).0.db "bots" i ≡ (
          if text_eq id i
          then some (
              Option.get_or
                (db_get (Platform.sql pf) s.db "bots" id)
                (with_id (bot_doc w.vault me delegate w.strategy now) id))
          else db_get (Platform.sql pf) s.db "bots" i)
  unfolding store_bot db_append
  store-json w me delegate fresh now s id h i =
      let same : fresh ≡ id = ground arith in
      subst
        (λ (x : Text).
          db_get (Platform.sql pf) (store_bot {pf = pf} w me delegate fresh now s).0.db "bots" i ≡ (
            if text_eq x i
            then some (
                Option.get_or (db_get (Platform.sql pf) s.db "bots" x)
                  (with_id (bot_doc w.vault me delegate w.strategy now) x))
            else db_get (Platform.sql pf) s.db "bots" i))
        same
        (get-append (Platform.sql pf) s.db "bots" "bots"
          (bot_doc w.vault me delegate w.strategy now) none fresh i)

  -- When POST answers with an id, the request was signed in as the money manager of the vault on the
  -- chain, the vault has a trading delegate, and the bot that is stored under the id (if the id is
  -- new) is enabled, owned by that manager, and signed for by that delegate. No other bot changes.
  pub register_bot-IsRegistered :
      (chain : Chain) (req : Request) (body : Option Json) (fresh : Text) (now : ℕ) (s : Server pf)
      (id : Text)
      → (register_bot {pf = pf} chain req body fresh now s).1 ≡ json id
      → IsRegistered pf chain req now s (register_bot {pf = pf} chain req body fresh now s).0 id
  unfolding register_bot
  register_bot-IsRegistered chain req body fresh now s id h =
      let last : Text → Wanted → Text → Handler pf Text = λ me w t. store_bot w me t fresh now in
      let then_delegate : Text → Wanted → Handler pf Text =
        λ me w. delegate_of chain w.vault me >>= last me w in
      let then_wanted : Text → Handler pf Text =
        λ me. wanted_of (body_fields body) >>= then_delegate me in
      let (u, _, q, z) =
        >>=-json (limited req now (per_minute 20)) (λ _. signed_in req now >>= then_wanted) s id
          h in
      let s1 = (limited {pf = pf} req now (per_minute 20) s).0 in
      let (me, p1, q1, z1) = >>=-json (signed_in req now) then_wanted s1 id q in
      let s2 = (signed_in {pf = pf} req now s1).0 in
      let (w, p2, q2, z2) = >>=-json (wanted_of (body_fields body)) (then_delegate me) s2 id q1 in
      let s3 = (wanted_of {pf = pf} (body_fields body) s2).0 in
      let (t, p3, q3, z3) = >>=-json (delegate_of chain w.vault me) (last me w) s3 id q2 in
      let (v, e, m, n, d, same3) = delegate-json chain w.vault me s3 t p3 in
      let s4 = (delegate_of {pf = pf} chain w.vault me s3).0 in
      let same : s4.db ≡ s.db =
        ap (λ (x : Server pf). x.db) (same3 ∙ wanted-json (body_fields body) s2 w p2)
        ∙ signed_in-db req now s1
        ∙ limited-db req now (per_minute 20) s in
      record {
        me = me;
        wanted = w;
        vault = v;
        session = signed_in-json req now s1 me p1;
        on_chain = e;
        manager = m;
        has_delegate = n;
        stored = λ i.
            ap (λ (x : Server pf). db_get (Platform.sql pf) x.db "bots" i) (z ∙ z1 ∙ z2 ∙ z3)
            ∙ store-json w me t fresh now s4 id q3 i
            ∙ rw (same, d) refl;
      }
