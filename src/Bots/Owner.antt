-- ===== src/Bots/Owner.antt =====
-- Only the owner of a bot changes it.
use fbyt.Base.{
  ℕ, ◌≡◌, refl, ap, ◌∙◌, Text, text_eq_iff, true, Option, none, some, arith, inl, inr, ◌⊎◌,
  Bool-cases,
}
use fbyt.Json.{Doc, Json, str, get}
use fbyt.Db.Ops.{db_get}
use fbyt.Guard.Request.{Request, per_minute}
use fbyt.Http.{Platform, Server, Handler, json, limited, signed_in, current_user, ◌>>=◌, pure}
use fbyt.Http.Laws.{>>=-json, limited-db, signed_in-json, Keeps, Keeps-bind, answers_or_stops}
use fbyt.Bots.Routes.{
  is_str, find_bot, require_owner, own_bot, set_enabled, patch_bot, bury, delete_bot,
}

-- The request is signed in as the owner of this bot.
pub record IsOwned (pf : Platform) (s : Server pf) (req : Request) (id : Text) (now : ℕ) (bot : Doc)
    : Type 0 where
  pub me : Text
  pub session : current_user pf req now ≡ some (some me)
  pub stored : db_get pf.sql s.db "bots" id ≡ some bot
  pub owner : get bot "owner" ≡ some (str me)

is_str-str : (o : Option Json) (t : Text) → is_str o t ≡ true → o ≡ some (str t)
unfolding is_str
is_str-str (some (str u)) t h = ground (arith, text_eq_iff u t)
is_str-str none t h = cc
is_str-str (some _) t h = cc

module _ {pf : Platform} where
  find-json :
      (id : Text) (s : Server pf) (bot : Doc)
      → (find_bot {pf = pf} id s).1 ≡ json bot
      → (db_get (Platform.sql pf) s.db "bots" id ≡ some bot) × ((find_bot {pf = pf} id s).0 ≡ s)
  unfolding find_bot
  find-json id s bot h = ground arith

  require-json :
      (me : Text) (bot : Doc) (s : Server pf) (u : Unit {0})
      → (require_owner {pf = pf} me bot s).1 ≡ json u
      → (get bot "owner" ≡ some (str me)) × ((require_owner {pf = pf} me bot s).0 ≡ s)
  unfolding require_owner
  require-json me bot s u h = elim (Bool-cases (is_str (get bot "owner") me)) [
    | inl e ↦ (is_str-str (get bot "owner") me e, ground (arith, e))
    | inr e ↦ absurd (ground (arith, e))
  ]

  -- The handlers before the change leave the datastore alone.
  abbrev pub Same : Server pf → Server pf → Type 0
  Same s t = t.db ≡ s.db

  find-Same : (id : Text) (s : Server pf) → Keeps {pf = pf} (Same s) (find_bot id)
  unfolding find_bot
  find-Same id s = record { at = λ t h. ground arith }

  require-Same :
      (me : Text) (bot : Doc) (s : Server pf) → Keeps {pf = pf} (Same s) (require_owner me bot)
  unfolding require_owner
  require-Same me bot s = record { at = λ t h. ground arith }

  signed_in-Same :
      (req : Request) (now : ℕ) (s : Server pf) → Keeps {pf = pf} (Same s) (signed_in req now)
  unfolding signed_in
  signed_in-Same req now s = record { at = λ t h. h }

  limited-Same :
      (req : Request) (now : ℕ) (s : Server pf)
      → Keeps {pf = pf} (Same s) (limited req now (per_minute 30))
  limited-Same req now s = record { at = λ t h. limited-db req now (per_minute 30) t ∙ h }

  pub own-Same :
      (req : Request) (id : Text) (now : ℕ) (s : Server pf)
      → Keeps {pf = pf} (Same s) (own_bot req id now)
  unfolding own_bot
  own-Same req id now s = Keeps-bind _ _ (limited-Same req now s) (λ _.
      Keeps-bind _ _ (signed_in-Same req now s) (λ me. Keeps-bind _ _ (find-Same id s) (λ bot.
        Keeps-bind (require_owner me bot) (λ _. pure bot) (require-Same me bot s)
          (λ _. record { at = λ t h. h }))))

  pub own-IsOwned :
      (req : Request) (id : Text) (now : ℕ) (s : Server pf) (bot : Doc)
      → (own_bot {pf = pf} req id now s).1 ≡ json bot
      → IsOwned pf s req id now bot
  unfolding own_bot signed_in
  own-IsOwned req id now s bot h =
      let own : Text → Doc → Handler pf Doc = λ me b. require_owner me b >>= λ _. pure b in
      let look : Text → Handler pf Doc = λ me. find_bot id >>= own me in
      let (u, _, q, _) =
        >>=-json (limited req now (per_minute 30)) (λ _. signed_in req now >>= look) s bot h in
      let s1 = (limited {pf = pf} req now (per_minute 30) s).0 in
      let (me, p1, q1, z1) = >>=-json (signed_in req now) look s1 bot q in
      let (b, p2, q2, z2) = >>=-json (find_bot id) (own me) s1 bot q1 in
      let (v, p3, q3, z3) =
        >>=-json (require_owner me b) (λ _. pure b) (find_bot {pf = pf} id s1).0 bot q2 in
      let (stored, _) = find-json id s1 b p2 in
      let (owner, _) = require-json me b (find_bot {pf = pf} id s1).0 v p3 in
      let same : b ≡ bot = ground (arith, q3) in
      record {
        me = me;
        session = signed_in-json req now s1 me p1;
        stored = rw (limited-db req now (per_minute 30) s, same) at stored;
        owner = rw same at owner;
      }

  pub after_own :
      {B : Type 0} (f : Doc → Handler pf B) (req : Request) (id : Text) (now : ℕ) (s : Server pf)
      → (((own_bot req id now >>= f) s).0.db ≡ s.db) ⊎ ((bot : Doc) × IsOwned pf s req id now bot)
  after_own f req id now s = elim (answers_or_stops (own_bot req id now) f s) [
    | inl (bot, e) ↦ inr (bot, own-IsOwned req id now s bot e)
    | inr e ↦ inl (ap (λ (t : Server pf). t.db) e ∙ (own-Same req id now s).at s refl)
  ]

-- However PATCH and DELETE answer, the datastore changes only where the bot is stored and the request is
-- signed in as its owner.
pub only_owner :
    {pf : Platform} (req : Request) (id : Text) (body : Option Json) (now : ℕ) (s : Server pf)
    → (((patch_bot req id body now s).0.db ≡ s.db) ⊎ ((bot : Doc) × IsOwned pf s req id now bot))
      × (((delete_bot req id now s).0.db ≡ s.db) ⊎ ((bot : Doc) × IsOwned pf s req id now bot))
unfolding patch_bot delete_bot
only_owner req id body now s =
    (after_own (λ _. set_enabled id body) req id now s, after_own (bury id) req id now s)
