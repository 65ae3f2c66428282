-- ===== src/Launches/Vote.antt =====
-- A vote is counted once for each user, and a second vote takes it back.
use fbyt.Base.{
  ℕ, ◌+◌, ◌≡◌, refl, sym, ap, ◌∙◌, Text, text_eq, text_eq_refl, not, some, List, length, arith,
  if◌then◌else◌,
}
use fbyt.Json.{Doc, arr, end, field, get, items, texts-items, last}
use fbyt.Db.Ops.{db_get, db_update, merged}
use fbyt.Db.Laws.{get-update, get-merged}
use fbyt.Guard.Request.{Request, per_minute}
use fbyt.Http.{Platform, Server, Handler, json, limited, signed_in, current_user, ◌>>=◌}
use fbyt.Http.Laws.{>>=-json, limited-db, signed_in-db, signed_in-json}
use fbyt.Base.Sets.{set_of, has, AreDistinct, has-set_of, set_of-AreDistinct}
use fbyt.Launches.Voters.{toggle, has-toggle, toggle-AreDistinct, length-toggle}
use fbyt.Launches.Routes.{Voted, voters_of, votes_of, find_launch, cast_vote, vote_launch}

abbrev voted_doc : Doc → Text → List Text → Doc
voted_doc l id vs = merged (some l) id (field "voters" (arr (items vs)) end)

get-voters :
    (l : Doc) (id : Text) (vs : List Text)
    → get (voted_doc l id vs) "voters" ≡ some (arr (items vs))
unfolding last
get-voters l id vs = get-merged (some l) id (field "voters" (arr (items vs)) end) "voters"

voters-voted : (l : Doc) (id : Text) (vs : List Text) → voters_of (voted_doc l id vs) ≡ vs
unfolding voters_of
voters-voted l id vs = rw (get-voters l id vs, voters_of) (texts-items vs)

-- What a vote changes, on the distinct voters before it.
pub record IsVoted (pf : Platform) (req : Request) (now : ℕ) (s t : Server pf) (id : Text)
    (r : Voted) : Type 0 where
  pub me : Text
  pub before : Doc
  pub after : Doc
  pub session : current_user pf req now ≡ some (some me)
  pub stored : db_get pf.sql s.db "launches" id ≡ some before
  pub kept : db_get pf.sql t.db "launches" id ≡ some after
  pub distinct : AreDistinct (voters_of after)
  pub members :
      (u : Text)
      → has (voters_of after) u
        ≡ (if text_eq me u then not (has (voters_of before) me) else has (voters_of before) u)
  pub voted : r.voted ≡ not (has (voters_of before) me)
  pub votes : r.votes ≡ length (voters_of after)
  pub count :
      length (voters_of after) + (if has (voters_of before) me then 1 else 0)
      ≡ length (set_of (voters_of before)) + (if has (voters_of before) me then 0 else 1)

module _ {pf : Platform} where
  find-json :
      (id : Text) (s : Server pf) (l : Doc)
      → (find_launch {pf = pf} id s).1 ≡ json l
      → (db_get (Platform.sql pf) s.db "launches" id ≡ some l)
        × ((find_launch {pf = pf} id s).0 ≡ s)
  unfolding find_launch
  find-json id s l h = ground arith

  cast-json :
      (id me : Text) (l : Doc) (s : Server pf) (r : Voted)
      → db_get (Platform.sql pf) s.db "launches" id ≡ some l
      → (cast_vote {pf = pf} id me l s).1 ≡ json r
      → let after = voted_doc l id (toggle (set_of (voters_of l)) me) in
        (db_get (Platform.sql pf) (cast_vote {pf = pf} id me l s).0.db "launches" id ≡ some after)
        × (r.votes ≡ length (voters_of after))
        × (r.voted ≡ has (toggle (set_of (voters_of l)) me) me)
  unfolding cast_vote votes_of db_update
  cast-json id me l s r e h =
      let vs = toggle (set_of (voters_of l)) me in
      (
        get-update (Platform.sql pf) s.db "launches" "launches" id id
              (field "voters" (arr (items vs)) end)
            ∙ rw (text_eq_refl id, e) refl,
        ground (arith, e),
        ground (arith, e),
      )

  -- When a vote is answered, the request was signed in and the launch is stored. Afterwards the stored
  -- voters are distinct, and they are those of before but for the signed-in user, who is one of them
  -- exactly if it was not; the answer gives this and their number, which has changed by one.
  pub vote_launch-IsVoted :
      (req : Request) (id : Text) (now : ℕ) (s : Server pf) (r : Voted)
      → (vote_launch {pf = pf} req id now s).1 ≡ json r
      → IsVoted pf req now s (vote_launch {pf = pf} req id now s).0 id r
  unfolding vote_launch
  vote_launch-IsVoted req id now s r h =
      let last : Text → Doc → Handler pf Voted = λ me l. cast_vote id me l in
      let look : Text → Handler pf Voted = λ me. find_launch id >>= last me in
      let (u, _, q, z) =
        >>=-json (limited req now (per_minute 30)) (λ _. signed_in req now >>= look) s r h in
      let s1 = (limited {pf = pf} req now (per_minute 30) s).0 in
      let (me, p1, q1, z1) = >>=-json (signed_in req now) look s1 r q in
      let s2 = (signed_in {pf = pf} req now s1).0 in
      let (l, p2, q2, z2) = >>=-json (find_launch id) (last me) s2 r q1 in
      let s3 = (find_launch {pf = pf} id s2).0 in
      let (stored, same) = find-json id s2 l p2 in
      let (kept, votes, voted) = cast-json id me l s3 r (rw same stored) q2 in
      record {
        me = me;
        before = l;
        after = voted_doc l id (toggle (set_of (voters_of l)) me);
        session = signed_in-json req now s1 me p1;
        stored = rw (signed_in-db req now s1, limited-db req now (per_minute 30) s) at stored;
        kept =
            ap (λ (x : Server pf). db_get (Platform.sql pf) x.db "launches" id) (z ∙ z1 ∙ z2)
            ∙ kept;
        distinct =
            rw (voters-voted l id (toggle (set_of (voters_of l)) me))
              (toggle-AreDistinct (set_of (voters_of l)) me (set_of-AreDistinct (voters_of l)));
        members = λ w. rw (voters-voted l id (toggle (set_of (voters_of l)) me)) (
            has-toggle (set_of (voters_of l)) me w
            ∙ rw (has-set_of (voters_of l) me, has-set_of (voters_of l) w) refl);
        voted =
            voted
            ∙ has-toggle (set_of (voters_of l)) me me
            ∙ rw (text_eq_refl me, has-set_of (voters_of l) me) refl;
        votes = votes;
        count =
            rw
              (
                voters-voted l id (toggle (set_of (voters_of l)) me),
                sym (has-set_of (voters_of l) me),
              )
              (length-toggle (set_of (voters_of l)) me (set_of-AreDistinct (voters_of l)));
      }
