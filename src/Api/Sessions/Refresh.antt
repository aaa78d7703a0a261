-- ===== src/Api/Sessions/Refresh.antt =====
-- What a refresh of a session leaves behind.
use campus_internship.Prelude.{
  ◌≡◌, ◌+◌, ◌==◌, refl, sym, ap, ◌∙◌, true, Option, none, some, [], ◌∷◌, ◌++◌, arith, Text, text_eq,
  Option-cases, Bool-cases, inl, inr,
}
use campus_internship.Api.Http.{Error, Result, ok, err, prisma}
use campus_internship.Api.Schema.{Uuid, User, RefreshToken, Db}
use campus_internship.Api.World.{World, Env, ◌>>=◌, or_throw}
use campus_internship.Api.Prisma.{Client, IsClient, delete_where, keep_on_success, created}
use campus_internship.Api.Prisma.Tables.{find?_test}
use campus_internship.Api.Sessions.{
  Crypto, Session, unless_expired, issue_tokens, refresh_body, refresh, session_invalid,
}

-- the row of the new token
abbrev pub new_row : Env → Crypto → Uuid → RefreshToken
new_row env crypto user_id = record {
  id = crypto.token_id;
  token_hash = crypto.hash_token crypto.random_token;
  expires_at = env.now + crypto.refresh_ttl;
  user_id = user_id;
}

-- the lookup of a token that is not expired
abbrev pub live_token : Client → Env → Crypto → Text → Db → Option RefreshToken
live_token c env crypto raw_token db =
    unless_expired (λ (t : RefreshToken). t.expires_at) env.now
      (c.find_first RefreshToken (λ t. text_eq t.token_hash (crypto.hash_token raw_token))
        db.refresh_tokens)

undone :
    (w : World) (r : Result Session) (v : World) (e : Error)
    → (keep_on_success w r v).0 ≡ err e
    → (keep_on_success w r v).1.db ≡ w.db
undone w (ok s) v e h = cc
undone w (err x) v e h = refl

kept :
    (w : World) (r : Result Session) (v : World) (s : Session)
    → (keep_on_success w r v).0 ≡ ok s
    → (r ≡ ok s) × ((keep_on_success w r v).1 ≡ v)
kept w (ok t) v s h = (h, refl)
kept w (err x) v s h = cc

module _ (c : Client) (law : IsClient c) (env : Env) (crypto : Crypto) where
  issue_tokens-tokens :
      (u : User) (v : World) (s : Session)
      → (issue_tokens c env crypto u v).0 ≡ ok s
      → ((issue_tokens c env crypto u v).1.db.refresh_tokens
          ≡ v.db.refresh_tokens ++ new_row env crypto u.id ∷ [])
        × (s.refresh_token ≡ crypto.random_token)
  unfolding issue_tokens ◌>>=◌
  issue_tokens-tokens u v s e =
      let row = new_row env crypto u.id in
      let inserted = law.create_lem RefreshToken row v.db.refresh_tokens in
      elim (Option-cases (c.insert_fails RefreshToken row v.db.refresh_tokens)) [
        | inl fine ↦
            let rows : c.create RefreshToken row v.db.refresh_tokens
                ≡ ok (v.db.refresh_tokens ++ row ∷ []) =
              inserted ∙ ap (λ o. created o (v.db.refresh_tokens ++ row ∷ [])) fine in
            ground arith
        | inr (code, fails) ↦
            let rows : c.create RefreshToken row v.db.refresh_tokens ≡ err (prisma code) =
              inserted ∙ ap (λ o. created o (v.db.refresh_tokens ++ row ∷ [])) fails in
            ground arith
      ]

  -- the body of the transaction goes on to the new token, for the user of the old one
  refresh_body-issue :
      (stored : RefreshToken) (w : World) (s : Session)
      → (refresh_body c env crypto stored w).0 ≡ ok s
      → (u : User) × (u.id ≡ stored.user_id)
        × (refresh_body c env crypto stored w
            ≡ issue_tokens c env crypto u (record w {
              db = record w.db {
                refresh_tokens = delete_where (λ t. t.id == stored.id) w.db.refresh_tokens;
              };
            }))
  unfolding refresh_body ◌>>=◌
  refresh_body-issue stored w s e =
      let deleted = law.delete_many_lem RefreshToken (λ t. t.id == stored.id) w.db.refresh_tokens in
      elim (Bool-cases
        ((c.delete_many RefreshToken (λ t. t.id == stored.id) w.db.refresh_tokens).0 == 0)) [
          | inl t ↦ ground arith
          | inr t ↦
              elim (Option-cases (c.find_first User (λ u. u.id == stored.user_id) w.db.users)) [
                | inl missing ↦ ground arith
                | inr (u, found) ↦
                    let is_user : (u.id == stored.user_id) ≡ true =
                      find?_test (λ x. x.id == stored.user_id) w.db.users u
                        (sym (law.find_first_lem User (λ x. x.id == stored.user_id) w.db.users)
                          ∙ found) in
                    (u, ground arith, rw (t, found, ap (λ x. x.1) deleted) refl)
              ]
        ]

  refresh_body-tokens :
      (stored : RefreshToken) (w : World) (s : Session)
      → (refresh_body c env crypto stored w).0 ≡ ok s
      → ((refresh_body c env crypto stored w).1.db.refresh_tokens
          ≡ delete_where (λ t. t.id == stored.id) w.db.refresh_tokens
            ++ new_row env crypto stored.user_id ∷ [])
        × (s.refresh_token ≡ crypto.random_token)
  refresh_body-tokens stored w s e =
      let (u, owner, whole) = refresh_body-issue stored w s e in
      let v = record w {
        db = record w.db {
          refresh_tokens = delete_where (λ t. t.id == stored.id) w.db.refresh_tokens;
        };
      } in
      let (tokens, token) = issue_tokens-tokens u v s (ap (λ x. x.0) (sym whole) ∙ e) in
      (
        ap (λ x. x.1.db.refresh_tokens) whole
            ∙ tokens
            ∙ ap (λ k. v.db.refresh_tokens ++ new_row env crypto k ∷ []) owner,
        token,
      )

  from_token_failed :
      (o : Option RefreshToken) (w : World) (e : Error)
      → ((or_throw o session_invalid >>= λ t. c.transaction Session (refresh_body c env crypto t))
          w).0
        ≡ err e
      → ((or_throw o session_invalid >>= λ t. c.transaction Session (refresh_body c env crypto t))
          w).1.db
        ≡ w.db
  unfolding ◌>>=◌
  from_token_failed none w e = λ h. refl
  from_token_failed (some t) w e =
      let body = refresh_body c env crypto t in
      rw (law.transaction_lem Session body w) (undone w (body w).0 (body w).1 e)

  -- A refresh that fails leaves the database as it was: a token that was presented is not lost.
  pub refresh_failed :
      (raw_token : Text) (w : World) (e : Error)
      → (refresh c env crypto raw_token w).0 ≡ err e
      → (refresh c env crypto raw_token w).1.db ≡ w.db
  unfolding refresh ◌>>=◌
  refresh_failed raw_token w e = from_token_failed (live_token c env crypto raw_token w.db) w e

  -- A refresh that succeeds removes the token that was presented and adds one new token of the same
  -- user, which is the one that is handed out. The other tokens stay as they are.
  pub refresh_rotates :
      (raw_token : Text) (w : World) (stored : RefreshToken) (s : Session)
      → live_token c env crypto raw_token w.db ≡ some stored
      → (refresh c env crypto raw_token w).0 ≡ ok s
      → ((refresh c env crypto raw_token w).1.db.refresh_tokens
          ≡ delete_where (λ t. t.id == stored.id) w.db.refresh_tokens
            ++ new_row env crypto stored.user_id ∷ [])
        × (s.refresh_token ≡ crypto.random_token)
  unfolding refresh ◌>>=◌
  refresh_rotates raw_token w stored s found =
      let body = refresh_body c env crypto stored in
      rw (found, law.transaction_lem Session body w)
        (λ done.
          let (returned, same) = kept w (body w).0 (body w).1 s done in
          let (tokens, token) = refresh_body-tokens stored w s returned in
          (ap (λ (v : World). v.db.refresh_tokens) same ∙ tokens, token))
