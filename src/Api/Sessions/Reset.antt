-- ===== src/Api/Sessions/Reset.antt =====
-- What a reset of a password leaves behind.
use mathlib.Core.Path.{subst}
use campus_internship.Prelude.{
  ℕ, ◌≡◌, ◌≢◌, ◌==◌, refl, sym, ap, Option, none, some, List, [], ◌∷◌, arith, All, Text, text_eq,
  Bool-cases, inl, inr,
}
use campus_internship.Api.Http.{Error, Result, ok, err}
use campus_internship.Api.Schema.{User, RefreshToken, PasswordResetToken}
use campus_internship.Api.World.{World, Env, M, ◌>>=◌, Email, continue, or_throw}
use campus_internship.Api.Prisma.{Client, IsClient, delete_where, keep_on_success}
use campus_internship.Api.Mailer.{send_safely}
use campus_internship.Api.Stages.Reading.{send_safely-Quiet, send_safely-ReadOnly}
use campus_internship.Api.Sessions.{
  Crypto, unless_expired, reset_body, reset_password, reset_invalid, confirmation,
}

delete_where-All :
    {A : Type 0} (key : A → ℕ) (k : ℕ) (rows : List A)
    → All (λ r. key r ≢ k) (delete_where (λ r. key r == k) rows)
unfolding delete_where
delete_where-All key k [] = tt
delete_where-All key k (x ∷ xs) = elim (Bool-cases (key x == k)) [
  | inl t ↦ rw t (delete_where-All key k xs)
  | inr t ↦ rw t ((λ e. ground arith), delete_where-All key k xs)
]

module _ (c : Client) (law : IsClient c) (env : Env) (crypto : Crypto) where
  reset_body-revokes :
      (stored : PasswordResetToken) (password_hash : Text) (w : World) (u : User)
      → (reset_body c env crypto stored password_hash w).0 ≡ ok u
      → (reset_body c env crypto stored password_hash w).1.db.refresh_tokens
        ≡ delete_where (λ t. t.user_id == stored.user_id) w.db.refresh_tokens
  unfolding reset_body ◌>>=◌
  reset_body-revokes stored password_hash w u e =
      let revoked =
        law.delete_many_lem RefreshToken (λ t. t.user_id == stored.user_id) w.db.refresh_tokens in
      ground (arith, ap (λ x. x.1) revoked)

  -- the email after the transaction throws nothing
  transaction_failed :
      (email : User → Email) (w : World) (r : Result User) (v : World) (e : Error)
      → (continue
          (keep_on_success w r v).0
          (λ u. send_safely env (email u))
          (keep_on_success w r v).1).0
        ≡ err e
      → (continue
          (keep_on_success w r v).0
          (λ u. send_safely env (email u))
          (keep_on_success w r v).1).1.db
        ≡ w.db
  transaction_failed email w (ok u) v e failed =
      let sent : (send_safely env (email u) v).0 ≡ ok tt = send_safely-Quiet env (email u) v in cc
  transaction_failed email w (err x) v e failed = refl

  -- the part of a reset that comes after the lookup of the token
  abbrev from_token : Text → Option PasswordResetToken → M (Unit {0})
  from_token new_password o = or_throw o reset_invalid >>= λ stored.
      (c.transaction User (reset_body c env crypto stored (crypto.hash_password new_password))
        >>= λ user. send_safely env (confirmation c env crypto user))

  from_token_failed :
      (new_password : Text) (o : Option PasswordResetToken) (w : World) (e : Error)
      → (from_token new_password o w).0 ≡ err e
      → (from_token new_password o w).1.db ≡ w.db
  unfolding ◌>>=◌
  from_token_failed new_password none w e = λ failed. refl
  from_token_failed new_password (some stored) w e =
      let body = reset_body c env crypto stored (crypto.hash_password new_password) in
      let k = λ (user : User). send_safely env (confirmation c env crypto user) in
      subst
        (λ (x : Result User × World).
          (continue x.0 k x.1).0 ≡ err e → (continue x.0 k x.1).1.db ≡ w.db)
        (sym (law.transaction_lem User body w))
        (transaction_failed (confirmation c env crypto) w (body w).0 (body w).1 e)

  -- A reset that fails, for whatever reason, leaves the database as it was.
  pub reset_password_failed :
      (raw_token new_password : Text) (w : World) (e : Error)
      → (reset_password c env crypto raw_token new_password w).0 ≡ err e
      → (reset_password c env crypto raw_token new_password w).1.db ≡ w.db
  unfolding reset_password ◌>>=◌
  reset_password_failed raw_token new_password w e failed =
      from_token_failed new_password
        (unless_expired (λ (t : PasswordResetToken). t.expires_at) env.now
          (c.find_first PasswordResetToken (λ t. text_eq t.token_hash (crypto.hash_token raw_token))
            w.db.reset_tokens))
        w e failed

  transaction_done :
      (email : User → Email) (w : World) (r : Result User) (v : World) (k : ℕ)
      → ((u : User) → r ≡ ok u → All (λ (t : RefreshToken). t.user_id ≢ k) v.db.refresh_tokens)
      → (continue
          (keep_on_success w r v).0
          (λ u. send_safely env (email u))
          (keep_on_success w r v).1).0
        ≡ ok tt
      → All
          (λ (t : RefreshToken). t.user_id ≢ k)
          (continue
            (keep_on_success w r v).0
            (λ u. send_safely env (email u))
            (keep_on_success w r v).1).1.db.refresh_tokens
  transaction_done email w (ok u) v k h done =
      rw ((send_safely-ReadOnly env (email u)).keeps v) (h u refl)
  transaction_done email w (err x) v k h done = cc

  body_revokes :
      (stored : PasswordResetToken) (password_hash : Text) (w : World) (u : User)
      → (reset_body c env crypto stored password_hash w).0 ≡ ok u
      → All
          (λ (t : RefreshToken). t.user_id ≢ stored.user_id)
          (reset_body c env crypto stored password_hash w).1.db.refresh_tokens
  body_revokes stored password_hash w u e =
      rw (reset_body-revokes stored password_hash w u e)
        (delete_where-All (λ (t : RefreshToken). t.user_id) stored.user_id w.db.refresh_tokens)

  -- A reset that succeeds with the token that was found leaves no refresh token of the user of that
  -- token.
  pub reset_password_revokes :
      (raw_token new_password : Text) (w : World) (stored : PasswordResetToken)
      → unless_expired
          (λ (t : PasswordResetToken). t.expires_at)
          env.now
          (c.find_first PasswordResetToken
            (λ t. text_eq t.token_hash (crypto.hash_token raw_token))
            w.db.reset_tokens)
        ≡ some stored
      → (reset_password c env crypto raw_token new_password w).0 ≡ ok tt
      → All
          (λ (t : RefreshToken). t.user_id ≢ stored.user_id)
          (reset_password c env crypto raw_token new_password w).1.db.refresh_tokens
  unfolding reset_password ◌>>=◌
  reset_password_revokes raw_token new_password w stored found =
      let body = reset_body c env crypto stored (crypto.hash_password new_password) in
      let k = λ (user : User). send_safely env (confirmation c env crypto user) in
      rw found (
        subst
          (λ (x : Result User × World).
            (continue x.0 k x.1).0 ≡ ok tt
            → All (λ (t : RefreshToken). t.user_id ≢ stored.user_id)
                (continue x.0 k x.1).1.db.refresh_tokens)
          (sym (law.transaction_lem User body w))
          (transaction_done (confirmation c env crypto) w (body w).0 (body w).1 stored.user_id
            (λ u e. body_revokes stored (crypto.hash_password new_password) w u e)))
