-- ===== src/Auth/Rotation/Repository.antt =====
-- Spent token hashes through the methods of the repositories.
use ch_tech_landing_page_bac.Base.{
  ℕ, false, Option, none, some, List, [], ◌∷◌, ◌≡◌, ◌≤◌, refl, arith,
}
use ch_tech_landing_page_bac.Text.{Str}
use ch_tech_landing_page_bac.Domain.Time.{Time}
use ch_tech_landing_page_bac.Models.{Uuid, RefreshTokenModel, Db}
use ch_tech_landing_page_bac.App.{World, get_db, now, uuid4, token_urlsafe, commit}
use ch_tech_landing_page_bac.App.Keeps.{
  Yields, Anything, bind-Yields, then-Yields, pure-Yields, lift-Yields, or_raise-Yields,
  commit-Yields,
}
use ch_tech_landing_page_bac.App.Outside.{Env}
use ch_tech_landing_page_bac.Auth.Tokens.{
  RefreshToken, create_token, get_by_token_hash, save, revoke_if_active, purge_older_than,
  delete_ids, revoke_found, with_revoked,
}
use ch_tech_landing_page_bac.Auth.Users.{get_by_id, get_by_email, record_login}
use ch_tech_landing_page_bac.Auth.Rotation.{IsSpent, IsSpent-update, IsSpent-delete}

module _ (env : Env) (h : Str) where
  -- The hash is spent, and no refresh token still to be drawn has it.
  pub record IsDead (w : World) : Type 0 where
    pub spent : IsSpent env h w.db.refresh_tokens
    pub unissued :
        (n : ℕ) → w.secrets ≤ n → env.same_text (env.sha256_hex (env.secret_at n)) h ≡ false

  abbrev pub OtherHash : Str → Type 0
  OtherHash k = env.same_text k h ≡ false

  same_tables :
      {w w' : World}
      → IsDead w
      → w'.db.refresh_tokens ≡ w.db.refresh_tokens
      → w'.secrets ≡ w.secrets
      → IsDead w'
  same_tables d e f = record { spent = rw e d.spent; unissued = λ n le. d.unissued n (omega arith) }

  pub now-Yields : Yields IsDead (now env) Anything
  unfolding now
  now-Yields = record { run = λ w d. (same_tables d refl refl, tt) }

  uuid4-Yields : Yields IsDead (uuid4 env) Anything
  unfolding uuid4
  uuid4-Yields = record { run = λ w d. (same_tables d refl refl, tt) }

  pub token_urlsafe-Yields :
      Yields IsDead (token_urlsafe env) (λ raw. OtherHash (env.sha256_hex raw))
  unfolding token_urlsafe
  token_urlsafe-Yields = record {
    run = λ w d. (
      record { spent = d.spent; unissued = λ n le. d.unissued n (omega arith) },
      d.unissued w.secrets (omega arith),
    );
  }

  abbrev SpentIn : Db → Type 0
  SpentIn db = IsSpent env h db.refresh_tokens

  get_db-Yields : Yields IsDead get_db SpentIn
  unfolding get_db
  get_db-Yields = record { run = λ w d. (d, d.spent) }

  commit_spent : (db : Db) → SpentIn db → Yields IsDead (commit env db) Anything
  commit_spent db s = commit-Yields env db (λ w d. record { spent = s; unissued = d.unissued })

  save_revoked :
      (k : Uuid) (at : Time) (db : Db) → SpentIn db → SpentIn (with_revoked k (some at) db)
  save_revoked k at db s = IsSpent-update env h k at db.refresh_tokens s

  -- A new row has another hash.
  pub create_token-Yields :
      (user_id : Uuid) (token_hash : Str) (issued_at expires_at : Time)
      (user_agent ip_address : Option Str)
      → OtherHash token_hash
      → Yields IsDead
          (create_token env user_id token_hash issued_at expires_at user_agent ip_address)
          Anything
  unfolding create_token
  create_token-Yields user_id token_hash issued_at expires_at user_agent ip_address other =
      bind-Yields uuid4-Yields λ k _.
        bind-Yields get_db-Yields
          λ db s. then-Yields (commit_spent _ (ground arith, s)) (pure-Yields _ tt)

  pub get_by_token_hash-Yields : (k : Str) → Yields IsDead (get_by_token_hash env k) Anything
  unfolding get_by_token_hash
  get_by_token_hash-Yields k =
      bind-Yields get_db-Yields λ db s. bind-Yields (lift-Yields _) λ found _. pure-Yields _ tt

  -- Only a revoked token is ever saved.
  pub save-Yields :
      (token : RefreshToken) (at : Time)
      → token.revoked_at ≡ some at
      → Yields IsDead (save env token) Anything
  unfolding save
  save-Yields token at e = bind-Yields get_db-Yields λ db s. bind-Yields (lift-Yields _) λ found _.
      bind-Yields (or_raise-Yields found _)
        λ model _. rw e (commit_spent _ (save_revoked model.id at db s))

  revoke_found-Yields :
      (found : Option RefreshTokenModel) (at : Time) (db : Db)
      → SpentIn db
      → Yields IsDead (revoke_found env found at db) Anything
  unfolding revoke_found
  revoke_found-Yields none at db s = pure-Yields _ tt
  revoke_found-Yields (some model) at db s =
      then-Yields (commit_spent _ (save_revoked model.id at db s)) (pure-Yields _ tt)

  pub revoke_if_active-Yields :
      (k : Str) (at : Time) → Yields IsDead (revoke_if_active env k at) Anything
  unfolding revoke_if_active
  revoke_if_active-Yields k at =
      bind-Yields get_db-Yields
        λ db s. bind-Yields (lift-Yields _) λ found _. revoke_found-Yields found at db s

  delete_ids-Yields :
      (ids : List Uuid) (db : Db) → SpentIn db → Yields IsDead (delete_ids env ids db) Anything
  unfolding delete_ids
  delete_ids-Yields [] db s = pure-Yields _ tt
  delete_ids-Yields (k ∷ ks) db s =
      then-Yields (commit_spent _ (IsSpent-delete env h _ db.refresh_tokens s)) (pure-Yields _ tt)

  pub purge_older_than-Yields :
      (cutoff : Time) → Yields IsDead (purge_older_than env cutoff) Anything
  unfolding purge_older_than
  purge_older_than-Yields cutoff = bind-Yields get_db-Yields λ db s. delete_ids-Yields _ db s

  pub get_by_id-Yields : (k : Uuid) → Yields IsDead (get_by_id env k) Anything
  unfolding get_by_id
  get_by_id-Yields k =
      bind-Yields get_db-Yields λ db s. bind-Yields (lift-Yields _) λ found _. lift-Yields _

  pub get_by_email-Yields : (email : Str) → Yields IsDead (get_by_email env email) Anything
  unfolding get_by_email
  get_by_email-Yields email =
      bind-Yields get_db-Yields λ db s. bind-Yields (lift-Yields _) λ found _. lift-Yields _

  pub record_login-Yields : (k : Uuid) (at : Time) → Yields IsDead (record_login env k at) Anything
  unfolding record_login
  record_login-Yields k at = bind-Yields get_db-Yields λ db s.
      bind-Yields (lift-Yields _) λ found _.
        bind-Yields (or_raise-Yields found _)
          λ model _. bind-Yields now-Yields λ stamp _. commit_spent _ s
