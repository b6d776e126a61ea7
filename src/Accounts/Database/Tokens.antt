-- ===== src/Accounts/Database/Tokens.antt =====
-- db.py: the statements on session tokens, key fetch tokens, OAuth codes and refresh tokens.
use Prim.Native.String.{String}
use fxa_lite.Prelude.{
  ℕ, Bool, not, ◌&&◌, Option, List, [], ◌∷◌, ◌++◌, str_eq, ltb, leb, is_some, if◌then◌else◌,
}
use fxa_lite.Exec.{ok, raised}
use fxa_lite.Errors.{integrity_error}
use fxa_lite.Table.{select, fetch_one, delete, update, row_count}
use fxa_lite.Table.Order.{sort_by}
use fxa_lite.Accounts.Database.{
  Database, Db, SessionToken, KeyFetchToken, OauthCode, RefreshToken, account, delete_sessions,
}

-- The uid refers to an account, and no row has the key.
unfoldable pub is_insertable {ℓ} : {A : Type ℓ} → String → Option A → Database → Bool
unfolding account
is_insertable uid found db = is_some (account uid db) && not (is_some found)

unfoldable pub session_token : String → Database → Option SessionToken
session_token token_id db = fetch_one (λ t. str_eq t.token_id token_id) db.session_tokens

unfoldable pub session_tokens : String → Database → List SessionToken
session_tokens uid db =
    sort_by (λ a b. leb a.created_at b.created_at)
      (select (λ t. str_eq t.uid uid) db.session_tokens)

unfoldable pub create_session_token : SessionToken → Db (Unit {0})
unfolding session_token is_insertable
create_session_token token db =
    if is_insertable token.uid (session_token token.token_id db) db
    then (ok tt, record db { session_tokens = db.session_tokens ++ (token ∷ []) })
    else (raised integrity_error, db)

unfoldable pub touch_session_token : String → ℕ → Database → Database
touch_session_token token_id at db = record db {
  session_tokens =
      update (λ t. str_eq t.token_id token_id) (λ t. record t { last_access_time = at })
        db.session_tokens;
}

unfoldable pub reauthenticate_session_token : String → ℕ → Database → Database
reauthenticate_session_token token_id at db = record db {
  session_tokens =
      update (λ t. str_eq t.token_id token_id)
        (λ t. record t { auth_at = at; last_access_time = at }) db.session_tokens;
}

unfoldable pub delete_session_token : String → Database → Database
unfolding delete_sessions
delete_session_token token_id db = delete_sessions (λ t. str_eq t.token_id token_id) db

unfoldable pub key_fetch_token : String → Database → Option KeyFetchToken
key_fetch_token token_id db = fetch_one (λ t. str_eq t.token_id token_id) db.key_fetch_tokens

unfoldable pub create_key_fetch_token : KeyFetchToken → Db (Unit {0})
unfolding key_fetch_token is_insertable
create_key_fetch_token token db =
    if is_insertable token.uid (key_fetch_token token.token_id db) db
    then (ok tt, record db { key_fetch_tokens = db.key_fetch_tokens ++ (token ∷ []) })
    else (raised integrity_error, db)

unfoldable pub delete_key_fetch_token : String → Database → Database
delete_key_fetch_token token_id db = record db {
  key_fetch_tokens = delete (λ t. str_eq t.token_id token_id) db.key_fetch_tokens;
}

unfoldable pub oauth_code : String → Database → Option OauthCode
oauth_code code_id db = fetch_one (λ c. str_eq c.code code_id) db.oauth_codes

unfoldable pub create_oauth_code : OauthCode → Db (Unit {0})
unfolding oauth_code is_insertable
create_oauth_code code db =
    if is_insertable code.uid (oauth_code code.code db) db
    then (ok tt, record db { oauth_codes = db.oauth_codes ++ (code ∷ []) })
    else (raised integrity_error, db)

unfoldable pub delete_oauth_code : String → Database → Database
delete_oauth_code code_id db = record db {
  oauth_codes = delete (λ c. str_eq c.code code_id) db.oauth_codes;
}

-- How many codes were too old, and the tables without them.
unfoldable pub delete_expired_oauth_codes : ℕ → Database → ℕ × Database
delete_expired_oauth_codes before db = (
  row_count (λ c. ltb c.created_at before) db.oauth_codes,
  record db { oauth_codes = delete (λ c. ltb c.created_at before) db.oauth_codes },
)

unfoldable pub refresh_token : String → Database → Option RefreshToken
refresh_token token_id db = fetch_one (λ t. str_eq t.token_id token_id) db.refresh_tokens

unfoldable pub refresh_tokens : String → Database → List RefreshToken
refresh_tokens uid db =
    sort_by (λ a b. leb a.created_at b.created_at)
      (select (λ t. str_eq t.uid uid) db.refresh_tokens)

unfoldable pub create_refresh_token : RefreshToken → Db (Unit {0})
unfolding refresh_token is_insertable
create_refresh_token token db =
    if is_insertable token.uid (refresh_token token.token_id db) db
    then (ok tt, record db { refresh_tokens = db.refresh_tokens ++ (token ∷ []) })
    else (raised integrity_error, db)

unfoldable pub touch_refresh_token : String → ℕ → Database → Database
touch_refresh_token token_id at db = record db {
  refresh_tokens =
      update (λ t. str_eq t.token_id token_id) (λ t. record t { last_used_at = at })
        db.refresh_tokens;
}

unfoldable pub delete_refresh_token : String → Database → Database
delete_refresh_token token_id db = record db {
  refresh_tokens = delete (λ t. str_eq t.token_id token_id) db.refresh_tokens;
}
