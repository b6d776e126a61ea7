-- ===== src/Oauth/Codes/Once.antt =====
-- A code that was redeemed is not redeemed again, whatever happens in between.
use Prim.Native.String.{String}
use fxa_lite.Prelude.{
  some_injective, none_ne, ℕ, ◌≡◌, ◌≢◌, refl, Bool, false, Option, none, some, List, [], ◌∷◌, ◌++◌,
  arith, All, str_eq, eq_iff, ◌∙◌, ltb, sym, ap, ◌&&◌,
}
use fxa_lite.Exec.{ok}
use fxa_lite.Table.{fetch_one, delete}
use fxa_lite.Table.Laws.{fetch_one-delete_of, fetch_one-holds}
use fxa_lite.Oauth.Clients.{Client}
use fxa_lite.Oauth.Grant.{Grant}
use fxa_lite.Accounts.Database.{
  Database, Device, OauthCode, touch_profile, create_account, delete_account, delete_rows_of,
  delete_sessions,
}
use fxa_lite.Accounts.Database.Tokens.{
  oauth_code, create_oauth_code, delete_oauth_code, delete_expired_oauth_codes,
  create_session_token, create_key_fetch_token, create_refresh_token, delete_session_token,
  touch_session_token, reauthenticate_session_token, delete_key_fetch_token, touch_refresh_token,
  delete_refresh_token,
}
use fxa_lite.Accounts.Database.Devices.{
  device, upsert_device, delete_device, delete_found, with_token,
}
use fxa_lite.Accounts.Integrity.{on_users, Write, written, write_all}
use fxa_lite.Oauth.Codes.{TokenRequest, authorization_code_grant}
use fxa_lite.Oauth.Codes.Bound.{authorization_code_grant-Redeems}

-- The write does not create the code.
abbrev pub Spares : String → Write → Type 0
Spares id (Write.new_code c) = str_eq c.code id ≡ false
Spares id _ = Unit

-- A table of codes without the code.
abbrev Lacks : String → List OauthCode → Type 0
Lacks id codes = fetch_one (λ c. str_eq c.code id) codes ≡ none

Lacks-delete :
    (id : String) (p : OauthCode → Bool) (codes : List OauthCode)
    → Lacks id codes
    → Lacks id (delete p codes)
unfolding fetch_one delete
Lacks-delete id p [] h = refl
Lacks-delete id p (c ∷ codes) h = ground (arith, Lacks-delete id p codes)

Lacks-append :
    (id : String) (codes : List OauthCode) (new : OauthCode)
    → str_eq new.code id ≡ false
    → Lacks id codes
    → Lacks id (codes ++ (new ∷ []))
unfolding fetch_one
Lacks-append id [] new n h = ground arith
Lacks-append id (c ∷ codes) new n h = ground (arith, Lacks-append id codes new n)

with_token-codes :
    (statement : String → Database → Database) (o : Option String) (db : Database)
    → ((id : String) → (statement id db).oauth_codes ≡ db.oauth_codes)
    → (with_token statement o db).oauth_codes ≡ db.oauth_codes
unfolding with_token
with_token-codes statement none db k = refl
with_token-codes statement (some id) db k = ground (arith, k id)

delete_found-codes :
    (o : Option Device) (db : Database) → (delete_found o db).oauth_codes ≡ db.oauth_codes
unfolding delete_found delete_refresh_token delete_session_token delete_sessions
delete_found-codes none db = refl
delete_found-codes (some d) db =
    let this : Device → Bool = λ e. str_eq e.uid d.uid && str_eq e.id d.id in
    let left = record db { devices = delete this db.devices } in
    with_token-codes delete_refresh_token d.refresh_token_id
      (with_token delete_session_token d.session_token_id left) (λ id. refl)
    ∙ with_token-codes delete_session_token d.session_token_id left (λ id. refl)

written-Lacks :
    (id : String) (w : Write) (db : Database)
    → Spares id w
    → Lacks id db.oauth_codes
    → Lacks id (written w db).oauth_codes
unfolding written create_account delete_account delete_rows_of delete_sessions create_session_token
    create_key_fetch_token create_oauth_code delete_oauth_code delete_expired_oauth_codes
    create_refresh_token upsert_device delete_device touch_profile touch_session_token
    reauthenticate_session_token delete_session_token delete_key_fetch_token touch_refresh_token
    delete_refresh_token on_users
written-Lacks id (Write.new_account a) db s h = ground arith
written-Lacks id (Write.profile_change uid at) db s h = h
written-Lacks id (Write.account_removal uid) db s h =
    Lacks-delete id (λ c. str_eq c.uid uid) db.oauth_codes h
written-Lacks id (Write.new_session t) db s h = ground arith
written-Lacks id (Write.session_touch t at) db s h = h
written-Lacks id (Write.session_reauthentication t at) db s h = h
written-Lacks id (Write.session_removal t) db s h = h
written-Lacks id (Write.new_key_fetch t) db s h = ground arith
written-Lacks id (Write.key_fetch_removal t) db s h = h
written-Lacks id (Write.new_code c) db s h = ground (arith, Lacks-append id db.oauth_codes c s h)
written-Lacks id (Write.code_removal c) db s h =
    Lacks-delete id (λ d. str_eq d.code c) db.oauth_codes h
written-Lacks id (Write.expired_codes before) db s h =
    Lacks-delete id (λ c. ltb c.created_at before) db.oauth_codes h
written-Lacks id (Write.new_refresh t) db s h = ground arith
written-Lacks id (Write.refresh_touch t at) db s h = h
written-Lacks id (Write.refresh_removal t) db s h = h
written-Lacks id (Write.device_write d) db s h = ground arith
written-Lacks id (Write.device_removal uid d) db s h =
    ap (fetch_one (λ c. str_eq c.code id)) (delete_found-codes (device uid d db) db) ∙ h
written-Lacks id (Write.new_sync_user u) db s h = h
written-Lacks id (Write.sync_user_change uid generation keys_changed_at) db s h = h
written-Lacks id (Write.sync_user_replacement uid at) db s h = h
written-Lacks id (Write.other_replacements fxa_uid keep at) db s h = h

write_all-Lacks :
    (id : String) (ws : List Write) (db : Database)
    → All (Spares id) ws
    → Lacks id db.oauth_codes
    → Lacks id (write_all ws db).oauth_codes
unfolding write_all
write_all-Lacks id [] db s h = h
write_all-Lacks id (w ∷ ws) db s h =
    write_all-Lacks id ws (written w db) s.1 (written-Lacks id w db s.0 h)

Lacks-delete_oauth_code :
    (id : String) (codes : List OauthCode) → Lacks id (delete (λ c. str_eq c.code id) codes)
Lacks-delete_oauth_code id codes =
    fetch_one-delete_of (λ c. str_eq c.code id) (λ c. str_eq c.code id) codes (λ c e. e)

redeemed-Lacks :
    (sha256_hex s256 : String → String) (client : Client) (payload : TokenRequest) (ttl now : ℕ)
    (db : Database) (g : Grant) (presented : String)
    → payload.code ≡ some presented
    → (authorization_code_grant sha256_hex s256 client payload ttl now db).0 ≡ ok g
    → Lacks
        (sha256_hex presented)
        (authorization_code_grant sha256_hex s256 client payload ttl now db).1.oauth_codes
unfolding oauth_code delete_oauth_code
redeemed-Lacks sha256_hex s256 client payload ttl now db g presented p h =
    let (q, same, code, found, _, gone) =
      authorization_code_grant-Redeems sha256_hex s256 client payload ttl now db g h in
    let key : sha256_hex q ≡ sha256_hex presented = ap sha256_hex (some_injective (sym same ∙ p)) in
    let id : code.code ≡ sha256_hex q =
      (eq_iff code.code (sha256_hex q)).0
        (fetch_one-holds (λ c. str_eq c.code (sha256_hex q)) db.oauth_codes found) in
    rw (gone, id, key) (Lacks-delete_oauth_code (sha256_hex presented) db.oauth_codes)

-- A code that was redeemed for a grant is never redeemed again: whatever writes to the database
-- come in between, as long as none creates a code with the same digest, a second request with that
-- code gets no grant, from whichever client, with whichever verifier and at whatever time it comes.
pub authorization_code_grant-once :
    (sha256_hex s256 : String → String) (client : Client) (payload : TokenRequest) (ttl now : ℕ)
    (db : Database) (g : Grant) (presented : String) (between : List Write) (client' : Client)
    (payload' : TokenRequest) (ttl' now' : ℕ) (g' : Grant)
    → payload.code ≡ some presented
    → payload'.code ≡ some presented
    → (authorization_code_grant sha256_hex s256 client payload ttl now db).0 ≡ ok g
    → All (Spares (sha256_hex presented)) between
    → (authorization_code_grant sha256_hex s256 client' payload' ttl' now' (
        write_all between (authorization_code_grant sha256_hex s256 client payload ttl now db).1)).0
      ≢ ok g'
unfolding oauth_code
authorization_code_grant-once sha256_hex s256 client payload ttl now db g presented between client'
      payload' ttl' now' g' p p' h spared again =
    let after = (authorization_code_grant sha256_hex s256 client payload ttl now db).1 in
    let later = write_all between after in
    let lacks =
      write_all-Lacks (sha256_hex presented) between after spared
        (redeemed-Lacks sha256_hex s256 client payload ttl now db g presented p h) in
    let (q, same, code, found, _, _) =
      authorization_code_grant-Redeems sha256_hex s256 client' payload' ttl' now' later g' again in
    let here : q ≡ presented = some_injective (sym same ∙ p') in
    none_ne (
      sym lacks
      ∙ (ap (λ x. fetch_one (λ c. str_eq c.code (sha256_hex x)) later.oauth_codes) (sym here)
          ∙ found))
