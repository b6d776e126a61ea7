-- ===== src/Accounts/Sessions/Ended.antt =====
-- What no longer gets in: a deleted account, and a key fetch token that was used.
use Prim.Native.String.{String}
use fxa_lite.Prelude.{
  some_injective, none_ne, ◌≡◌, ◌≢◌, refl, Option, none, some, true, false, Bool, List, arith,
  str_eq, eq_iff, ap, ◌∙◌, sym, subst, [], ◌∷◌, All,
}
use fxa_lite.Exec.{Result, ok, raised}
use fxa_lite.Errors.{Error}
use fxa_lite.Table.{delete}
use fxa_lite.Table.Laws.{fetch_one-delete_of, fetch_one-holds, All-fetch_one}
use fxa_lite.Table.Kept.{All-delete_both}
use fxa_lite.Oauth.Clients.{Client, registered}
use fxa_lite.Accounts.Database.{
  Database, Account, SessionToken, KeyFetchToken, RefreshToken, account, delete_account,
  delete_rows_of, delete_sessions,
}
use fxa_lite.Accounts.Database.Tokens.{
  session_token, key_fetch_token, refresh_token, delete_key_fetch_token,
}
use fxa_lite.Accounts.Credentials.{
  SessionCredentials, KeyFetchCredentials, DeviceCredentials, Offered, session_with, session_found,
  required, optional_session_credentials, session_credentials, key_fetch_with, key_fetch_found,
  key_fetch_credentials, manages, may_manage, of_client, of_account, of_refresh, as_device,
  refresh_credentials, device_credentials, not_found,
}
use fxa_lite.Accounts.Sessions.{account_keys}

module _ (db : Database) where
  key_fetch_with-account :
      (token : KeyFetchToken) (o : Option Account) (c : KeyFetchCredentials)
      → key_fetch_with token o ≡ ok c
      → (o ≡ some c.account) × (c.token ≡ token)
  unfolding key_fetch_with
  key_fetch_with-account token none c h = cc
  key_fetch_with-account token (some a) c h = ground arith

  key_fetch_found-account :
      (o : Option KeyFetchToken) (c : KeyFetchCredentials)
      → key_fetch_found o db ≡ ok c
      → (o ≡ some c.token) × (account c.token.uid db ≡ some c.account)
  unfolding key_fetch_found
  key_fetch_found-account none c h = cc
  key_fetch_found-account (some token) c h =
      let (found, same) = key_fetch_with-account token (account token.uid db) c h in
      (ap some (sym same), ap (λ t. account t.uid db) same ∙ found)

  key_fetch_credentials-account :
      (id : Option String) (c : KeyFetchCredentials)
      → key_fetch_credentials id db ≡ ok c
      → (i : String) × (id ≡ some i)
        × (key_fetch_token i db ≡ some c.token)
        × (account c.token.uid db ≡ some c.account)
  unfolding key_fetch_credentials
  key_fetch_credentials-account none c h = cc
  key_fetch_credentials-account (some i) c h =
      let (found, its) = key_fetch_found-account (key_fetch_token i db) c h in (i, refl, found, its)

-- A key fetch token that has handed over its keys authenticates no second request.
pub account_keys-once :
    (id : Option String) (db : Database) (c c' : KeyFetchCredentials)
    → key_fetch_credentials id db ≡ ok c
    → key_fetch_credentials id (account_keys c db).1 ≢ ok c'
unfolding account_keys delete_key_fetch_token key_fetch_token
account_keys-once id db c c' h again =
    let (i, same, found, _) = key_fetch_credentials-account db id c h in
    let its : c.token.token_id ≡ i =
      (eq_iff c.token.token_id i).0
        (fetch_one-holds (λ t. str_eq t.token_id i) db.key_fetch_tokens found) in
    let (j, same', found', _) = key_fetch_credentials-account (account_keys c db).1 id c' again in
    let key : j ≡ c.token.token_id = some_injective (sym same' ∙ same) ∙ sym its in
    none_ne (
      sym (
        fetch_one-delete_of (λ t. str_eq t.token_id c.token.token_id) (λ t. str_eq t.token_id j)
          db.key_fetch_tokens (λ t e. sym (ap (λ k. str_eq t.token_id k) key) ∙ e))
      ∙ found')

-- The credentials were made for an account that is in the table.
abbrev Found : Database → Account → Type 0
Found db a = (uid : String) × (account uid db ≡ some a)

module _ (db : Database) where
  required-Found :
      (token : SessionToken) (o : Option Account) (c : SessionCredentials)
      → account token.uid db ≡ o
      → required (session_with token o) ≡ ok c
      → Found db c.account
  unfolding session_with required not_found
  required-Found token none c e h = cc
  required-Found token (some a) c e h =
      let same : a ≡ c.account = ground arith in (token.uid, e ∙ ap some same)

  session_found-Found :
      (o : Option SessionToken) (c : SessionCredentials)
      → required (session_found o db) ≡ ok c
      → Found db c.account
  unfolding session_found required not_found
  session_found-Found none c h = cc
  session_found-Found (some token) c h = required-Found token (account token.uid db) c refl h

  session_credentials-Found :
      (id : Option String) (c : SessionCredentials)
      → session_credentials id db ≡ ok c
      → Found db c.account
  unfolding session_credentials optional_session_credentials required
  session_credentials-Found none c h = cc
  session_credentials-Found (some i) c h = session_found-Found (session_token i db) c h

  as_device-Found :
      (r : Result Error SessionCredentials) (c : DeviceCredentials)
      → ((d : SessionCredentials) → r ≡ ok d → Found db d.account)
      → as_device r ≡ ok c
      → Found db c.account
  unfolding as_device
  as_device-Found (raised e) c k h = cc
  as_device-Found (ok d) c k h =
      let same : d.account ≡ c.account = ground arith in subst (Found db) same (k d refl)

  manages-account :
      (a : Account) (token : RefreshToken) (client : Client) (r : Result Error Bool)
      (c : DeviceCredentials)
      → manages a token client r ≡ ok c
      → a ≡ c.account
  unfolding manages
  manages-account a token client (raised e) c h = cc
  manages-account a token client (ok false) c h = cc
  manages-account a token client (ok true) c h = ground arith

  of_client-account :
      (a : Account) (token : RefreshToken) (o : Option Client) (c : DeviceCredentials)
      → of_client a token o ≡ ok c
      → a ≡ c.account
  unfolding of_client
  of_client-account a token none c h = cc
  of_client-account a token (some client) c h =
      manages-account a token client (may_manage token) c (ground arith)

  of_account-Found :
      (token : RefreshToken) (o : Option Account) (clients : List Client) (c : DeviceCredentials)
      → account token.uid db ≡ o
      → of_account token o clients ≡ ok c
      → Found db c.account
  unfolding of_account
  of_account-Found token none clients c e h = cc
  of_account-Found token (some a) clients c e h =
      let same = of_client-account a token (registered token.client_id clients) c h in
      (token.uid, e ∙ ap some same)

  of_refresh-Found :
      (o : Option RefreshToken) (clients : List Client) (c : DeviceCredentials)
      → of_refresh o clients db ≡ ok c
      → Found db c.account
  unfolding of_refresh
  of_refresh-Found none clients c h = cc
  of_refresh-Found (some token) clients c h =
      of_account-Found token (account token.uid db) clients c refl h

  device_credentials-Found :
      (sha256_hex : String → String) (o : Offered) (clients : List Client) (c : DeviceCredentials)
      → device_credentials sha256_hex o clients db ≡ ok c
      → Found db c.account
  unfolding device_credentials refresh_credentials
  device_credentials-Found sha256_hex (Offered.bare_bearer token) clients c h =
      of_refresh-Found (refresh_token (sha256_hex token) db) clients c h
  device_credentials-Found sha256_hex (Offered.session_id id) clients c h =
      as_device-Found (session_credentials id db) c (session_credentials-Found id) h

all_units : (rows : List Account) → All (λ a. Unit {0}) rows
all_units [] = tt
all_units (a ∷ rows) = (tt, all_units rows)

module _ (uid : String) (db : Database) where
  left :
      (u : String) (a : Account)
      → account u (delete_account uid db).1 ≡ some a
      → str_eq a.uid uid ≡ false
  unfolding account delete_account delete_rows_of delete_sessions
  left u a h =
      let rows = delete (λ b. str_eq b.uid uid) db.accounts in
      (All-fetch_one (λ b. (str_eq b.uid uid ≡ false) × Unit) (λ b. str_eq b.uid u) rows
        (All-delete_both (λ b. Unit) (λ b. str_eq b.uid uid) db.accounts (all_units db.accounts))
        h).0

-- After an account is deleted, whatever a request offers, a session token or a refresh token, it
-- is not let in for that account.
pub device_credentials-delete_account :
    (sha256_hex : String → String) (o : Offered) (clients : List Client) (uid : String)
    (db : Database) (c : DeviceCredentials)
    → device_credentials sha256_hex o clients (delete_account uid db).1 ≡ ok c
    → c.account.uid ≢ uid
device_credentials-delete_account sha256_hex o clients uid db c h same =
    let (u, found) = device_credentials-Found (delete_account uid db).1 sha256_hex o clients c h in
    let other = left uid db u c.account found in ground (arith, eq_iff c.account.uid uid)
