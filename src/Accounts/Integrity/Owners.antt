-- ===== src/Accounts/Integrity/Owners.antt =====
-- The writes to the accounts and to the tokens and codes that belong to them keep every owner.
use Prim.Native.String.{String}
use fxa_lite.Prelude.{
  ◌≡◌, true, false, Bool, List, arith, All, All-map, is_some, Bool-cases, inl, inr, str_eq, eq_iff,
  ◌∙◌, ap,
}
use fxa_lite.Table.{delete}
use fxa_lite.Table.Laws.{All-delete, fetch_one-delete_ne}
use fxa_lite.Table.Kept.{All-add, All-delete_both}
use fxa_lite.Accounts.Database.{
  Database, Account, SessionToken, KeyFetchToken, OauthCode, RefreshToken, account, delete_account,
  delete_sessions, delete_rows_of,
}
use fxa_lite.Accounts.Database.Tokens.{
  key_fetch_token, oauth_code, refresh_token, is_insertable, create_key_fetch_token,
  create_oauth_code, create_refresh_token,
}
use fxa_lite.Accounts.Integrity.Kept.{delete_sessions-IsConsistent}
use fxa_lite.Accounts.Integrity.{IsKnown, Points, IsConsistent}

module _ (uid : String) (accounts : List Account) where
  IsKnown-delete :
      (u : String)
      → (str_eq u uid ≡ false) × IsKnown accounts u
      → IsKnown (delete (λ a. str_eq a.uid uid) accounts) u
  IsKnown-delete u h =
      let ne : (a : Account) → str_eq a.uid u ≡ true → str_eq a.uid uid ≡ false =
        λ a e. ground (arith, eq_iff a.uid u, eq_iff a.uid uid, eq_iff u uid) in
      ap is_some (fetch_one-delete_ne (λ a. str_eq a.uid uid) (λ a. str_eq a.uid u) accounts ne)
      ∙ h.1

  -- The rows of the other accounts, in a table with the owners that `of` gives.
  Known-delete :
      {A : Type 0} (of : A → String) (rows : List A)
      → All (λ r. IsKnown accounts (of r)) rows
      → All
          (λ r. IsKnown (delete (λ a. str_eq a.uid uid) accounts) (of r))
          (delete (λ r. str_eq (of r) uid) rows)
  Known-delete of rows h =
      All-map (λ r. (str_eq (of r) uid ≡ false) × IsKnown accounts (of r))
        (λ r. IsKnown (delete (λ a. str_eq a.uid uid) accounts) (of r))
        (delete (λ r. str_eq (of r) uid) rows) (λ r. IsKnown-delete (of r))
        (All-delete_both (λ r. IsKnown accounts (of r)) (λ r. str_eq (of r) uid) rows h)

pub delete_account-IsConsistent :
    (uid : String) (db : Database) → IsConsistent db → IsConsistent (delete_account uid db).1
unfolding delete_account delete_rows_of delete_sessions
delete_account-IsConsistent uid db before =
    let p : SessionToken → Bool = λ t. str_eq t.uid uid in
    let h = delete_sessions-IsConsistent p db before in
    let left = (delete_sessions p db).devices in
    record {
      sessions = Known-delete uid db.accounts (λ t. t.uid) db.session_tokens before.sessions;
      key_fetches = Known-delete uid db.accounts (λ t. t.uid) db.key_fetch_tokens h.key_fetches;
      codes = Known-delete uid db.accounts (λ c. c.uid) db.oauth_codes h.codes;
      refreshes = Known-delete uid db.accounts (λ t. t.uid) db.refresh_tokens h.refreshes;
      owners = Known-delete uid db.accounts (λ d. d.uid) left h.owners;
      pointers =
          All-delete (λ d. Points (delete p db.session_tokens) d.session_token_id)
            (λ d. str_eq d.uid uid) left h.pointers;
      storage = Known-delete uid db.accounts (λ u. u.fxa_uid) db.sync_users h.storage;
    }

pub create_key_fetch_token-IsConsistent :
    (new : KeyFetchToken) (db : Database)
    → IsConsistent db
    → IsConsistent (create_key_fetch_token new db).1
unfolding create_key_fetch_token is_insertable account
create_key_fetch_token-IsConsistent new db h =
    elim (Bool-cases (is_insertable new.uid (key_fetch_token new.token_id db) db)) [
      | inl e ↦ rw e record {
        sessions = h.sessions;
        key_fetches =
            All-add (λ r. IsKnown db.accounts r.uid) db.key_fetch_tokens new h.key_fetches
              (ground arith);
        codes = h.codes;
        refreshes = h.refreshes;
        owners = h.owners;
        pointers = h.pointers;
        storage = h.storage;
      }
      | inr e ↦ rw e h
    ]

pub create_oauth_code-IsConsistent :
    (new : OauthCode) (db : Database) → IsConsistent db → IsConsistent (create_oauth_code new db).1
unfolding create_oauth_code is_insertable account
create_oauth_code-IsConsistent new db h =
    elim (Bool-cases (is_insertable new.uid (oauth_code new.code db) db)) [
      | inl e ↦ rw e record {
        sessions = h.sessions;
        key_fetches = h.key_fetches;
        codes = All-add (λ r. IsKnown db.accounts r.uid) db.oauth_codes new h.codes (ground arith);
        refreshes = h.refreshes;
        owners = h.owners;
        pointers = h.pointers;
        storage = h.storage;
      }
      | inr e ↦ rw e h
    ]

pub create_refresh_token-IsConsistent :
    (new : RefreshToken) (db : Database)
    → IsConsistent db
    → IsConsistent (create_refresh_token new db).1
unfolding create_refresh_token is_insertable account
create_refresh_token-IsConsistent new db h =
    elim (Bool-cases (is_insertable new.uid (refresh_token new.token_id db) db)) [
      | inl e ↦ rw e record {
        sessions = h.sessions;
        key_fetches = h.key_fetches;
        codes = h.codes;
        refreshes =
            All-add (λ r. IsKnown db.accounts r.uid) db.refresh_tokens new h.refreshes
              (ground arith);
        owners = h.owners;
        pointers = h.pointers;
        storage = h.storage;
      }
      | inr e ↦ rw e h
    ]

-- Other rows of the same owners in one table.
pub key_fetches-IsConsistent :
    (db : Database) (rows : List KeyFetchToken)
    → All (λ r. IsKnown db.accounts r.uid) rows
    → IsConsistent db
    → IsConsistent (record db { key_fetch_tokens = rows })
key_fetches-IsConsistent db rows n h = record {
  sessions = h.sessions;
  key_fetches = n;
  codes = h.codes;
  refreshes = h.refreshes;
  owners = h.owners;
  pointers = h.pointers;
  storage = h.storage;
}

-- Other rows of the same owners in one table.
pub codes-IsConsistent :
    (db : Database) (rows : List OauthCode)
    → All (λ r. IsKnown db.accounts r.uid) rows
    → IsConsistent db
    → IsConsistent (record db { oauth_codes = rows })
codes-IsConsistent db rows n h = record {
  sessions = h.sessions;
  key_fetches = h.key_fetches;
  codes = n;
  refreshes = h.refreshes;
  owners = h.owners;
  pointers = h.pointers;
  storage = h.storage;
}

-- Other rows of the same owners in one table.
pub refreshes-IsConsistent :
    (db : Database) (rows : List RefreshToken)
    → All (λ r. IsKnown db.accounts r.uid) rows
    → IsConsistent db
    → IsConsistent (record db { refresh_tokens = rows })
refreshes-IsConsistent db rows n h = record {
  sessions = h.sessions;
  key_fetches = h.key_fetches;
  codes = h.codes;
  refreshes = n;
  owners = h.owners;
  pointers = h.pointers;
  storage = h.storage;
}
