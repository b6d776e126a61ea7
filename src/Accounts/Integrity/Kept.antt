-- ===== src/Accounts/Integrity/Kept.antt =====
-- Each write keeps the references between the tables.
use Prim.Native.String.{String}
use fxa_lite.Prelude.{
  ℕ, ◌≡◌, refl, false, Bool, Option, some, none, List, [], ◌∷◌, ◌++◌, arith, All, All-map,
  Bool-cases, inl, inr, str_eq, ◌∙◌,
}
use fxa_lite.Table.{delete, update}
use fxa_lite.Table.Laws.{All-delete}
use fxa_lite.Table.Kept.{
  is_some-append, is_some-update, is_some-delete, All-add, All-update, All-delete_both,
}
use fxa_lite.Accounts.Database.{
  Database, Account, SessionToken, Device, account, create_account, touch_profile, delete_sessions,
  is_among,
}
use fxa_lite.Accounts.Database.Tokens.{
  session_token, create_session_token, touch_session_token, reauthenticate_session_token,
  is_insertable,
}
use fxa_lite.Accounts.Integrity.{IsKnown, Points, IsConsistent}

-- More accounts, with those that were there.
accounts-IsConsistent :
    (db : Database) (accounts : List Account)
    → ((uid : String) → IsKnown db.accounts uid → IsKnown accounts uid)
    → IsConsistent db
    → IsConsistent (record db { accounts = accounts })
accounts-IsConsistent db accounts k h = record {
  sessions =
      All-map (λ t. IsKnown db.accounts t.uid) (λ t. IsKnown accounts t.uid) db.session_tokens
        (λ r. k r.uid) h.sessions;
  key_fetches =
      All-map (λ t. IsKnown db.accounts t.uid) (λ t. IsKnown accounts t.uid) db.key_fetch_tokens
        (λ r. k r.uid) h.key_fetches;
  codes =
      All-map (λ c. IsKnown db.accounts c.uid) (λ c. IsKnown accounts c.uid) db.oauth_codes
        (λ r. k r.uid) h.codes;
  refreshes =
      All-map (λ t. IsKnown db.accounts t.uid) (λ t. IsKnown accounts t.uid) db.refresh_tokens
        (λ r. k r.uid) h.refreshes;
  owners =
      All-map (λ d. IsKnown db.accounts d.uid) (λ d. IsKnown accounts d.uid) db.devices
        (λ r. k r.uid) h.owners;
  pointers = h.pointers;
  storage =
      All-map (λ u. IsKnown db.accounts u.fxa_uid) (λ u. IsKnown accounts u.fxa_uid) db.sync_users
        (λ r. k r.fxa_uid) h.storage;
}

pub create_account-IsConsistent :
    (new : Account) (db : Database) → IsConsistent db → IsConsistent (create_account new db).1
unfolding create_account
create_account-IsConsistent new db h =
    let more =
      accounts-IsConsistent db (db.accounts ++ (new ∷ []))
        (λ uid. is_some-append (λ a. str_eq a.uid uid) db.accounts new) h in
    ground (arith, h, more)

pub touch_profile-IsConsistent :
    (uid : String) (at : ℕ) (db : Database)
    → IsConsistent db
    → IsConsistent (touch_profile uid at db)
unfolding touch_profile
touch_profile-IsConsistent uid at db h =
    let change : Account → Account = λ a. record a { profile_changed_at = at } in
    accounts-IsConsistent db (update (λ a. str_eq a.uid uid) change db.accounts)
      (λ x k.
        is_some-update (λ a. str_eq a.uid x) (λ a. str_eq a.uid uid) change db.accounts (λ a. refl)
        ∙ k)
      h

-- Other sessions of known accounts, with those that were there.
sessions-IsConsistent :
    (db : Database) (sessions : List SessionToken)
    → All (λ t. IsKnown db.accounts t.uid) sessions
    → ((o : Option String) → Points db.session_tokens o → Points sessions o)
    → IsConsistent db
    → IsConsistent (record db { session_tokens = sessions })
sessions-IsConsistent db sessions n k h = record {
  sessions = n;
  key_fetches = h.key_fetches;
  codes = h.codes;
  refreshes = h.refreshes;
  owners = h.owners;
  pointers =
      All-map (λ d. Points db.session_tokens d.session_token_id)
        (λ d. Points sessions d.session_token_id) db.devices (λ d. k d.session_token_id) h.pointers;
  storage = h.storage;
}

Points-append :
    (sessions : List SessionToken) (new : SessionToken) (o : Option String)
    → Points sessions o
    → Points (sessions ++ (new ∷ [])) o
Points-append sessions new none p = tt
Points-append sessions new (some id) p = is_some-append (λ t. str_eq t.token_id id) sessions new p

pub create_session_token-IsConsistent :
    (new : SessionToken) (db : Database)
    → IsConsistent db
    → IsConsistent (create_session_token new db).1
unfolding create_session_token is_insertable account
create_session_token-IsConsistent new db h =
    elim (Bool-cases (is_insertable new.uid (session_token new.token_id db) db)) [
      | inl e ↦ rw e (
          sessions-IsConsistent db (db.session_tokens ++ (new ∷ []))
            (All-add (λ t. IsKnown db.accounts t.uid) db.session_tokens new h.sessions
              (ground arith))
            (Points-append db.session_tokens new) h)
      | inr e ↦ rw e h
    ]

module _ (p : SessionToken → Bool) (f : SessionToken → SessionToken)
    (same_uid : (t : SessionToken) → (f t).uid ≡ t.uid)
    (same_id : (t : SessionToken) → (f t).token_id ≡ t.token_id) where
  Points-update :
      (sessions : List SessionToken) (o : Option String)
      → Points sessions o
      → Points (update p f sessions) o
  Points-update sessions none k = tt
  Points-update sessions (some id) k =
      is_some-update (λ t. str_eq t.token_id id) p f sessions (λ t. rw (same_id t) refl) ∙ k

  update-IsConsistent :
      (db : Database)
      → IsConsistent db
      → IsConsistent (record db { session_tokens = update p f db.session_tokens })
  update-IsConsistent db h =
      sessions-IsConsistent db (update p f db.session_tokens)
        (All-update (λ t. IsKnown db.accounts t.uid) p f db.session_tokens
          (λ t k. rw (same_uid t) k) h.sessions)
        (Points-update db.session_tokens) h

pub touch_session_token-IsConsistent :
    (id : String) (at : ℕ) (db : Database)
    → IsConsistent db
    → IsConsistent (touch_session_token id at db)
unfolding touch_session_token
touch_session_token-IsConsistent id at =
    update-IsConsistent (λ t. str_eq t.token_id id) (λ t. record t { last_access_time = at })
      (λ t. refl) (λ t. refl)

pub reauthenticate_session_token-IsConsistent :
    (id : String) (at : ℕ) (db : Database)
    → IsConsistent db
    → IsConsistent (reauthenticate_session_token id at db)
unfolding reauthenticate_session_token
reauthenticate_session_token-IsConsistent id at =
    update-IsConsistent (λ t. str_eq t.token_id id)
      (λ t. record t { auth_at = at; last_access_time = at }) (λ t. refl) (λ t. refl)

-- A pointer to a session that stays.
Points-delete :
    (p : SessionToken → Bool) (sessions : List SessionToken) (o : Option String)
    → is_among p sessions o ≡ false
    → Points sessions o
    → Points (delete p sessions) o
unfolding is_among
Points-delete p sessions none k h = tt
Points-delete p sessions (some id) k h = is_some-delete (λ t. str_eq t.token_id id) p sessions h k

pub delete_sessions-IsConsistent :
    (p : SessionToken → Bool) (db : Database)
    → IsConsistent db
    → IsConsistent (delete_sessions p db)
unfolding delete_sessions
delete_sessions-IsConsistent p db h =
    let gone : Device → Bool = λ d. is_among p db.session_tokens d.session_token_id in
    record {
      sessions = All-delete (λ t. IsKnown db.accounts t.uid) p db.session_tokens h.sessions;
      key_fetches = h.key_fetches;
      codes = h.codes;
      refreshes = h.refreshes;
      owners = All-delete (λ d. IsKnown db.accounts d.uid) gone db.devices h.owners;
      pointers =
          All-map (λ d. (gone d ≡ false) × Points db.session_tokens d.session_token_id)
            (λ d. Points (delete p db.session_tokens) d.session_token_id) (delete gone db.devices)
            (λ d k. Points-delete p db.session_tokens d.session_token_id k.0 k.1)
            (All-delete_both (λ d. Points db.session_tokens d.session_token_id) gone db.devices
              h.pointers);
      storage = h.storage;
    }
