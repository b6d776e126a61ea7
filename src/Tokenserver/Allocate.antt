-- ===== src/Tokenserver/Allocate.antt =====
-- `_current_user`, `_validate` and `_apply`, as `token` runs them. Generations and key timestamps
-- are natural numbers: they come from the server's own tokens and from clocks.
use fxa_lite.Prelude.{
  ℕ, String, Bool, not, true, false, Option, none, some, List, [], ◌∷◌, ◌==◌, ◌&&◌, ◌||◌, ltb, leb,
  str_eq, is_some, if◌then◌else◌, get_or,
}
use fxa_lite.Exec.{Result, ok, raised, Exec, ◌>>=◌, pure, modify}
use fxa_lite.Tokenserver.Users.{
  SyncUser, Users, Refused, invalid_credentials, invalid_keys_changed_at, invalid_generation,
  empty_client_state, stale_client_state, no_generation_change, no_keys_changed_at_change,
  sync_users, account_exists, new_user, create_sync_user, update_sync_user, replace_sync_user,
  replace_other_sync_users, is_live,
}

-- `AuthData`: zero has become `none` on the way in
pub record AuthData : Type 0 where
  pub fxa_uid : String
  pub client_state : String
  pub generation : Option ℕ
  pub keys_changed_at : Option ℕ

-- `_gt`, `_lt`, `_le`: false unless both operands are there
abbrev pub gt : Option ℕ → Option ℕ → Bool
gt (some a) (some b) = ltb b a
gt _ _ = false

abbrev pub lt : Option ℕ → Option ℕ → Bool
lt (some a) (some b) = ltb a b
lt _ _ = false

abbrev pub le : Option ℕ → Option ℕ → Bool
le (some a) (some b) = leb a b
le _ _ = false

unfoldable pub retired : String → List String → Bool
retired state [] = false
retired state (s ∷ states) = str_eq s state || retired state states

-- the `if`s of `_validate` one after the other: the first that holds raises
refuse_if : Bool → Refused → Result Refused Unit → Result Refused Unit
refuse_if true e rest = raised e
refuse_if false e rest = rest

-- `user.keys_changed_at not in (None, 0)`
reported : Option ℕ → Bool
reported none = false
reported (some k) = not (k == 0)

unfoldable pub validate : AuthData → SyncUser → List String → Result Refused Unit
unfolding refuse_if reported
validate auth user states =
    let changed = not (str_eq auth.client_state user.client_state) in
    refuse_if
      (gt auth.keys_changed_at user.keys_changed_at && lt auth.generation auth.keys_changed_at)
      invalid_keys_changed_at
      (refuse_if (not (str_eq user.client_state "") && str_eq auth.client_state "")
        empty_client_state
        (refuse_if (retired auth.client_state states) stale_client_state (
          refuse_if (changed && le auth.generation (some user.generation)) no_generation_change (
            refuse_if (changed && le auth.keys_changed_at user.keys_changed_at)
              no_keys_changed_at_change
              (refuse_if (gt (some user.generation) auth.generation) invalid_generation (
                refuse_if (gt user.keys_changed_at auth.keys_changed_at) invalid_keys_changed_at (
                  refuse_if (not (is_some auth.keys_changed_at) && reported user.keys_changed_at)
                    invalid_keys_changed_at (ok tt))))))))

unfoldable pub next_keys_changed_at : AuthData → SyncUser → Option ℕ
next_keys_changed_at auth user = elim auth.keys_changed_at [
  | some k ↦ some k
  | none ↦ if is_some user.keys_changed_at then some 0 else none
]

-- may keysChangedAt stand in for a generation that was not reported?
stands_in : ℕ → SyncUser → Bool
stands_in k user =
    ltb user.generation k
    && (not (is_some user.keys_changed_at) || gt (some k) user.keys_changed_at)

unfoldable pub next_generation : AuthData → SyncUser → ℕ
unfolding stands_in
next_generation auth user = elim auth.generation [
  | some g ↦ g
  | none ↦ elim auth.keys_changed_at [
    | none ↦ user.generation
    | some k ↦ if stands_in k user then k else user.generation
  ]
]

-- the rows behind the first that a crash has left unreplaced
retire_history : ℕ → List SyncUser → Users → Users
retire_history at [] db = db
retire_history at (old ∷ history) db =
    retire_history at history (if is_live old then replace_sync_user old.uid at db else db)

retired_states : String → List SyncUser → List String
retired_states current [] = []
retired_states current (old ∷ history) =
    let rest = retired_states current history in
    if str_eq old.client_state current then rest else old.client_state ∷ rest

current_of : AuthData → ℕ → List SyncUser → Exec Refused Users (SyncUser × List String)
current_of auth now [] db =
    if account_exists auth.fxa_uid db.accounts
    then (let user =
          new_user auth.fxa_uid auth.client_state (get_or 0 auth.generation) auth.keys_changed_at
            now db in
        (create_sync_user user >>= λ _. pure (user, [])) db)
    else (raised invalid_credentials, db)
current_of auth now (current ∷ history) db = (
  ok (current, retired_states current.client_state history),
  retire_history current.created_at history db,
)

unfoldable pub current_user : AuthData → ℕ → Exec Refused Users (SyncUser × List String)
unfolding current_of retire_history ◌>>=◌ pure retired_states
current_user auth now db = current_of auth now (sync_users auth.fxa_uid db) db

-- what the token is minted from
pub record Facts : Type 0 where
  pub uid : ℕ
  pub generation : ℕ
  pub keys_changed_at : Option ℕ

unfoldable pub same_option : Option ℕ → Option ℕ → Bool
same_option none none = true
same_option (some a) (some b) = a == b
same_option _ _ = false

unfoldable pub rotated : AuthData → SyncUser → ℕ → Exec Refused Users Facts
unfolding ◌>>=◌ pure modify
rotated auth user now db =
    let user' =
      new_user auth.fxa_uid auth.client_state (next_generation auth user)
        (next_keys_changed_at auth user) now db in
    (create_sync_user user' >>= λ _.
    modify (replace_other_sync_users auth.fxa_uid user'.uid now) >>= λ _. pure (record {
      uid = user'.uid;
      generation = next_generation auth user;
      keys_changed_at = next_keys_changed_at auth user;
    }))
      db

moved : AuthData → SyncUser → Exec Refused Users Facts
moved auth user db = (
  ok (record {
    uid = user.uid;
    generation = next_generation auth user;
    keys_changed_at = next_keys_changed_at auth user;
  }),
  if not (next_generation auth user == user.generation)
        || not (same_option (next_keys_changed_at auth user) user.keys_changed_at)
      then update_sync_user user.uid (next_generation auth user) (next_keys_changed_at auth user) db
      else db,
)

unfoldable pub apply : AuthData → SyncUser → ℕ → Exec Refused Users Facts
unfolding rotated moved same_option
apply auth user now db =
    if not (str_eq auth.client_state user.client_state)
    then rotated auth user now db
    else moved auth user db

applied : AuthData → SyncUser → ℕ → Result Refused Unit → Exec Refused Users Facts
applied auth user now (raised e) db = (raised e, db)
applied auth user now (ok _) db = apply auth user now db

validated : AuthData → ℕ → Result Refused (SyncUser × List String) → Exec Refused Users Facts
unfolding applied
validated auth now (raised e) db = (raised e, db)
validated auth now (ok (user, states)) db = applied auth user now (validate auth user states) db

-- The three steps of `token` that decide the uid.
unfoldable pub allocate : AuthData → ℕ → Exec Refused Users Facts
unfolding validated
allocate auth now db = let (r, db') = current_user auth now db in validated auth now r db'
