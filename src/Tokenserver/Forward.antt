-- ===== src/Tokenserver/Forward.antt =====
-- What passes validation moves an account's record forward, and a retry moves it no further.
use fxa_lite.Prelude.{
  Option, none, some, ℕ, ◌≤◌, ◌<◌, String, ◌≡◌, ◌≢◌, inl, inr, ◌⊎◌, false, some, List, arith,
  str_eq, eq_iff, Bool-cases,
}
use fxa_lite.Exec.{ok}
use fxa_lite.Tokenserver.Users.{SyncUser, Users}
use fxa_lite.Tokenserver.Allocate.{
  AuthData, Facts, validate, retired, next_generation, next_keys_changed_at,
}

-- what a report may do to the value on record: not lower it, and not drop it
abbrev pub IsKept : Option ℕ → Option ℕ → Type 0
IsKept none new = Unit
IsKept (some old) none = ⊥
IsKept (some old) (some new) = old ≤ new

-- later, as far as both are there
abbrev pub IsLater : Option ℕ → Option ℕ → Type 0
IsLater (some old) (some new) = old < new
IsLater _ _ = Unit

-- A request that validates never lowers the generation or the key timestamp of the record, and
-- never drops a key timestamp that the record has.
pub validate-forward :
    (auth : AuthData) (user : SyncUser) (states : List String)
    → validate auth user states ≡ ok tt
    → (user.generation ≤ next_generation auth user)
      × IsKept user.keys_changed_at (next_keys_changed_at auth user)
unfolding validate next_generation next_keys_changed_at
validate-forward auth user states h = (ground arith, ground arith)

-- A changed client state passes only if it is not one that the account has retired, is not empty
-- unless the old one was, and comes with a later generation and a later key timestamp, as far as
-- the request and the record have them.
pub validate-changed :
    (auth : AuthData) (user : SyncUser) (states : List String)
    → validate auth user states ≡ ok tt
    → auth.client_state ≢ user.client_state
    → (retired auth.client_state states ≡ false)
      × (user.client_state ≡ "" ⊎ auth.client_state ≢ "")
      × IsLater (some user.generation) auth.generation
      × IsLater user.keys_changed_at auth.keys_changed_at
unfolding validate
validate-changed auth user states h changed = (
  ground (arith, eq_iff auth.client_state user.client_state),
  elim (Bool-cases (str_eq user.client_state "")) [
    | inl e ↦ inl ((eq_iff user.client_state "").0 e)
    | inr e ↦ inr (λ p.
        ground (arith, eq_iff auth.client_state "", eq_iff auth.client_state user.client_state))
  ],
  ground (arith, eq_iff auth.client_state user.client_state),
  ground (arith, eq_iff auth.client_state user.client_state),
)

-- the record as an unchanged client state should leave it
abbrev moved_user : AuthData → SyncUser → SyncUser
moved_user auth user = record user {
  generation = next_generation auth user;
  keys_changed_at = next_keys_changed_at auth user;
}

abbrev facts_of : AuthData → SyncUser → Facts
facts_of auth user = record {
  uid = user.uid;
  generation = next_generation auth user;
  keys_changed_at = next_keys_changed_at auth user;
}
