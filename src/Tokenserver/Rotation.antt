-- ===== src/Tokenserver/Rotation.antt =====
-- A key rotation: one new live row, every older row of the account retired, the other accounts as
-- they were, and the new row current from then on.
use fxa_lite.Prelude.{ℕ, ◌<◌, String, Bool, str_eq, All}
use fxa_lite.Tokenserver.Users.{SyncUser, Users, new_user}
use fxa_lite.Tokenserver.Allocate.{AuthData, next_generation, next_keys_changed_at}

abbrev pub user_after : AuthData → SyncUser → ℕ → Users → SyncUser
user_after auth user now db =
    new_user auth.fxa_uid auth.client_state (next_generation auth user)
      (next_keys_changed_at auth user) now db

abbrev pub of_account : String → SyncUser → Bool
of_account fxa_uid r = str_eq r.fxa_uid fxa_uid

-- every uid has been handed out by the counter
abbrev pub IsNumbered : Users → Type 0
IsNumbered db = All (λ r. r.uid < db.next_uid) db.rows
