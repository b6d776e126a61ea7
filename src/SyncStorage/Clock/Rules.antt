-- ===== src/SyncStorage/Clock/Rules.antt =====
-- Actions that keep the timestamps of the records round.
use fxa_lite.Prelude.{ℕ, ◌%◌, String, ◌≡◌, Bool, true, false, if◌then◌else◌, All}
use fxa_lite.Exec
use fxa_lite.Exec.{ok, raised, pure, raise, reads, modify, ◌>>=◌, ◌>>◌}
use fxa_lite.SyncStorage.Model.{BsoRow, Db, Raised, Action}
use fxa_lite.SyncStorage.Store.Collections.{
  collection_id, get_or_create_collection_id, insert_collection,
}

abbrev pub IsRound : BsoRow → Type 0
IsRound r = r.modified % 10 ≡ 0

abbrev pub HasRoundTimes : Db → Type 0
HasRoundTimes db = All IsRound db.bsos

-- Whether the action returns or raises, the timestamps stay round.
pub record Keeps {A : Type 0} (m : Action A) : Type 0 where
  pub at : (db : Db) → HasRoundTimes db → HasRoundTimes (m db).1

module _ {A : Type 0} where
  pub Keeps-pure : (a : A) → Keeps (pure a)
  unfolding pure
  Keeps-pure a = record { at = λ db h. h }

  pub Keeps-raise : (e : Raised) → Keeps (raise {A = A} e)
  unfolding raise
  Keeps-raise e = record { at = λ db h. h }

  pub Keeps-reads : (f : Db → Exec.Result Raised A) → Keeps (reads f)
  unfolding reads
  Keeps-reads f = record { at = λ db h. h }

  pub Keeps-if : (b : Bool) (m n : Action A) → Keeps m → Keeps n → Keeps (if b then m else n)
  Keeps-if true m n h k = h
  Keeps-if false m n h k = k

module _ {A B : Type 0} where
  continue-HasRoundTimes :
      (f : A → Action B) (r : Exec.Result Raised A) (db : Db)
      → ((a : A) → Keeps (f a))
      → HasRoundTimes db
      → HasRoundTimes (Exec.continue r f db).1
  continue-HasRoundTimes f (ok a) db k h = (k a).at db h
  continue-HasRoundTimes f (raised e) db k h = h

  pub Keeps-bind :
      (m : Action A) (f : A → Action B) → Keeps m → ((a : A) → Keeps (f a)) → Keeps (m >>= f)
  unfolding ◌>>=◌
  Keeps-bind m f h k = record {
    at = λ db rounds. continue-HasRoundTimes f (m db).0 (m db).1 k (h.at db rounds);
  }

pub Keeps-modify :
    (f : Db → Db) → ((db : Db) → HasRoundTimes db → HasRoundTimes (f db)) → Keeps (modify f)
unfolding modify
Keeps-modify f h = record { at = h }

pub ruleset keep_rules = (Keeps-pure, Keeps-raise, Keeps-reads, Keeps-if, Keeps-bind)

pub get_or_create-Keeps : (name : String) → Keeps (get_or_create_collection_id name)
unfolding get_or_create_collection_id
get_or_create-Keeps name = record { at = λ db h. created (collection_id name db) db h }
  where
    created :
        (r : Exec.Result Raised ℕ) (db : Db)
        → HasRoundTimes db
        → HasRoundTimes
            (elim r as (λ _. Exec.Result Raised ℕ × Db) [
              | ok c ↦ (ok c, db)
              | raised e ↦
                  (collection_id name (insert_collection name db), insert_collection name db)
            ]).1
    created (ok c) db h = h
    created (raised e) db h = h
