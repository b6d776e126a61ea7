-- ===== src/SyncStorage/Isolation/Rules.antt =====
-- Actions that leave the rows of one user as they are.
use fxa_lite.Prelude.{ℕ, ◌≡◌, ◌≢◌, refl, ◌∙◌, Bool, true, false, arith, ◌==◌, if◌then◌else◌}
use fxa_lite.Exec.{Result, ok, raised, pure, raise, reads, modify, ◌>>=◌, ◌>>◌}
use fxa_lite.Table.{select}
use fxa_lite.SyncStorage.Model.{Db, Raised, Action}

-- Both databases have the same rows of this user, in the same order.
pub record SameRows (u : ℕ) (a b : Db) : Type 0 where
  pub bsos : select (λ r. r.uid == u) a.bsos ≡ select (λ r. r.uid == u) b.bsos
  pub stamps :
      select (λ r. r.uid == u) a.user_collections ≡ select (λ r. r.uid == u) b.user_collections
  pub batches : select (λ r. r.uid == u) a.batches ≡ select (λ r. r.uid == u) b.batches
  pub items : select (λ r. r.uid == u) a.batch_items ≡ select (λ r. r.uid == u) b.batch_items

pub SameRows-refl : (u : ℕ) (a : Db) → SameRows u a a
SameRows-refl u a = record { bsos = refl; stamps = refl; batches = refl; items = refl }

pub SameRows-trans : (u : ℕ) (a b c : Db) → SameRows u a b → SameRows u b c → SameRows u a c
SameRows-trans u a b c h k = record {
  bsos = h.bsos ∙ k.bsos;
  stamps = h.stamps ∙ k.stamps;
  batches = h.batches ∙ k.batches;
  items = h.items ∙ k.items;
}

-- Whether the action returns or raises, the rows of `u` are what they were.
pub record Spares {A : Type 0} (u : ℕ) (m : Action A) : Type 0 where
  pub at : (db : Db) → SameRows u (m db).1 db

module _ (u : ℕ) {A : Type 0} where
  pub Spares-pure : (a : A) → Spares u (pure a)
  unfolding pure
  Spares-pure a = record { at = λ db. SameRows-refl u db }

  pub Spares-raise : (e : Raised) → Spares u (raise {A = A} e)
  unfolding raise
  Spares-raise e = record { at = λ db. SameRows-refl u db }

  pub Spares-reads : (f : Db → Result Raised A) → Spares u (reads f)
  unfolding reads
  Spares-reads f = record { at = λ db. SameRows-refl u db }

  pub Spares-if :
      (b : Bool) (m n : Action A) → Spares u m → Spares u n → Spares u (if b then m else n)
  Spares-if true m n h k = h
  Spares-if false m n h k = k

module _ (u : ℕ) {A B : Type 0} where
  continued :
      (f : A → Action B) (r : Result Raised A) (db : Db)
      → ((a : A) → Spares u (f a))
      → SameRows u (fxa_lite.Exec.continue r f db).1 db
  continued f (ok a) db h = (h a).at db
  continued f (raised e) db h = SameRows-refl u db

  pub Spares-bind :
      (m : Action A) (f : A → Action B)
      → Spares u m
      → ((a : A) → Spares u (f a))
      → Spares u (m >>= f)
  unfolding ◌>>=◌
  Spares-bind m f h k = record {
    at = λ db. SameRows-trans u _ _ db (continued f (m db).0 (m db).1 k) (h.at db);
  }

pub Spares-modify : (u : ℕ) (f : Db → Db) → ((db : Db) → SameRows u (f db) db) → Spares u (modify f)
unfolding modify
Spares-modify u f h = record { at = h }

other_uid : (u v w : ℕ) → u ≢ v → (w == u) ≡ true → (w == v) ≡ false
other_uid u v w h e = ground arith

pub ruleset spare_rules = (Spares-pure, Spares-raise, Spares-reads, Spares-if, Spares-bind)
