-- ===== src/Table/Kept.antt =====
-- What the rows of a table still satisfy after a statement, and which searches still find a row.
use fxa_lite.Prelude.{
  ◌≡◌, refl, inl, inr, Bool, true, false, ◌&&◌, List, [], ◌∷◌, ◌++◌, arith, Bool-cases, All,
  All-append, is_some,
}
use fxa_lite.Table.{fetch_one, delete, update, upsert}

module _ {ℓ} {A : Type ℓ} (q : A → Bool) where
  pub is_some-append :
      (rows : List A) (new : A)
      → is_some (fetch_one q rows) ≡ true
      → is_some (fetch_one q (rows ++ (new ∷ []))) ≡ true
  unfolding fetch_one
  is_some-append [] new h = ground arith
  is_some-append (r ∷ rows) new h = ground (arith, is_some-append rows new)

  pub is_some-update :
      (p : A → Bool) (f : A → A) (rows : List A)
      → ((r : A) → q (f r) ≡ q r)
      → is_some (fetch_one q (update p f rows)) ≡ is_some (fetch_one q rows)
  unfolding fetch_one update
  is_some-update p f [] h = refl
  is_some-update p f (r ∷ rows) h = ground (arith, h r, is_some-update p f rows h)

  -- A row that is found, and that no deleted row hides, is found after the deletion.
  pub is_some-delete :
      (p : A → Bool) (rows : List A)
      → is_some (fetch_one q rows) ≡ true
      → is_some (fetch_one (λ r. p r && q r) rows) ≡ false
      → is_some (fetch_one q (delete p rows)) ≡ true
  unfolding fetch_one delete
  is_some-delete p [] h k = ground arith
  is_some-delete p (r ∷ rows) h k = ground (arith, is_some-delete p rows)

module _ {ℓ κ} {A : Type ℓ} (P : A → Type κ) where
  pub All-add : (rows : List A) (new : A) → All P rows → P new → All P (rows ++ (new ∷ []))
  All-add rows new h n = All-append P rows (new ∷ []) h (n, tt)

  pub All-update :
      (p : A → Bool) (f : A → A) (rows : List A)
      → ((r : A) → P r → P (f r))
      → All P rows
      → All P (update p f rows)
  unfolding update
  All-update p f [] k h = tt
  All-update p f (r ∷ rows) k h = elim (Bool-cases (p r)) [
    | inl e ↦ rw e (k r h.0, All-update p f rows k h.1)
    | inr e ↦ rw e (h.0, All-update p f rows k h.1)
  ]

  -- The rows that a deletion leaves fail its test.
  pub All-delete_both :
      (p : A → Bool) (rows : List A) → All P rows → All (λ r. (p r ≡ false) × P r) (delete p rows)
  unfolding delete
  All-delete_both p [] h = tt
  All-delete_both p (r ∷ rows) h = elim (Bool-cases (p r)) [
    | inl e ↦ rw e (All-delete_both p rows h.1)
    | inr e ↦ rw e ((e, h.0), All-delete_both p rows h.1)
  ]

  -- The new row counts only where no row has its key.
  pub All-upsert_new :
      (p : A → Bool) (f : A → A) (new : A) (rows : List A)
      → (is_some (fetch_one p rows) ≡ false → P new)
      → ((r : A) → P r → P (f r))
      → All P rows
      → All P (upsert p f new rows)
  unfolding upsert fetch_one
  All-upsert_new p f new [] n k h = (n refl, tt)
  All-upsert_new p f new (r ∷ rows) n k h = elim (Bool-cases (p r)) [
    | inl e ↦ rw e (k r h.0, h.1)
    | inr e ↦ rw e (h.0, All-upsert_new p f new rows (λ none. n (rw e none)) k h.1)
  ]
