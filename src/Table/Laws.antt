-- ===== src/Table/Laws.antt =====
-- What a statement on a table leaves for the later ones.
use fxa_lite.Prelude.{
  ◌≡◌, refl, inl, inr, Bool, true, false, Option, none, some, List, [], ◌∷◌, arith, Bool-cases, All,
  length, ◌≤◌, subst, ◌++◌, is_some,
}
use mathlib.Core.Bool.{◌&&◌}
use fxa_lite.Table.{select, fetch_one, delete, update, upsert, row_count}

module _ {ℓ} {A : Type ℓ} where
  -- The row that an upsert leaves at its key.
  abbrev pub merged : (A → A) → A → Option A → A
  merged f new none = new
  merged f new (some old) = f old

  module _ (p q : A → Bool) where
    pub fetch_one-delete_ne :
        (rows : List A)
        → ((r : A) → q r ≡ true → p r ≡ false)
        → fetch_one q (delete p rows) ≡ fetch_one q rows
    unfolding fetch_one delete
    fetch_one-delete_ne [] h = refl
    fetch_one-delete_ne (r ∷ rows) h = ground (arith, h r, fetch_one-delete_ne rows h)

    pub fetch_one-delete_of :
        (rows : List A) → ((r : A) → q r ≡ true → p r ≡ true) → fetch_one q (delete p rows) ≡ none
    unfolding fetch_one delete
    fetch_one-delete_of [] h = refl
    fetch_one-delete_of (r ∷ rows) h = ground (arith, h r, fetch_one-delete_of rows h)

    pub select-delete_ne :
        (rows : List A)
        → ((r : A) → q r ≡ true → p r ≡ false)
        → select q (delete p rows) ≡ select q rows
    unfolding select delete
    select-delete_ne [] h = refl
    select-delete_ne (r ∷ rows) h = ground (arith, h r, select-delete_ne rows h)

    pub select-delete_of :
        (rows : List A) → ((r : A) → q r ≡ true → p r ≡ true) → select q (delete p rows) ≡ []
    unfolding select delete
    select-delete_of [] h = refl
    select-delete_of (r ∷ rows) h = ground (arith, h r, select-delete_of rows h)

    module _ (f : A → A) (new : A) (fresh : q new ≡ false) where
      pub fetch_one-upsert_ne :
          (rows : List A)
          → ((r : A) → p r ≡ true → (q r ≡ false) × (q (f r) ≡ false))
          → fetch_one q (upsert p f new rows) ≡ fetch_one q rows
      unfolding fetch_one upsert
      fetch_one-upsert_ne [] h = ground arith
      fetch_one-upsert_ne (r ∷ rows) h = ground (arith, h r, fetch_one-upsert_ne rows h)

      pub select-upsert_ne :
          (rows : List A)
          → ((r : A) → p r ≡ true → (q r ≡ false) × (q (f r) ≡ false))
          → select q (upsert p f new rows) ≡ select q rows
      unfolding select upsert
      select-upsert_ne [] h = ground arith
      select-upsert_ne (r ∷ rows) h = ground (arith, h r, select-upsert_ne rows h)

  module _ (p : A → Bool) (f : A → A) (new : A) where
    pub fetch_one-upsert_self :
        (rows : List A)
        → p new ≡ true
        → ((r : A) → p r ≡ true → p (f r) ≡ true)
        → fetch_one p (upsert p f new rows) ≡ some (merged f new (fetch_one p rows))
    unfolding fetch_one upsert
    fetch_one-upsert_self [] n h = ground arith
    fetch_one-upsert_self (r ∷ rows) n h = ground (arith, h r, fetch_one-upsert_self rows n h)

  pub fetch_one-holds :
      (p : A → Bool) (rows : List A) {r : A} → fetch_one p rows ≡ some r → p r ≡ true
  unfolding fetch_one
  fetch_one-holds p [] e = cc
  fetch_one-holds p (x ∷ rows) {r} e = ground (arith, fetch_one-holds p rows {r = r})

  -- A new row is found where no other was.
  pub fetch_one-append :
      (p : A → Bool) (rows : List A) (new : A)
      → is_some (fetch_one p rows) ≡ false
      → p new ≡ true
      → fetch_one p (rows ++ (new ∷ [])) ≡ some new
  unfolding fetch_one
  fetch_one-append p [] new h n = ground arith
  fetch_one-append p (r ∷ rows) new h n = ground (arith, fetch_one-append p rows new)

  pub fetch_one-update_self :
      (p : A → Bool) (f : A → A) (rows : List A) {r : A}
      → ((x : A) → p (f x) ≡ p x)
      → fetch_one p rows ≡ some r
      → fetch_one p (update p f rows) ≡ some (f r)
  unfolding fetch_one update
  fetch_one-update_self p f [] h e = cc
  fetch_one-update_self p f (x ∷ rows) {r} h e = elim (Bool-cases (p x)) [
    | inl here ↦ let same : x ≡ r = ground arith in rw (here, h x, here, same) refl
    | inr away ↦
        let later : fetch_one p rows ≡ some r = ground arith in
        rw (away, away) (fetch_one-update_self p f rows h later)
  ]

  -- Narrowing a search that already found a row of the narrower kind.
  pub fetch_one-none_of :
      (p q : A → Bool) (rows : List A)
      → ((r : A) → q r ≡ true → p r ≡ true)
      → fetch_one p rows ≡ none
      → fetch_one q rows ≡ none
  unfolding fetch_one
  fetch_one-none_of p q [] h e = refl
  fetch_one-none_of p q (x ∷ rows) h e = ground (arith, h x, fetch_one-none_of p q rows h)

module _ {ℓ κ} {A : Type ℓ} (P : A → Type κ) where
  pub All-delete : (p : A → Bool) (rows : List A) → All P rows → All P (delete p rows)
  unfolding delete
  All-delete p [] h = tt
  All-delete p (r ∷ rows) h = elim (Bool-cases (p r)) [
    | inl e ↦ rw e (All-delete p rows h.1)
    | inr e ↦ rw e (h.0, All-delete p rows h.1)
  ]

  pub All-select : (p : A → Bool) (rows : List A) → All P rows → All P (select p rows)
  unfolding select
  All-select p [] h = tt
  All-select p (r ∷ rows) h = elim (Bool-cases (p r)) [
    | inl e ↦ rw e (h.0, All-select p rows h.1)
    | inr e ↦ rw e (All-select p rows h.1)
  ]

  pub All-upsert :
      (p : A → Bool) (f : A → A) (new : A) (rows : List A)
      → P new
      → ((r : A) → p r ≡ true → P r → P (f r))
      → All P rows
      → All P (upsert p f new rows)
  unfolding upsert
  All-upsert p f new [] n k h = (n, tt)
  All-upsert p f new (r ∷ rows) n k h = elim (Bool-cases (p r)) [
    | inl e ↦ rw e (k r e h.0, h.1)
    | inr e ↦ rw e (h.0, All-upsert p f new rows n k h.1)
  ]

  pub All-fetch_one :
      (p : A → Bool) (rows : List A) {r : A} → All P rows → fetch_one p rows ≡ some r → P r
  unfolding fetch_one
  All-fetch_one p [] h e = cc
  All-fetch_one p (x ∷ rows) {r} h e = elim (Bool-cases (p x)) [
    | inl t ↦ subst P (ground arith) h.0
    | inr t ↦ All-fetch_one p rows h.1 (ground arith)
  ]

module _ {ℓ κ} {A : Type ℓ} (p : A → Bool) (P : A → Type κ) where
  -- Every selected row passes the test.
  pub All-select_both : (rows : List A) → All P rows → All (λ r. (p r ≡ true) × P r) (select p rows)
  unfolding select
  All-select_both [] h = tt
  All-select_both (r ∷ rows) h = elim (Bool-cases (p r)) [
    | inl e ↦ rw e ((e, h.0), All-select_both rows h.1)
    | inr e ↦ rw e (All-select_both rows h.1)
  ]

pub length-select-le {ℓ} :
    {A : Type ℓ} (p : A → Bool) (rows : List A) → length (select p rows) ≤ length rows
unfolding select
length-select-le p [] = omega arith
length-select-le p (r ∷ rows) = ground (arith, length-select-le p rows)

module _ {ℓ} {A : Type ℓ} (p q : A → Bool) where
  pub fetch_one-and :
      (rows : List A) {r : A}
      → fetch_one p rows ≡ some r
      → q r ≡ true
      → fetch_one (λ x. p x && q x) rows ≡ some r
  unfolding fetch_one
  fetch_one-and [] e h = cc
  fetch_one-and (x ∷ rows) {r} e h = elim (Bool-cases (p x)) [
    | inl t ↦ let here : x ≡ r = ground arith in rw (t, here, h)
    | inr t ↦ rw t (fetch_one-and rows (ground arith) h)
  ]

  fetch_one-and_none :
      (rows : List A) → row_count p rows ≡ 0 → fetch_one (λ x. p x && q x) rows ≡ none
  unfolding fetch_one row_count
  fetch_one-and_none [] h = refl
  fetch_one-and_none (x ∷ rows) h = ground (arith, fetch_one-and_none rows)

  -- Where the key is unique, a row that fails the second test hides no other.
  pub fetch_one-and_ne :
      (rows : List A) {r : A}
      → fetch_one p rows ≡ some r
      → q r ≡ false
      → row_count p rows ≤ 1
      → fetch_one (λ x. p x && q x) rows ≡ none
  unfolding fetch_one row_count
  fetch_one-and_ne [] e h k = refl
  fetch_one-and_ne (x ∷ rows) {r} e h k = elim (Bool-cases (p x)) [
    | inl t ↦
        let here : x ≡ r = ground arith in
        let alone : row_count p rows ≡ 0 = ground arith in
        rw (t, here, h) (fetch_one-and_none rows alone)
    | inr t ↦ rw t (fetch_one-and_ne rows (ground arith) h (ground arith))
  ]

module _ {ℓ} {A : Type ℓ} (p : A → Bool) where
  pub row_count-upsert_self :
      (f : A → A) (new : A) (rows : List A)
      → p new ≡ true
      → ((r : A) → p r ≡ true → p (f r) ≡ true)
      → row_count p rows ≤ 1
      → row_count p (upsert p f new rows) ≤ 1
  unfolding row_count upsert
  row_count-upsert_self f new [] n h k = ground arith
  row_count-upsert_self f new (r ∷ rows) n h k =
      ground (arith, h r, row_count-upsert_self f new rows n h)
