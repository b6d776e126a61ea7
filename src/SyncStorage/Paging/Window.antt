-- ===== src/SyncStorage/Paging/Window.antt =====
-- What the bound and the skip of a token cut off a sorted result: exactly the rows served before.
use fxa_lite.Prelude.{
  ℕ, ◌≤◌, ◌≡◌, refl, sym, ap, ◌∙◌, inl, inr, Bool, true, false, List, [], ◌∷◌, ◌++◌, arith, ◌==◌,
  leb, Bool-cases, length, last_or, All, map, ==_iff, drop, subst,
}
use fxa_lite.Table.{select}
use fxa_lite.Table.Order.{IsSorted}
use fxa_lite.SyncStorage.Paging.Runs.{tail_run, tail_run-All, tail_run_cons_ne}

-- The order of timestamps under `oldest` (true) and under `newest`.
abbrev pub Upto : Bool → ℕ → ℕ → Type 0
Upto true m n = m ≤ n
Upto false m n = n ≤ m

-- the condition that the token's timestamp adds to the query
abbrev pub keeps : Bool → ℕ → ℕ → Bool
keeps true bound m = leb bound m
keeps false bound m = leb m bound

keeps_of_Upto : (up : Bool) (bound m : ℕ) → Upto up bound m → keeps up bound m ≡ true
keeps_of_Upto true bound m h = ground arith
keeps_of_Upto false bound m h = ground arith

keeps_at : (up : Bool) (bound m : ℕ) → Upto up m bound → keeps up bound m ≡ (m == bound)
keeps_at true bound m h = ground arith
keeps_at false bound m h = ground arith

Upto-antisymm : (up : Bool) (m n : ℕ) → Upto up m n → Upto up n m → n ≡ m
Upto-antisymm true m n h k = omega arith
Upto-antisymm false m n h k = omega arith

module _ {ℓ} {A : Type ℓ} (key : A → ℕ) (up : Bool) where
  -- sorted by key in the direction of the query
  abbrev pub InOrder : A → A → Type 0
  InOrder x y = Upto up (key x) (key y)

  pub select-keeps_All :
      (bound : ℕ) (xs : List A)
      → All (λ x. Upto up bound (key x)) xs
      → select (λ x. keeps up bound (key x)) xs ≡ xs
  unfolding select
  select-keeps_All bound [] h = refl
  select-keeps_All bound (x ∷ xs) h =
      rw (keeps_of_Upto up bound (key x) h.0) (ap (λ t. x ∷ t) (select-keeps_All bound xs h.1))

  All-at :
      (bound : ℕ) (xs : List A)
      → All (λ x. Upto up bound (key x)) xs
      → All (λ x. Upto up (key x) bound) xs
      → All (λ m. m ≡ bound) (map key xs)
  All-at bound [] h k = tt
  All-at bound (x ∷ xs) h k = (Upto-antisymm up bound (key x) h.0 k.0, All-at bound xs h.1 k.1)

  -- Among sorted rows up to the bound, the filter keeps the run at their end.
  pub length-select-keeps :
      (bound : ℕ) (xs : List A)
      → IsSorted InOrder xs
      → All (λ x. Upto up (key x) bound) xs
      → length (select (λ x. keeps up bound (key x)) xs) ≡ tail_run bound (map key xs)
  unfolding select
  length-select-keeps bound [] s h = sym (tail_run-All bound [] tt)
  length-select-keeps bound (x ∷ xs) s h = elim (Bool-cases (key x == bound)) [
    | inl e ↦
        let at_bound : key x ≡ bound = (==_iff (key x) bound).0 e in
        let later =
          All-at bound xs (subst (λ b. All (λ y. Upto up b (key y)) xs) at_bound s.0) h.1 in
        rw (keeps_at up bound (key x) h.0, e)
          (omega (
            arith,
            length-select-keeps bound xs s.1 h.1,
            tail_run-All bound (map key xs) later,
            tail_run-All bound (key x ∷ map key xs) (at_bound, later),
          ))
    | inr e ↦
        rw (keeps_at up bound (key x) h.0, e)
          (length-select-keeps bound xs s.1 h.1
            ∙ sym (tail_run_cons_ne bound (key x) (map key xs) e))
  ]

  select-append : (q : A → Bool) (xs ys : List A) → select q (xs ++ ys) ≡ select q xs ++ select q ys
  unfolding select
  select-append q [] ys = refl
  select-append q (x ∷ xs) ys = ground (arith, select-append q xs ys)

  drop-length-append : (xs ys : List A) → drop (length xs) (xs ++ ys) ≡ ys
  drop-length-append [] ys = refl
  drop-length-append (x ∷ xs) ys = drop-length-append xs ys

  -- The page that follows the rows `served` begins at the first row that is still to come.
  pub drop-select-keeps :
      (bound : ℕ) (served rest : List A)
      → IsSorted InOrder served
      → All (λ x. Upto up (key x) bound) served
      → All (λ x. Upto up bound (key x)) rest
      → drop
          (tail_run bound (map key served))
          (select (λ x. keeps up bound (key x)) (served ++ rest))
        ≡ rest
  drop-select-keeps bound served rest s h k =
      rw
        (
          ← length-select-keeps bound served s h,
          select-append (λ x. keeps up bound (key x)) served rest,
          select-keeps_All bound rest k,
        )
        (drop-length-append (select (λ x. keeps up bound (key x)) served) rest)

Upto-refl : (up : Bool) (m : ℕ) → Upto up m m
Upto-refl true m = omega arith
Upto-refl false m = omega arith

Upto-trans : (up : Bool) (k m n : ℕ) → Upto up k m → Upto up m n → Upto up k n
Upto-trans true k m n h l = omega arith
Upto-trans false k m n h l = omega arith

module _ {ℓ} {A : Type ℓ} (key : A → ℕ) (up : Bool) where
  pub IsSorted-append_left :
      (xs ys : List A) → IsSorted (InOrder key up) (xs ++ ys) → IsSorted (InOrder key up) xs
  IsSorted-append_left [] ys h = tt
  IsSorted-append_left (x ∷ xs) ys h =
      (All_left (InOrder key up x) xs h.0, IsSorted-append_left xs ys h.1)
    where
      All_left : (P : A → Type 0) (zs : List A) → All P (zs ++ ys) → All P zs
      All_left P [] k = tt
      All_left P (z ∷ zs) k = (k.0, All_left P zs k.1)

  -- What is sorted lies before its last row, and that before what follows.
  pub served-Upto_last :
      (x : A) (xs : List A)
      → IsSorted (InOrder key up) (x ∷ xs)
      → All (λ y. Upto up (key y) (last_or (key x) (map key xs))) (x ∷ xs)
  served-Upto_last x [] h = (Upto-refl up (key x), tt)
  served-Upto_last x (y ∷ ys) h =
      let later = served-Upto_last y ys h.1 in
      (Upto-trans up (key x) (key y) _ h.0.0 later.0, later)

  pub last-Upto_rest :
      (x : A) (xs rest : List A)
      → IsSorted (InOrder key up) ((x ∷ xs) ++ rest)
      → All (λ y. Upto up (last_or (key x) (map key xs)) (key y)) rest
  last-Upto_rest x [] rest h = h.0
  last-Upto_rest x (y ∷ ys) rest h = last-Upto_rest y ys rest h.1
