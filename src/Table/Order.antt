-- ===== src/Table/Order.antt =====
-- `ORDER BY`: insertion sort by a test that says which of two rows may come first. Rows that may
-- come in either order stay as the table has them.
use fxa_lite.Prelude.{
  ◌≡◌, refl, inl, inr, Bool, true, false, List, [], ◌∷◌, arith, if◌then◌else◌, Bool-cases, All,
  length, suc, All-map,
}
use fxa_lite.Table.{select}

module _ {ℓ} {A : Type ℓ} (first : A → A → Bool) where
  unfoldable pub insert_by : A → List A → List A
  insert_by x [] = x ∷ []
  insert_by x (y ∷ ys) = if first x y then x ∷ y ∷ ys else y ∷ insert_by x ys

  unfoldable pub sort_by : List A → List A
  unfolding insert_by
  sort_by [] = []
  sort_by (x ∷ xs) = insert_by x (sort_by xs)

-- Every row may stand before each of the later ones.
abbrev pub IsSorted {ℓ κ} : {A : Type ℓ} → (A → A → Type κ) → List A → Type κ
IsSorted R [] = Unit
IsSorted R (x ∷ xs) = All (R x) xs × IsSorted R xs

module _ {ℓ κ} {A : Type ℓ} (first : A → A → Bool) (P : A → Type κ) where
  All-insert_by : (x : A) (xs : List A) → P x → All P xs → All P (insert_by first x xs)
  unfolding insert_by
  All-insert_by x [] p h = (p, tt)
  All-insert_by x (y ∷ ys) p h = elim (Bool-cases (first x y)) [
    | inl e ↦ rw e (p, h)
    | inr e ↦ rw e (h.0, All-insert_by x ys p h.1)
  ]

  pub All-sort_by : (xs : List A) → All P xs → All P (sort_by first xs)
  unfolding sort_by
  All-sort_by [] h = tt
  All-sort_by (x ∷ xs) h = All-insert_by x (sort_by first xs) h.0 (All-sort_by xs h.1)

module _ {ℓ κ} {A : Type ℓ} (first : A → A → Bool) (R : A → A → Type κ)
    (R_trans : (x y z : A) → R x y → R y z → R x z)
    (first_yes : (x y : A) → first x y ≡ true → R x y)
    (first_no : (x y : A) → first x y ≡ false → R y x) where
  insert_by-IsSorted : (x : A) (xs : List A) → IsSorted R xs → IsSorted R (insert_by first x xs)
  unfolding insert_by
  insert_by-IsSorted x [] h = (tt, tt)
  insert_by-IsSorted x (y ∷ ys) h = elim (Bool-cases (first x y)) [
    | inl e ↦
        let xy = first_yes x y e in
        rw e ((xy, All-map (R y) (R x) ys (λ z yz. R_trans x y z xy yz) h.0), h)
    | inr e ↦
        rw e (All-insert_by first (R y) x ys (first_no x y e) h.0, insert_by-IsSorted x ys h.1)
  ]

  pub sort_by-IsSorted : (xs : List A) → IsSorted R (sort_by first xs)
  unfolding sort_by
  sort_by-IsSorted [] = tt
  sort_by-IsSorted (x ∷ xs) = insert_by-IsSorted x (sort_by first xs) (sort_by-IsSorted xs)

module _ {ℓ} {A : Type ℓ} (first : A → A → Bool) (q : A → Bool)
    (closed : (x y : A) → first x y ≡ true → q x ≡ true → q y ≡ true) where
  select-insert_by :
      (x : A) (xs : List A)
      → select q (insert_by first x xs)
        ≡ (if q x then insert_by first x (select q xs) else select q xs)
  unfolding select insert_by
  select-insert_by x [] = ground arith
  select-insert_by x (y ∷ ys) = ground (arith, closed x y, select-insert_by x ys)

  -- A filter that lets through all that may follow what it lets through commutes with sorting.
  pub select-sort_by : (xs : List A) → select q (sort_by first xs) ≡ sort_by first (select q xs)
  unfolding sort_by
  select-sort_by [] = unfold select in refl
  select-sort_by (x ∷ xs) = elim (Bool-cases (q x)) [
    | inl e ↦
        rw (select-insert_by x (sort_by first xs), e, select-sort_by xs) (unfold select in rw e)
    | inr e ↦
        rw (select-insert_by x (sort_by first xs), e, select-sort_by xs) (unfold select in rw e)
  ]

module _ {ℓ} {A : Type ℓ} (first : A → A → Bool) where
  length-insert_by : (x : A) (xs : List A) → length (insert_by first x xs) ≡ suc (length xs)
  unfolding insert_by
  length-insert_by x [] = refl
  length-insert_by x (y ∷ ys) = ground (arith, length-insert_by x ys)

  pub length-sort_by : (xs : List A) → length (sort_by first xs) ≡ length xs
  unfolding sort_by
  length-sort_by [] = refl
  length-sort_by (x ∷ xs) = omega (arith, length-insert_by x (sort_by first xs), length-sort_by xs)
