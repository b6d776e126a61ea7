-- ===== src/Exec.antt =====
-- Code that changes the database and may raise. What was written before a raise stays written
-- until a transaction undoes it, so the state comes back beside the error too.

use fxa_lite.Prelude.{◌≡◌, refl}

pub data Result {ℓ} (E A : Type ℓ) : Type ℓ where
  ok : A → Result E A
  raised : E → Result E A

abbrev pub Exec {ℓ} : Type ℓ → Type ℓ → Type ℓ → Type ℓ
Exec E S A = S → Result E A × S

module _ {ℓ} {E S A : Type ℓ} where
  unfoldable pub pure : A → Exec E S A
  pure a s = (ok a, s)

  unfoldable pub raise : E → Exec E S A
  raise e s = (raised e, s)

  -- A read may raise and changes nothing.
  unfoldable pub reads : (S → Result E A) → Exec E S A
  reads f s = (f s, s)

module _ {ℓ} {E S A B : Type ℓ} where
  abbrev pub continue : Result E A → (A → Exec E S B) → Exec E S B
  continue (ok a) f s = f a s
  continue (raised e) f s = (raised e, s)

  infixl 5 ◌>>=◌ ◌>>◌
  unfoldable pub ◌>>=◌ : Exec E S A → (A → Exec E S B) → Exec E S B
  unfolding pure raise reads
  ◌>>=◌ m f s = let (r, s') = m s in continue r f s'

  abbrev pub ◌>>◌ : Exec E S A → Exec E S B → Exec E S B
  m >> n = m >>= λ _. n

-- A statement that changes the state and returns nothing.
unfoldable pub modify {ℓ} : {E S : Type ℓ} → (S → S) → Exec E S (Unit {ℓ})
modify f s = (ok tt, f s)

-- An action that returns hands its result and its state on.
pub bind-pure_of_ok {ℓ} :
    {E S A B : Type ℓ} (m : Exec E S A) (g : A → B) (s : S) (a : A)
    → (m s).0 ≡ ok a
    → (m >>= λ x. pure (g x)) s ≡ (ok (g a), (m s).1)
unfolding ◌>>=◌
bind-pure_of_ok m g s a h = rw h refl
