-- ===== src/SyncStorage/Paging/Runs.antt =====
-- How far the last timestamp of a page reaches back: the count that `encode_next_offset` makes.
use mathlib.Core.List.{reverse, reverse-append, reverse-cons}
use fxa_lite.Prelude.{
  ℕ, suc, ◌+◌, ◌≤◌, ◌≡◌, ◌≢◌, refl, sym, ap, ◌∙◌, false, List, [], ◌∷◌, ◌++◌, arith, ◌==◌,
  if◌then◌else◌, length, length-append, pop, last_or, All, ==_iff,
}
use fxa_lite.SyncStorage.Offset.{run_length}

-- how many values at the end of the list are the bound
abbrev pub tail_run : ℕ → List ℕ → ℕ
tail_run bound ms = run_length bound (reverse ms)

run_length-le : (bound : ℕ) (ms : List ℕ) → run_length bound ms ≤ length ms
unfolding run_length
run_length-le bound [] = omega arith
run_length-le bound (m ∷ ms) = ground (arith, run_length-le bound ms)

run_length-append :
    (bound : ℕ) (us vs : List ℕ)
    → run_length bound (us ++ vs) ≡ (
        if run_length bound us == length us
        then length us + run_length bound vs
        else run_length bound us)
unfolding run_length
run_length-append bound [] vs = ground arith
run_length-append bound (u ∷ us) vs =
    ground (arith, run_length-append bound us vs, run_length-le bound us)

length-reverse : (ms : List ℕ) → length (reverse ms) ≡ length ms
length-reverse [] = refl
length-reverse (m ∷ ms) =
    ap length (reverse-cons m ms)
    ∙ length-append (reverse ms) (m ∷ [])
    ∙ omega (arith, length-reverse ms)

pub tail_run-append :
    (bound : ℕ) (us vs : List ℕ)
    → tail_run bound (us ++ vs) ≡ (
        if tail_run bound vs == length vs then length vs + tail_run bound us else tail_run bound vs)
tail_run-append bound us vs = rw reverse-append (rw run_length-append (rw length-reverse))

pub reverse-last : (m : ℕ) (ms : List ℕ) → reverse (m ∷ ms) ≡ last_or m ms ∷ reverse (pop (m ∷ ms))
reverse-last m [] = refl
reverse-last m (n ∷ ms) =
    reverse-cons m (n ∷ ms)
    ∙ ap (λ t. t ++ (m ∷ [])) (reverse-last n ms)
    ∙ ap (λ t. last_or n ms ∷ t) (sym (reverse-cons m (pop (n ∷ ms))))

-- The loop counts what stands behind the last value, and starts at 1 for the last one itself.
pub tail_run_lem :
    (m : ℕ) (ms : List ℕ)
    → suc (run_length (last_or m ms) (reverse (pop (m ∷ ms)))) ≡ tail_run (last_or m ms) (m ∷ ms)
tail_run_lem m ms = rw reverse-last (unfold run_length in ground arith)

pub tail_run-All :
    (bound : ℕ) (ms : List ℕ) → All (λ m. m ≡ bound) ms → tail_run bound ms ≡ length ms
tail_run-All bound [] h = unfold run_length in refl
tail_run-All bound (m ∷ ms) h =
    tail_run-append bound (m ∷ []) ms ∙ ground (arith, tail_run-All bound ms h.1, tail_run_one)
  where
    tail_run_one : tail_run bound (m ∷ []) ≡ 1
    tail_run_one = unfold run_length in ground arith

-- A list that ends in another value has no run of the bound.
pub tail_run_ne : (bound m : ℕ) (ms : List ℕ) → last_or m ms ≢ bound → tail_run bound (m ∷ ms) ≡ 0
tail_run_ne bound m ms h = rw reverse-last (unfold run_length in ground arith)

pub tail_run-le : (bound : ℕ) (ms : List ℕ) → tail_run bound ms ≤ length ms
tail_run-le bound ms = omega (arith, run_length-le bound (reverse ms), length-reverse ms)

-- A value in front that is not the bound adds nothing to the run.
pub tail_run_cons_ne :
    (bound m : ℕ) (ms : List ℕ) → (m == bound) ≡ false → tail_run bound (m ∷ ms) ≡ tail_run bound ms
tail_run_cons_ne bound m ms h = ground (
  arith,
  tail_run-append bound (m ∷ []) ms,
  tail_run_ne bound m [] (λ e. cc (h, (==_iff m bound).1 e)),
)
