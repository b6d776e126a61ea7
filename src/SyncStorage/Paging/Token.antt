-- ===== src/SyncStorage/Paging/Token.antt =====
-- The token of a page continues the rows that have been served with it.
use fxa_lite.Prelude.{
  ℕ, ◌+◌, ◌%◌, ◌≡◌, ◌≢◌, refl, sym, ap, ◌∙◌, inl, inr, Option, none, some, List, [], ◌∷◌, ◌++◌,
  arith, ◌==◌, ◌&&◌, if◌then◌else◌, Bool-cases, length, last_or, ==_iff,
}
use fxa_lite.SyncStorage.Offset.{Sorting, index, Offset, next_offset, after_records, is_at}
use fxa_lite.SyncStorage.Offset.Laws.{quantize_id}
use fxa_lite.SyncStorage.Paging.Runs.{tail_run, tail_run-append, tail_run_lem, tail_run_ne}

-- The timestamp and the skip that say: these values have been served, resume behind them.
abbrev pub Continues : List ℕ → Option ℕ → ℕ → Type 0
Continues [] prev skip = (prev ≡ none) × (skip ≡ 0)
Continues (m ∷ ms) prev skip =
    (prev ≡ some (last_or m ms)) × (skip ≡ tail_run (last_or m ms) (m ∷ ms))

abbrev pub token_after : List ℕ → ℕ → List ℕ → Offset
token_after served n ns = record {
  timestamp = some (last_or n ns);
  offset = tail_run (last_or n ns) (served ++ (n ∷ ns));
}

-- The previous skip is added when the whole page stands at the bound of the page before it.
skip_lem :
    (prev bound m : ℕ) (ms us : List ℕ)
    → last_or m ms ≡ prev
    → (if tail_run bound us == length us && (prev == bound)
        then tail_run bound us + tail_run prev (m ∷ ms)
        else tail_run bound us)
      ≡ tail_run bound ((m ∷ ms) ++ us)
skip_lem prev bound m ms us h = elim (Bool-cases (prev == bound)) [
  | inl e ↦
      let same : prev ≡ bound = (==_iff prev bound).0 e in
      rw (e, ← same) (ground (arith, tail_run-append prev (m ∷ ms) us))
  | inr e ↦ rw e (
      ground (
        arith,
        tail_run-append bound (m ∷ ms) us,
        tail_run_ne bound m ms (λ p. cc (e, (==_iff prev bound).1 (sym h ∙ p))),
      ))
]

after_records-Continues :
    (served : List ℕ) (prev : Option ℕ) (skip n : ℕ) (ns : List ℕ)
    → Continues served prev skip
    → last_or n ns % 10 ≡ 0
    → after_records skip prev (n ∷ ns) ≡ token_after served n ns
unfolding after_records is_at
after_records-Continues [] prev skip n ns h round =
    rw (h.0, h.1) (ground (arith, quantize_id (last_or n ns) round, tail_run_lem n ns))
after_records-Continues (m ∷ ms) prev skip n ns h round =
    rw (h.0, h.1, tail_run_lem n ns, quantize_id (last_or n ns) round)
      (ap (λ k. record { timestamp = some (last_or n ns); offset = k })
        (skip_lem (last_or m ms) (last_or n ns) m ms (n ∷ ns) refl))

pub next_offset-Continues :
    (sort : Option Sorting) (served : List ℕ) (prev : Option ℕ) (skip n : ℕ) (ns : List ℕ)
    → sort ≢ some index
    → Continues served prev skip
    → last_or n ns % 10 ≡ 0
    → next_offset sort skip prev (n ∷ ns) ≡ token_after served n ns
unfolding next_offset
next_offset-Continues (some index) served prev skip n ns h c round = absurd (h refl)
next_offset-Continues _ served prev skip n ns h c round =
    after_records-Continues served prev skip n ns c round
