-- ===== src/Throttle/Attempts.antt =====
-- A run of failures on one account inside one window.
use fxa_lite.Prelude.{
  ℕ, suc, ◌+◌, ◌*◌, ◌≤◌, ◌<◌, String, ◌≡◌, refl, sym, ap, ◌∙◌, subst, true, Option, none, some,
  List, [], ◌∷◌, ◌++◌, eq_iff, arith, ◌==◌, if◌then◌else◌, length, All, All-append, get_or,
}
use mathlib.Core.List.{append-nil}
use fxa_lite.Exec.{Result, ok, raised}
use fxa_lite.Throttle.Model.{
  Throttle, Entries, second, TooManyRequests, too_many_requests, enabled, lookup, discard,
  is_expired, drop_expired, wait_for, evict, noted, note_failure, record_failure, retry_after,
  wait_of, check,
}
use fxa_lite.Throttle.Bounds.{Lacks, lookup-Lacks, evict-Lacks}
use fxa_lite.Throttle.Lockout.{lookup-discard, lookup-push, retry_after_lem}

-- one wrong password after the other
unfoldable pub record_failures : String → List ℕ → Throttle → Throttle
record_failures key [] t = t
record_failures key (at ∷ times) t = record_failures key times (record_failure key at t)

Lacks-lookup : (key : String) (es : Entries) → Lacks key es → lookup key es ≡ none
unfolding lookup
Lacks-lookup key [] h = refl
Lacks-lookup key ((k, v) ∷ es) h = ground (arith, Lacks-lookup key es h.1, eq_iff k key)

noted-lookup :
    (window : ℕ) (key : String) (at : ℕ) (es : Entries) (found : Option (List ℕ))
    → lookup key es ≡ found
    → lookup key (noted window key at es found)
      ≡ some (drop_expired window at (get_or [] found) ++ (at ∷ []))
unfolding noted drop_expired
noted-lookup window key at es none e =
    lookup-push key (at ∷ []) (evict window at es)
      (Lacks-lookup key _ (evict-Lacks window key at es (lookup-Lacks key es e)))
noted-lookup window key at es (some recent) e =
    lookup-push key (drop_expired window at recent ++ (at ∷ [])) (discard key es)
      (lookup-discard key es)

-- still in the window at `now`, and not later than it
abbrev pub Within : Throttle → ℕ → ℕ → Type 0
Within t now at = (at ≤ now) × (now < at + t.window * second)

drop_expired-All :
    (t : Throttle) (at now : ℕ) (recent : List ℕ)
    → at ≤ now
    → All (Within t now) recent
    → drop_expired t.window at recent ≡ recent
unfolding drop_expired is_expired
drop_expired-All t at now [] h r = refl
drop_expired-All t at now (m ∷ recent) h r = ground (arith, drop_expired-All t at now recent h r.1)

push-append : (xs ys : List ℕ) (at : ℕ) → (xs ++ (at ∷ [])) ++ ys ≡ xs ++ (at ∷ ys)
push-append [] ys at = refl
push-append (x ∷ xs) ys at = ap (λ zs. x ∷ zs) (push-append xs ys at)

abbrev noted_throttle : String → ℕ → Throttle → Throttle
noted_throttle key at t = record t { failures = note_failure t.window key at t.failures }

record_failure-on :
    (key : String) (at : ℕ) (t : Throttle)
    → enabled t ≡ true
    → record_failure key at t ≡ noted_throttle key at t
unfolding record_failure
record_failure-on key at t on = rw on refl

note_failure-lookup :
    (t : Throttle) (key : String) (at now : ℕ) (recent : List ℕ)
    → get_or [] (lookup key t.failures) ≡ recent
    → at ≤ now
    → All (Within t now) recent
    → get_or [] (lookup key (note_failure t.window key at t.failures)) ≡ recent ++ (at ∷ [])
unfolding note_failure
note_failure-lookup t key at now recent e h r =
    ap (get_or []) (noted-lookup t.window key at t.failures (lookup key t.failures) refl)
    ∙ ap (λ xs. drop_expired t.window at xs ++ (at ∷ [])) e
    ∙ ap (λ xs. xs ++ (at ∷ [])) (drop_expired-All t at now recent h r)

-- `t'` is `t` but for its failures, and those of the key are `recent`
abbrev Holds : String → List ℕ → Throttle → Throttle → Type 0
Holds key recent t t' =
    (t' ≡ record t { failures = t'.failures }) × (get_or [] (lookup key t'.failures) ≡ recent)

record_failures-lookup :
    (key : String) (now : ℕ) (times : List ℕ) (t : Throttle) (recent : List ℕ)
    → enabled t ≡ true
    → get_or [] (lookup key t.failures) ≡ recent
    → All (Within t now) recent
    → All (Within t now) times
    → Holds key (recent ++ times) t (record_failures key times t)
unfolding record_failures
record_failures-lookup key now [] t recent on e r h = (refl, e ∙ sym (append-nil recent))
record_failures-lookup key now (at ∷ times) t recent on e r h =
    let t' = noted_throttle key at t in
    let e' = note_failure-lookup t key at now recent e h.0.0 r in
    let r' = All-append _ recent (at ∷ []) r (h.0, tt) in
    let rest = record_failures-lookup key now times t' (recent ++ (at ∷ [])) on e' r' h.1 in
    subst (λ s. Holds key (recent ++ (at ∷ times)) t (record_failures key times s))
      (sym (record_failure-on key at t on)) (rest.0, rest.1 ∙ push-append recent times at)

verdict : ℕ → Result TooManyRequests Unit
verdict wait = if wait == 0 then ok tt else raised (too_many_requests wait)

check_lem :
    (key : String) (now : ℕ) (t : Throttle)
    → (check key now t).0 ≡ verdict (retry_after key now t).0
unfolding check verdict
check_lem key now t = refl

check-recorded :
    (key : String) (times : List ℕ) (now : ℕ) (t : Throttle)
    → enabled t ≡ true
    → lookup key t.failures ≡ none
    → All (Within t now) times
    → (check key now (record_failures key times t)).0
      ≡ verdict (wait_of t.limit t.window now (some times))
check-recorded key times now t on e h =
    let (same, found) = record_failures-lookup key now times t [] on (ap (get_or []) e) tt h in
    let after : Throttle = record t { failures = (record_failures key times t).failures } in
    check_lem key now (record_failures key times t)
    ∙ ap (λ s. verdict (retry_after key now s).0) same
    ∙ ap verdict (retry_after_lem key now after on)
    ∙ ap (λ xs. verdict (wait_of t.limit t.window now (some (drop_expired t.window now xs)))) found
    ∙ ap (λ xs. verdict (wait_of t.limit t.window now (some xs)))
        (drop_expired-All t now now times (omega arith) h)

verdict-few :
    (limit window now : ℕ) (times : List ℕ)
    → length times < limit
    → verdict (wait_of limit window now (some times)) ≡ ok tt
unfolding verdict wait_of
verdict-few limit window now [] h = refl
verdict-few limit window now (oldest ∷ times) h = ground arith

verdict-many :
    (limit window now oldest : ℕ) (times : List ℕ)
    → limit ≤ suc (length times)
    → verdict (wait_of limit window now (some (oldest ∷ times)))
      ≡ raised (too_many_requests (wait_for window now oldest))
unfolding verdict wait_of wait_for
verdict-many limit window now oldest times h = ground arith

wait_for-bounds :
    (window now oldest : ℕ)
    → oldest ≤ now
    → (1 ≤ wait_for window now oldest) × (wait_for window now oldest ≤ suc window)
unfolding wait_for
wait_for-bounds window now oldest h = (omega arith, omega arith)

module _ (key : String) (times : List ℕ) (now : ℕ) (t : Throttle) (on : enabled t ≡ true)
    (fresh : lookup key t.failures ≡ none) (within : All (Within t now) times) where
  -- Where the throttle is on, with no failure of the account on record, a run of failures inside
  -- the window that is shorter than the limit does not refuse the account.
  pub check-record_failures_few :
      length times < t.limit → (check key now (record_failures key times t)).0 ≡ ok tt
  check-record_failures_few few =
      check-recorded key times now t on fresh within ∙ verdict-few t.limit t.window now times few

  -- Where the throttle is on, with no failure of the account on record, a run of failures inside
  -- the window that reaches the limit refuses the account, for at least one second and at most one
  -- more than the window.
  pub check-record_failures_many :
      t.limit ≤ length times
      → (wait : ℕ) × ((check key now (record_failures key times t)).0
          ≡ raised (too_many_requests wait))
        × (1 ≤ wait)
        × (wait ≤ suc t.window)
  check-record_failures_many many =
      refused times within many (check-recorded key times now t on fresh within)
    where
      refused :
          (times' : List ℕ)
          → All (Within t now) times'
          → t.limit ≤ length times'
          → (check key now (record_failures key times t)).0
            ≡ verdict (wait_of t.limit t.window now (some times'))
          → (wait : ℕ) × ((check key now (record_failures key times t)).0
              ≡ raised (too_many_requests wait))
            × (1 ≤ wait)
            × (wait ≤ suc t.window)
      refused [] h limit e = absurd (ground arith)
      refused (oldest ∷ rest) h limit e =
          let (low, high) = wait_for-bounds t.window now oldest h.0.0 in
          (
            wait_for t.window now oldest,
            e ∙ verdict-many t.limit t.window now oldest rest limit,
            low,
            high,
          )
