-- ===== src/Throttle/Lockout.antt =====
-- Who waits, and for how long.
use fxa_lite.Prelude.{
  ℕ, ◌+◌, ◌*◌, ◌≤◌, ◌<◌, String, ◌≡◌, ◌≢◌, refl, sym, ap, ◌∙◌, true, false, Option, none, some,
  List, [], ◌∷◌, ◌++◌, eq_iff, subst, le→leb, Bool-cases, inl, inr, arith, length, get_or,
}
use fxa_lite.Throttle.Model.{
  record_success, Throttle, Entries, second, enabled, lookup, discard, replace, is_expired,
  drop_expired, keep_pruned, pruned, prune, wait_for, retry_after, wait_of,
}

pub lookup-discard : (key : String) (es : Entries) → lookup key (discard key es) ≡ none
unfolding lookup discard
lookup-discard key [] = refl
lookup-discard key ((k, v) ∷ es) = ground (arith, lookup-discard key es)

lookup-replace :
    (key : String) (v w : List ℕ) (es : Entries)
    → lookup key es ≡ some w
    → lookup key (replace key v es) ≡ some v
unfolding lookup replace
lookup-replace key v w [] h = ground arith
lookup-replace key v w ((k, u) ∷ es) h = ground (arith, lookup-replace key v w es)

pub lookup-push :
    (key : String) (v : List ℕ) (es : Entries)
    → lookup key es ≡ none
    → lookup key (es ++ ((key, v) ∷ [])) ≡ some v
unfolding lookup
lookup-push key v [] h = ground (arith, eq_iff key key)
lookup-push key v ((k, u) ∷ es) h = ground (arith, lookup-push key v es)

-- the failures of the key that the window still holds
abbrev pub recent_of : String → ℕ → Throttle → List ℕ
recent_of key now t = drop_expired t.window now (get_or [] (lookup key t.failures))

drop_expired-drop_expired :
    (window now later : ℕ) (recent : List ℕ)
    → now ≤ later
    → drop_expired window later (drop_expired window now recent) ≡ drop_expired window later recent
unfolding drop_expired is_expired
drop_expired-drop_expired window now later [] h = refl
drop_expired-drop_expired window now later (at ∷ recent) h =
    ground (arith, drop_expired-drop_expired window now later recent h)

length-drop_expired :
    (window now : ℕ) (recent : List ℕ) → length (drop_expired window now recent) ≤ length recent
unfolding drop_expired
length-drop_expired window now [] = ground arith
length-drop_expired window now (at ∷ recent) = ground (arith, length-drop_expired window now recent)

keep_pruned-wait :
    (t : Throttle) (key : String) (now : ℕ) (recent : List ℕ) (es : Entries)
    → wait_of t.limit t.window now (keep_pruned key recent es).0
      ≡ wait_of t.limit t.window now (some recent)
unfolding keep_pruned wait_of
keep_pruned-wait t key now [] es = refl
keep_pruned-wait t key now (at ∷ recent) es = refl

pruned-wait :
    (t : Throttle) (key : String) (now : ℕ) (es : Entries) (found : Option (List ℕ))
    → wait_of t.limit t.window now (pruned t.window key now es found).0
      ≡ wait_of t.limit t.window now (some (drop_expired t.window now (get_or [] found)))
unfolding pruned drop_expired wait_of
pruned-wait t key now es none = refl
pruned-wait t key now es (some recent) =
    keep_pruned-wait t key now (drop_expired t.window now recent) es

pub retry_after_lem :
    (key : String) (now : ℕ) (t : Throttle)
    → enabled t ≡ true
    → (retry_after key now t).0 ≡ wait_of t.limit t.window now (some (recent_of key now t))
unfolding retry_after prune
retry_after_lem key now t on = rw on (pruned-wait t key now t.failures (lookup key t.failures))

keep_pruned-lookup :
    (key : String) (recent old : List ℕ) (es : Entries)
    → lookup key es ≡ some old
    → get_or [] (lookup key (keep_pruned key recent es).1) ≡ recent
unfolding keep_pruned
keep_pruned-lookup key [] old es h = ap (get_or []) (lookup-discard key es)
keep_pruned-lookup key (at ∷ recent) old es h =
    ap (get_or []) (lookup-replace key (at ∷ recent) old es h)

pruned-recent :
    (window : ℕ) (key : String) (now later : ℕ) (es : Entries) (found : Option (List ℕ))
    → lookup key es ≡ found
    → now ≤ later
    → drop_expired window later (get_or [] (lookup key (pruned window key now es found).1))
      ≡ drop_expired window later (get_or [] found)
unfolding pruned
pruned-recent window key now later es none e h = ap (λ o. drop_expired window later (get_or [] o)) e
pruned-recent window key now later es (some recent) e h =
    ap (drop_expired window later)
      (keep_pruned-lookup key (drop_expired window now recent) recent es e)
    ∙ drop_expired-drop_expired window now later recent h

wait_of-few :
    (t : Throttle) (now : ℕ) (recent : List ℕ)
    → length recent < t.limit
    → wait_of t.limit t.window now (some recent) ≡ 0
unfolding wait_of
wait_of-few t now [] h = refl
wait_of-few t now (oldest ∷ recent) h = ground arith

-- no shorter than what the oldest failure has left
wait_for-le :
    (window now oldest later : ℕ)
    → now + wait_for window now oldest * second ≤ later
    → oldest + window * second ≤ later
unfolding wait_for
wait_for-le window now oldest later h = omega arith

wait_of_lem :
    (t : Throttle) (now oldest : ℕ) (recent : List ℕ)
    → wait_of t.limit t.window now (some (oldest ∷ recent)) ≢ 0
    → wait_of t.limit t.window now (some (oldest ∷ recent)) ≡ wait_for t.window now oldest
unfolding wait_of
wait_of_lem t now oldest recent p = ground arith

waited :
    (t : Throttle) (now later : ℕ) (recent : List ℕ)
    → length recent ≤ t.limit
    → wait_of t.limit t.window now (some recent) ≢ 0
    → now + wait_of t.limit t.window now (some recent) * second ≤ later
    → wait_of t.limit t.window later (some (drop_expired t.window later recent)) ≡ 0
unfolding drop_expired is_expired wait_of
waited t now later [] h p w = refl
waited t now later (oldest ∷ recent) h p w =
    let le =
      wait_for-le t.window now oldest later
        (subst (λ x. now + x * second ≤ later) (wait_of_lem t now oldest recent p) w) in
    rw (le→leb _ _ le) (
      wait_of-few t later (drop_expired t.window later recent)
        (ground (arith, length-drop_expired t.window later recent)))

abbrev pruned_throttle : String → ℕ → Throttle → Throttle
pruned_throttle key now t = record t { failures = (prune t.window key now t.failures).1 }

retry_after-on :
    (key : String) (now : ℕ) (t : Throttle)
    → enabled t ≡ true
    → retry_after key now t ≡ (
      wait_of t.limit t.window now (prune t.window key now t.failures).0,
      pruned_throttle key now t,
    )
unfolding retry_after
retry_after-on key now t on = rw on refl

retry_after-off :
    (key : String) (now : ℕ) (t : Throttle) → enabled t ≡ false → (retry_after key now t).0 ≡ 0
unfolding retry_after
retry_after-off key now t off = rw off refl

recent_of-prune :
    (window : ℕ) (key : String) (now later : ℕ) (es : Entries)
    → now ≤ later
    → drop_expired window later (get_or [] (lookup key (prune window key now es).1))
      ≡ drop_expired window later (get_or [] (lookup key es))
unfolding prune
recent_of-prune window key now later es h =
    pruned-recent window key now later es (lookup key es) refl h

retry_after-retry_after :
    (key : String) (now later : ℕ) (t : Throttle)
    → enabled t ≡ true
    → now ≤ later
    → (retry_after key later (retry_after key now t).1).0
      ≡ wait_of t.limit t.window later (some (recent_of key later t))
retry_after-retry_after key now later t on h =
    ap (λ r. (retry_after key later r.1).0) (retry_after-on key now t on)
    ∙ retry_after_lem key later (pruned_throttle key now t) on
    ∙ ap (λ r. wait_of t.limit t.window later (some r))
        (recent_of-prune t.window key now later t.failures h)

-- A correct password clears the account: whatever its failures were, the next check passes.
pub retry_after-record_success :
    (key : String) (now : ℕ) (t : Throttle) → (retry_after key now (record_success key t)).0 ≡ 0
unfolding retry_after record_success prune pruned wait_of
retry_after-record_success key now t = ground (arith, lookup-discard key t.failures)

-- The wait that a refusal names is enough, unless the window holds more failures than the limit:
-- with no further failure, the account is let in from that moment on.
pub retry_after-enough :
    (key : String) (now later : ℕ) (t : Throttle)
    → length (recent_of key now t) ≤ t.limit
    → (retry_after key now t).0 ≢ 0
    → now + (retry_after key now t).0 * second ≤ later
    → (retry_after key later (retry_after key now t).1).0 ≡ 0
retry_after-enough key now later t h p w = elim (Bool-cases (enabled t)) [
  | inl on ↦
      let e = retry_after_lem key now t on in
      retry_after-retry_after key now later t on (omega arith)
      ∙ ap (λ r. wait_of t.limit t.window later (some r))
          (sym (
            drop_expired-drop_expired t.window now later (get_or [] (lookup key t.failures))
              (omega arith)))
      ∙ waited t now later (recent_of key now t) h (λ z. p (e ∙ z))
          (subst (λ x. now + x * second ≤ later) e w)
  | inr off ↦ absurd (p (retry_after-off key now t off))
]
