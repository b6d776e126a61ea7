-- ===== src/Throttle/Bounds.antt =====
-- The table of failures holds at most `MAX_ENTRIES` accounts, each of them once.
use fxa_lite.Prelude.{
  ℕ, suc, ◌≤◌, String, ◌≡◌, ◌≢◌, Option, none, some, List, [], ◌∷◌, ◌++◌, eq_iff, sym, refl, arith,
  length, length-append, All, All-append,
}
use fxa_lite.Throttle.Model.{
  Throttle, Entries, max_entries, lookup, discard, replace, drop_expired, keep_pruned, pruned,
  prune, prune_all, pop_oldest, evict, noted, note_failure, record_failure, record_success,
  retry_after, check,
}

-- no key stands twice
abbrev pub IsDict : Entries → Type 0
IsDict [] = Unit
IsDict ((k, _) ∷ es) = All (λ e. e.0 ≢ k) es × IsDict es

abbrev pub IsBounded : Throttle → Type 0
IsBounded t = IsDict t.failures × (length t.failures ≤ max_entries)

abbrev pub Lacks : String → Entries → Type 0
Lacks key es = All (λ e. e.0 ≢ key) es

discard-Lacks : (key : String) (es : Entries) → Lacks key (discard key es)
unfolding discard
discard-Lacks key [] = tt
discard-Lacks key ((k, v) ∷ es) = ground (arith, discard-Lacks key es, eq_iff k key)

Lacks-discard : (other key : String) (es : Entries) → Lacks other es → Lacks other (discard key es)
unfolding discard
Lacks-discard other key [] h = tt
Lacks-discard other key ((k, v) ∷ es) h = ground (arith, Lacks-discard other key es h.1)

Lacks-replace :
    (other key : String) (v : List ℕ) (es : Entries)
    → Lacks other es
    → Lacks other (replace key v es)
unfolding replace
Lacks-replace other key v [] h = tt
Lacks-replace other key v ((k, w) ∷ es) h = ground (arith, Lacks-replace other key v es h.1)

discard-IsDict : (key : String) (es : Entries) → IsDict es → IsDict (discard key es)
unfolding discard
discard-IsDict key [] h = tt
discard-IsDict key ((k, v) ∷ es) h =
    ground (arith, discard-IsDict key es h.1, Lacks-discard k key es h.0)

replace-IsDict : (key : String) (v : List ℕ) (es : Entries) → IsDict es → IsDict (replace key v es)
unfolding replace
replace-IsDict key v [] h = tt
replace-IsDict key v ((k, w) ∷ es) h =
    ground (arith, replace-IsDict key v es h.1, Lacks-replace k key v es h.0)

length-discard : (key : String) (es : Entries) → length (discard key es) ≤ length es
unfolding discard
length-discard key [] = ground arith
length-discard key ((k, v) ∷ es) = ground (arith, length-discard key es)

length-discard_found :
    (key : String) (es : Entries) (v : List ℕ)
    → lookup key es ≡ some v
    → suc (length (discard key es)) ≤ length es
unfolding discard lookup
length-discard_found key [] v h = ground arith
length-discard_found key ((k, w) ∷ es) v h =
    ground (arith, length-discard key es, length-discard_found key es v)

length-replace : (key : String) (v : List ℕ) (es : Entries) → length (replace key v es) ≡ length es
unfolding replace
length-replace key v [] = ground arith
length-replace key v ((k, w) ∷ es) = ground (arith, length-replace key v es)

module _ (window : ℕ) where
  keep_pruned-IsDict :
      (key : String) (recent : List ℕ) (es : Entries)
      → IsDict es
      → IsDict (keep_pruned key recent es).1 × (length (keep_pruned key recent es).1 ≤ length es)
  unfolding keep_pruned
  keep_pruned-IsDict key [] es h = (discard-IsDict key es h, length-discard key es)
  keep_pruned-IsDict key (at ∷ recent) es h =
      (replace-IsDict key (at ∷ recent) es h, ground (arith, length-replace key (at ∷ recent) es))

  pruned-IsDict :
      (key : String) (now : ℕ) (es : Entries) (found : Option (List ℕ))
      → IsDict es
      → IsDict (pruned window key now es found).1
        × (length (pruned window key now es found).1 ≤ length es)
  unfolding pruned
  pruned-IsDict key now es none h = (h, ground arith)
  pruned-IsDict key now es (some recent) h =
      keep_pruned-IsDict key (drop_expired window now recent) es h

  prune-IsDict :
      (key : String) (now : ℕ) (es : Entries)
      → IsDict es
      → IsDict (prune window key now es).1 × (length (prune window key now es).1 ≤ length es)
  unfolding prune
  prune-IsDict key now es h = pruned-IsDict key now es (lookup key es) h

  prune_all-IsDict :
      (now : ℕ) (keys es : Entries) → IsDict es → IsDict (prune_all window now keys es)
  unfolding prune_all
  prune_all-IsDict now [] es h = h
  prune_all-IsDict now ((k, _) ∷ keys) es h =
      prune_all-IsDict now keys (prune window k now es).1 (prune-IsDict k now es h).0

pop_oldest-IsDict :
    (es : Entries)
    → IsDict es
    → IsDict (pop_oldest es) × (suc (length (pop_oldest es)) ≤ max_entries)
unfolding pop_oldest
pop_oldest-IsDict [] h = (tt, ground arith)
pop_oldest-IsDict ((k, v) ∷ es) h = ground (arith, pop_oldest-IsDict es h.1)

evict-IsDict :
    (window now : ℕ) (es : Entries)
    → IsDict es
    → IsDict (evict window now es) × (suc (length (evict window now es)) ≤ max_entries)
unfolding evict
evict-IsDict window now es h =
    ground (arith, pop_oldest-IsDict _ (prune_all-IsDict window now es es h))

pub lookup-Lacks : (key : String) (es : Entries) → lookup key es ≡ none → Lacks key es
unfolding lookup
lookup-Lacks key [] h = tt
lookup-Lacks key ((k, v) ∷ es) h = ground (arith, lookup-Lacks key es, eq_iff k key)

pop_oldest-Lacks : (key : String) (es : Entries) → Lacks key es → Lacks key (pop_oldest es)
unfolding pop_oldest
pop_oldest-Lacks key [] h = tt
pop_oldest-Lacks key ((k, v) ∷ es) h = ground (arith, pop_oldest-Lacks key es h.1)

module _ (window : ℕ) where
  keep_pruned-Lacks :
      (other key : String) (recent : List ℕ) (es : Entries)
      → Lacks other es
      → Lacks other (keep_pruned key recent es).1
  unfolding keep_pruned
  keep_pruned-Lacks other key [] es h = Lacks-discard other key es h
  keep_pruned-Lacks other key (at ∷ recent) es h = Lacks-replace other key (at ∷ recent) es h

  pruned-Lacks :
      (other key : String) (now : ℕ) (es : Entries) (found : Option (List ℕ))
      → Lacks other es
      → Lacks other (pruned window key now es found).1
  unfolding pruned
  pruned-Lacks other key now es none h = h
  pruned-Lacks other key now es (some recent) h =
      keep_pruned-Lacks other key (drop_expired window now recent) es h

  prune-Lacks :
      (other key : String) (now : ℕ) (es : Entries)
      → Lacks other es
      → Lacks other (prune window key now es).1
  unfolding prune
  prune-Lacks other key now es h = pruned-Lacks other key now es (lookup key es) h

  prune_all-Lacks :
      (key : String) (now : ℕ) (keys es : Entries)
      → Lacks key es
      → Lacks key (prune_all window now keys es)
  unfolding prune_all
  prune_all-Lacks key now [] es h = h
  prune_all-Lacks key now ((k, _) ∷ keys) es h =
      prune_all-Lacks key now keys (prune window k now es).1 (prune-Lacks key k now es h)

  pub evict-Lacks :
      (key : String) (now : ℕ) (es : Entries) → Lacks key es → Lacks key (evict window now es)
  unfolding evict
  evict-Lacks key now es h =
      ground (arith, pop_oldest-Lacks key _ (prune_all-Lacks key now es es h))

push-IsDict :
    (key : String) (v : List ℕ) (es : Entries)
    → IsDict es
    → Lacks key es
    → IsDict (es ++ ((key, v) ∷ []))
push-IsDict key v [] h l = (tt, tt)
push-IsDict key v ((k, w) ∷ es) h l =
    (All-append _ es ((key, v) ∷ []) h.0 ((λ p. l.0 (sym p)), tt), push-IsDict key v es h.1 l.1)

noted-IsDict :
    (window : ℕ) (key : String) (now : ℕ) (es : Entries) (found : Option (List ℕ))
    → lookup key es ≡ found
    → IsDict es
    → length es ≤ max_entries
    → IsDict (noted window key now es found)
      × (length (noted window key now es found) ≤ max_entries)
unfolding noted
noted-IsDict window key now es none e h b =
    let (d, l) = evict-IsDict window now es h in
    (
      push-IsDict key (now ∷ []) _ d (evict-Lacks window key now es (lookup-Lacks key es e)),
      ground (arith, length-append (evict window now es) ((key, now ∷ []) ∷ [])),
    )
noted-IsDict window key now es (some recent) e h b =
    let v = drop_expired window now recent ++ (now ∷ []) in
    (
      push-IsDict key v _ (discard-IsDict key es h) (discard-Lacks key es),
      ground (
        arith,
        length-append (discard key es) ((key, v) ∷ []),
        length-discard_found key es recent e,
      ),
    )

note_failure-IsDict :
    (window : ℕ) (key : String) (now : ℕ) (es : Entries)
    → IsDict es
    → length es ≤ max_entries
    → IsDict (note_failure window key now es)
      × (length (note_failure window key now es) ≤ max_entries)
unfolding note_failure
note_failure-IsDict window key now es h b = noted-IsDict window key now es (lookup key es) refl h b

-- No call makes the table hold an account twice, or more than `MAX_ENTRIES` accounts, whatever the
-- limit, the window and the clock are.
pub throttle-IsBounded :
    (key : String) (now : ℕ) (t : Throttle)
    → IsBounded t
    → IsBounded (record_failure key now t)
      × IsBounded (record_success key t)
      × IsBounded (check key now t).1
unfolding record_failure record_success check retry_after
throttle-IsBounded key now t h = (
  ground (arith, note_failure-IsDict t.window key now t.failures h.0 h.1),
  ground (arith, discard-IsDict key t.failures h.0, length-discard key t.failures),
  ground (arith, prune-IsDict t.window key now t.failures h.0),
)
