-- ===== src/Throttle/Model.antt =====
-- `FailureThrottle`. The dict is an association list in its insertion order, the deque a list with
-- the oldest failure in front. A moment of the monotonic clock counts nanoseconds, so `int` of a
-- length of time is a quotient. The lock makes each call one step.
use fxa_lite.Prelude.{
  ℕ, suc, ◌+◌, ◌*◌, ◌-◌, ◌/◌, String, Bool, not, Option, none, some, List, [], ◌∷◌, ◌++◌, ◌==◌, ltb,
  leb, str_eq, max, if◌then◌else◌, length,
}
use fxa_lite.Exec.{Result, ok, raised}

abbrev pub max_entries : ℕ
max_entries = 4096

abbrev pub second : ℕ
second = 1000000000

abbrev pub Entries : Type 0
Entries = List (String × List ℕ)

pub record Throttle : Type 0 where
  pub limit : ℕ
  pub window : ℕ
  pub failures : Entries

abbrev pub enabled : Throttle → Bool
enabled t = ltb 0 t.limit

-- the dict: `get`, `pop(key, None)` and what `d[key] = value` does to a key that is there
unfoldable pub lookup : String → Entries → Option (List ℕ)
lookup key [] = none
lookup key ((k, v) ∷ es) = if str_eq k key then some v else lookup key es

unfoldable pub discard : String → Entries → Entries
discard key [] = []
discard key ((k, v) ∷ es) =
    let rest = discard key es in if str_eq k key then rest else (k, v) ∷ rest

unfoldable pub replace : String → List ℕ → Entries → Entries
replace key v [] = []
replace key v ((k, w) ∷ es) =
    let rest = replace key v es in if str_eq k key then (k, v) ∷ rest else (k, w) ∷ rest

-- `recent[0] <= now - window`
unfoldable pub is_expired : ℕ → ℕ → ℕ → Bool
is_expired window now at = leb (at + window * second) now

unfoldable pub drop_expired : ℕ → ℕ → List ℕ → List ℕ
drop_expired window now [] = []
drop_expired window now (at ∷ recent) =
    let rest = drop_expired window now recent in
    if is_expired window now at then rest else at ∷ recent

-- a deque that is left empty takes its key with it
unfoldable pub keep_pruned : String → List ℕ → Entries → Option (List ℕ) × Entries
keep_pruned key [] es = (none, discard key es)
keep_pruned key (at ∷ recent) es = (some (at ∷ recent), replace key (at ∷ recent) es)

unfoldable pub pruned : ℕ → String → ℕ → Entries → Option (List ℕ) → Option (List ℕ) × Entries
pruned window key now es none = (none, es)
pruned window key now es (some recent) = keep_pruned key (drop_expired window now recent) es

unfoldable pub prune : ℕ → String → ℕ → Entries → Option (List ℕ) × Entries
prune window key now es = pruned window key now es (lookup key es)

-- `for key in list(self._failures)`, over the keys as they were
unfoldable pub prune_all : ℕ → ℕ → Entries → Entries → Entries
prune_all window now [] es = es
prune_all window now ((k, _) ∷ keys) es = prune_all window now keys (prune window k now es).1

-- `while len(self._failures) >= MAX_ENTRIES`, the oldest key first
unfoldable pub pop_oldest : Entries → Entries
pop_oldest [] = []
pop_oldest (e ∷ es) =
    let rest = pop_oldest es in if leb max_entries (suc (length es)) then rest else e ∷ es

unfoldable pub evict : ℕ → ℕ → Entries → Entries
evict window now es =
    if ltb (length es) max_entries then es else pop_oldest (prune_all window now es es)

-- `max(1, int(recent[0] + self.window - moment) + 1)`
unfoldable pub wait_for : ℕ → ℕ → ℕ → ℕ
wait_for window now oldest = max 1 (suc ((oldest + window * second - now) / second))

unfoldable pub wait_of : ℕ → ℕ → ℕ → Option (List ℕ) → ℕ
wait_of limit window now none = 0
wait_of limit window now (some []) = 0
wait_of limit window now (some (oldest ∷ recent)) =
    if ltb (suc (length recent)) limit then 0 else wait_for window now oldest

unfoldable pub retry_after : String → ℕ → Throttle → ℕ × Throttle
unfolding wait_of
retry_after key now t =
    if not (enabled t)
    then (0, t)
    else (let (recent, es) = prune t.window key now t.failures in
        (wait_of t.limit t.window now recent, record t { failures = es }))

pub data TooManyRequests : Type 0 where
  too_many_requests : ℕ → TooManyRequests

unfoldable pub check : String → ℕ → Throttle → Result TooManyRequests Unit × Throttle
check key now t =
    let (wait, t') = retry_after key now t in
    (if wait == 0 then ok tt else raised (too_many_requests wait), t')

-- the entry goes to the back of the dict, new or not
unfoldable pub noted : ℕ → String → ℕ → Entries → Option (List ℕ) → Entries
noted window key now es none = evict window now es ++ ((key, now ∷ []) ∷ [])
noted window key now es (some recent) =
    discard key es ++ ((key, drop_expired window now recent ++ (now ∷ [])) ∷ [])

unfoldable pub note_failure : ℕ → String → ℕ → Entries → Entries
note_failure window key now es = noted window key now es (lookup key es)

unfoldable pub record_failure : String → ℕ → Throttle → Throttle
record_failure key now t =
    if not (enabled t) then t else record t { failures = note_failure t.window key now t.failures }

unfoldable pub record_success : String → Throttle → Throttle
record_success key t = if not (enabled t) then t else record t { failures = discard key t.failures }
