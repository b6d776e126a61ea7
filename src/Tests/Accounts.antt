-- ===== src/Tests/Accounts.antt =====
-- Concrete accounts: their sync users, and their failed password checks.
use fxa_lite.Prelude.{
  none, some, ℕ, ◌*◌, ◌≡◌, ◌≢◌, ◌≤◌, ◌⊎◌, refl, false, List, [], ◌∷◌, arith, eq_iff,
}
use fxa_lite.Exec.{ok, raised}
use fxa_lite.Tokenserver.Users.{SyncUser, Users}
use fxa_lite.Tokenserver.Allocate.{
  AuthData, validate, retired, next_generation, next_keys_changed_at,
}
use fxa_lite.Tokenserver.Forward.{IsKept, IsLater, validate-forward, validate-changed}
use fxa_lite.Throttle.Model.{
  Throttle, too_many_requests, second, lookup, retry_after, check, record_failure, record_success,
  drop_expired, is_expired, prune, pruned, keep_pruned, wait_of, wait_for,
}
use fxa_lite.Throttle.Bounds.{IsBounded, throttle-IsBounded}
use fxa_lite.Throttle.Lockout.{retry_after-record_success, retry_after-enough}
use fxa_lite.Throttle.Attempts.{
  record_failures, check-record_failures_few, check-record_failures_many,
}

abbrev carol : SyncUser
carol = record {
  uid = 1;
  fxa_uid = "carol";
  client_state = "aa";
  generation = 5;
  keys_changed_at = some 5;
  created_at = 1;
  replaced_at = none;
}

abbrev dave : SyncUser
dave = record carol { uid = 2; fxa_uid = "dave" }

abbrev household : Users
household = record { rows = carol ∷ dave ∷ []; next_uid = 3; accounts = "carol" ∷ "dave" ∷ [] }

abbrev same_key : AuthData
same_key = record {
  fxa_uid = "carol";
  client_state = "aa";
  generation = some 6;
  keys_changed_at = some 5;
}

abbrev new_key : AuthData
new_key = record {
  fxa_uid = "carol";
  client_state = "bb";
  generation = some 7;
  keys_changed_at = some 7;
}

same_key-valid : validate same_key carol [] ≡ ok tt
unfolding validate retired
same_key-valid = refl

new_key-valid : validate new_key carol [] ≡ ok tt
unfolding validate retired
new_key-valid = refl

new_key-changed : new_key.client_state ≢ carol.client_state
new_key-changed e = ground (arith, eq_iff "bb" "aa")

validate-forward_example :
    (carol.generation ≤ next_generation same_key carol)
    × IsKept carol.keys_changed_at (next_keys_changed_at same_key carol)
validate-forward_example = validate-forward same_key carol [] same_key-valid

validate-changed_example :
    (retired new_key.client_state [] ≡ false)
    × (carol.client_state ≡ "" ⊎ new_key.client_state ≢ "")
    × IsLater (some carol.generation) new_key.generation
    × IsLater carol.keys_changed_at new_key.keys_changed_at
validate-changed_example = validate-changed new_key carol [] new_key-valid new_key-changed

abbrev door : Throttle
door = record { limit = 2; window = 60; failures = [] }

abbrev times : List ℕ
times = 1 * second ∷ 2 * second ∷ []

abbrev knocked : Throttle
knocked = record { limit = 2; window = 60; failures = ("carol", times) ∷ [] }

throttle-IsBounded_example :
    IsBounded (record_failure "carol" 5 knocked)
    × IsBounded (record_success "carol" knocked)
    × IsBounded (check "carol" 5 knocked).1
throttle-IsBounded_example = throttle-IsBounded "carol" 5 knocked ((tt, tt), omega arith)

retry_after-record_success_example :
    (retry_after "carol" (3 * second) (record_success "carol" knocked)).0 ≡ 0
retry_after-record_success_example = retry_after-record_success "carol" (3 * second) knocked

waiting : (retry_after "carol" (3 * second) knocked).0 ≡ 59
unfolding retry_after prune pruned keep_pruned drop_expired is_expired lookup wait_of wait_for
waiting = refl

retry_after-enough_example :
    (retry_after "carol" (70 * second) (retry_after "carol" (3 * second) knocked).1).0 ≡ 0
unfolding drop_expired is_expired lookup
retry_after-enough_example =
    retry_after-enough "carol" (3 * second) (70 * second) knocked (omega arith)
      (λ e. omega (arith, waiting)) (rw waiting (omega arith))

check-record_failures_few_example :
    (check "carol" (3 * second) (record_failures "carol" (1 * second ∷ []) door)).0 ≡ ok tt
unfolding lookup
check-record_failures_few_example =
    check-record_failures_few "carol" (1 * second ∷ []) (3 * second) door refl refl
      ((omega arith, omega arith), tt) (omega arith)

check-record_failures_many_example :
    (wait : ℕ) × ((check "carol" (3 * second) (record_failures "carol" times door)).0
      ≡ raised (too_many_requests wait))
    × (1 ≤ wait)
    × (wait ≤ 61)
unfolding lookup
check-record_failures_many_example =
    check-record_failures_many "carol" times (3 * second) door refl refl
      ((omega arith, omega arith), ((omega arith, omega arith), tt)) (omega arith)
