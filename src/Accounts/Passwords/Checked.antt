-- ===== src/Accounts/Passwords/Checked.antt =====
-- Who gets in with a password, and what a check leaves behind.
use Prim.Native.String.{String}
use fxa_lite.Prelude.{ℕ, ◌≡◌, refl, Option, none, some, true, arith, str_eq, eq_iff, ap, subst}
use fxa_lite.Exec.{Result, ok, raised}
use fxa_lite.Throttle.Model.{TooManyRequests, check, retry_after, record_success}
use fxa_lite.Throttle.Lockout.{retry_after-record_success}
use fxa_lite.Accounts.Database.{Account, account_by_email, normalize_email}
use fxa_lite.Accounts.Passwords.{Server, compared, check_known, authenticate}

module _ (stretch : String → String → String) (email auth_pw : String) (at later : ℕ)
    (a : Account) where
  compared-ok :
      (b : Account) (r : Result TooManyRequests Unit) (s : Server)
      → (compared stretch email auth_pw later b r s).0 ≡ ok a
      → (b ≡ a)
        × (stretch auth_pw b.auth_salt ≡ b.verify_hash)
        × (r ≡ ok tt)
        × ((compared stretch email auth_pw later b r s).1.throttle
            ≡ record_success (normalize_email email) s.throttle)
  unfolding compared
  compared-ok b (raised (TooManyRequests.too_many_requests wait)) s h = cc
  compared-ok b (ok _) s h =
      let matched : str_eq (stretch auth_pw b.auth_salt) b.verify_hash ≡ true = ground arith in
      (
        ground arith,
        (eq_iff (stretch auth_pw b.auth_salt) b.verify_hash).0 matched,
        refl,
        rw matched refl,
      )

  check_known-ok :
      (o : Option Account) (s : Server)
      → (check_known stretch email auth_pw at later o s).0 ≡ ok a
      → (o ≡ some a)
        × (stretch auth_pw a.auth_salt ≡ a.verify_hash)
        × ((check (normalize_email email) at s.throttle).0 ≡ ok tt)
        × ((check_known stretch email auth_pw at later o s).1.throttle
            ≡ record_success
                (normalize_email email)
                (check (normalize_email email) at s.throttle).1)
  unfolding check_known
  check_known-ok none s h = cc
  check_known-ok (some b) s h =
      let t = check (normalize_email email) at s.throttle in
      let (same, matched, passed, cleared) = compared-ok b t.0 (record s { throttle = t.1 }) h in
      (
        ap some same,
        subst (λ c. stretch auth_pw c.auth_salt ≡ c.verify_hash) same matched,
        passed,
        cleared,
      )

-- Where `authenticate` returns an account, it is the account of that address, the throttle let its
-- attempt pass, and the password stretches with the account's salt to the hash on record; and the
-- tally of the address is cleared: whatever the clock says, its next attempt does not have to wait.
pub authenticate-ok :
    (stretch : String → String → String) (email auth_pw : String) (at later next : ℕ) (a : Account)
    (s : Server)
    → (authenticate stretch email auth_pw at later s).0 ≡ ok a
    → (account_by_email email s.db ≡ some a)
      × (stretch auth_pw a.auth_salt ≡ a.verify_hash)
      × ((check (normalize_email email) at s.throttle).0 ≡ ok tt)
      × ((retry_after
            (normalize_email email)
            next
            (authenticate stretch email auth_pw at later s).1.throttle).0
          ≡ 0)
unfolding authenticate
authenticate-ok stretch email auth_pw at later next a s h =
    let key = normalize_email email in
    let (found, matched, passed, cleared) =
      check_known-ok stretch email auth_pw at later a (account_by_email email s.db) s h in
    (
      found,
      matched,
      passed,
      rw cleared (retry_after-record_success key next (check key at s.throttle).1),
    )
