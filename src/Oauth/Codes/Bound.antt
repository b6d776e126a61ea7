-- ===== src/Oauth/Codes/Bound.antt =====
-- A code is redeemed once, by its client, in time and with its verifier.
use Prim.Native.String.{String}
use fxa_lite.Prelude.{
  ℕ, ◌+◌, ◌*◌, ◌≤◌, ◌≡◌, refl, true, false, not, ◌&&◌, Option, none, some, arith, str_eq, eq_iff,
  ltb, is_some, Bool-cases, inl, inr, ◌∙◌,
}
use fxa_lite.Exec.{Result, ok, raised}
use fxa_lite.Errors.{Error}
use fxa_lite.Python.Strings.{given}
use fxa_lite.Table.Laws.{fetch_one-holds}
use fxa_lite.Oauth.Implicants.{ScopeError}
use fxa_lite.Oauth.Scopes.{ScopeSet, from_string}
use fxa_lite.Oauth.Clients.{Client}
use fxa_lite.Oauth.Grant.{Grant}
use fxa_lite.Accounts.Database.{Database, OauthCode, Account, account}
use fxa_lite.Accounts.Database.Tokens.{oauth_code, delete_oauth_code}
use fxa_lite.Oauth.Codes.{
  TokenRequest, for_account, grant_from_code, of_code, spend, check_against, check_given,
  check_code_verifier, redeem, redeem_presented, authorization_code_grant,
}

-- The verifier answers the challenge that a code was bound to, or neither is there.
abbrev pub Answers : (String → String) → Option String → Option String → Type 0
Answers s256 (some challenge) (some verifier) = challenge ≡ s256 verifier
Answers s256 (some challenge) none = ⊥
Answers s256 none (some verifier) = ⊥
Answers s256 none none = Unit

-- What a code must be for a client to redeem it with a request.
pub record Redeems (s256 : String → String) (client : Client) (payload : TokenRequest) (ttl now : ℕ)
    (code : OauthCode) (g : Grant) : Type 0 where
  pub its_client : code.client_id ≡ client.id
  pub in_time : now ≤ code.created_at + ttl * 1000
  pub verified : Answers s256 (given code.code_challenge) (given payload.code_verifier)
  pub its_user : g.uid ≡ code.uid
  pub its_keys : g.keys_jwe ≡ code.keys_jwe
  pub its_scope : from_string code.scope ≡ ok g.scope

module _ (s256 : String → String) where
  check_given-Answers :
      (sha256_hex : String → String) (challenge method verifier : Option String)
      → check_given sha256_hex s256 challenge method verifier ≡ ok tt
      → Answers s256 challenge verifier
  unfolding check_given check_against
  check_given-Answers sha256_hex none method none h = tt
  check_given-Answers sha256_hex none method (some v) h = cc
  check_given-Answers sha256_hex (some c) method none h = ground arith
  check_given-Answers sha256_hex (some c) method (some v) h = ground (arith, eq_iff c (s256 v))

grant_from_code-its :
    (client : Client) (a : Account) (code : OauthCode) (r : Result ScopeError ScopeSet) (g : Grant)
    → grant_from_code client a code r ≡ ok g
    → (g.uid ≡ a.uid) × (g.keys_jwe ≡ code.keys_jwe) × (r ≡ ok g.scope)
unfolding grant_from_code of_code
grant_from_code-its client a code (raised e) g h = cc
grant_from_code-its client a code (ok scope) g h = ground arith

for_account-its :
    (client : Client) (code : OauthCode) (o : Option Account) (g : Grant)
    → ((a : Account) → o ≡ some a → a.uid ≡ code.uid)
    → for_account client code o ≡ ok g
    → (g.uid ≡ code.uid) × (g.keys_jwe ≡ code.keys_jwe) × (from_string code.scope ≡ ok g.scope)
unfolding for_account
for_account-its client code none g k h = cc
for_account-its client code (some a) g k h =
    let its = grant_from_code-its client a code (from_string code.scope) g h in
    (its.0 ∙ k a refl, its.1, its.2)

module _ (client : Client) (code : OauthCode) (db : Database) (g : Grant) where
  -- A code that is spent on a grant was verified, and is gone.
  spend-ok :
      (r : Result Error Unit)
      → (spend client code r db).0 ≡ ok g
      → (r ≡ ok tt)
        × (for_account client code (account code.uid db) ≡ ok g)
        × ((spend client code r db).1 ≡ delete_oauth_code code.code db)
  unfolding spend account delete_oauth_code
  spend-ok (raised e) h = cc
  spend-ok (ok _) h = (refl, h, refl)

module _ (sha256_hex s256 : String → String) (client : Client) (payload : TokenRequest)
    (ttl now : ℕ) (db : Database) (g : Grant) where
  redeem-ok :
      (presented : String) (o : Option OauthCode)
      → (redeem sha256_hex s256 client payload presented ttl now o db).0 ≡ ok g
      → (code : OauthCode) × (o ≡ some code)
        × Redeems s256 client payload ttl now code g
        × ((redeem sha256_hex s256 client payload presented ttl now o db).1
            ≡ delete_oauth_code code.code db)
  unfolding redeem check_code_verifier account
  redeem-ok presented none h = cc
  redeem-ok presented (some code) h =
      let mine : str_eq code.client_id client.id ≡ true = ground arith in
      let early : ltb (code.created_at + ttl * 1000) now ≡ false = ground arith in
      let checked = check_code_verifier sha256_hex s256 code payload.code_verifier in
      let spent : (spend client code checked db).0 ≡ ok g = ground arith in
      let (verified, found, gone) = spend-ok client code db g checked spent in
      let owner =
        for_account-its client code (account code.uid db) g
          (λ a e.
            (eq_iff a.uid code.uid).0 (fetch_one-holds (λ b. str_eq b.uid code.uid) db.accounts e))
          found in
      (
        code,
        refl,
        record {
          its_client = (eq_iff code.client_id client.id).0 mine;
          in_time = ground arith;
          verified =
              check_given-Answers s256 sha256_hex (given code.code_challenge)
                code.code_challenge_method (given payload.code_verifier) verified;
          its_user = owner.0;
          its_keys = owner.1;
          its_scope = owner.2;
        },
        rw (mine, early) gone,
      )

  redeem_presented-ok :
      (o : Option String)
      → (redeem_presented sha256_hex s256 client payload o ttl now db).0 ≡ ok g
      → (presented : String) × (o ≡ some presented)
        × (code : OauthCode) × (oauth_code (sha256_hex presented) db ≡ some code)
        × Redeems s256 client payload ttl now code g
        × ((redeem_presented sha256_hex s256 client payload o ttl now db).1
            ≡ delete_oauth_code code.code db)
  unfolding redeem_presented
  redeem_presented-ok none h = cc
  redeem_presented-ok (some presented) h =
      let refused = is_some (given payload.code_verifier) && not client.public_client in
      let o = oauth_code (sha256_hex presented) db in
      elim (Bool-cases refused) [
        | inl e ↦ absurd (ground arith)
        | inr e ↦
            let (code, found, fits, gone) = redeem-ok presented o (ground arith) in
            (presented, refl, code, found, fits, rw e gone)
      ]

-- Where `_authorization_code_grant` returns a grant, the request presented a code whose digest is
-- in the table, and that code was made for this client, is not expired, and is bound to a
-- challenge which the verifier of the request answers, or to none where the request has none; the
-- grant is for the user and with the scope and the keys of the code; and the code is deleted.
pub authorization_code_grant-Redeems :
    (sha256_hex s256 : String → String) (client : Client) (payload : TokenRequest) (ttl now : ℕ)
    (db : Database) (g : Grant)
    → (authorization_code_grant sha256_hex s256 client payload ttl now db).0 ≡ ok g
    → (presented : String) × (payload.code ≡ some presented)
      × (code : OauthCode) × (oauth_code (sha256_hex presented) db ≡ some code)
      × Redeems s256 client payload ttl now code g
      × ((authorization_code_grant sha256_hex s256 client payload ttl now db).1
          ≡ delete_oauth_code code.code db)
unfolding authorization_code_grant
authorization_code_grant-Redeems sha256_hex s256 client payload ttl now db g h =
    redeem_presented-ok sha256_hex s256 client payload ttl now db g payload.code h
