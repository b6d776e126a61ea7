-- ===== src/Accounts/Devices/Single.antt =====
-- A credential has one device, however often it registers.
use Prim.Native.String.{String}
use fxa_lite.Prelude.{
  ℕ, ◌≡◌, refl, ap, sym, ◌∙◌, Bool, true, false, not, ◌||◌, Option, none, some, List, [], ◌∷◌,
  arith, str_eq, eq_iff, is_some, length, Bool-cases, inl, inr,
}
use fxa_lite.Exec.{ok, ◌>>=◌, pure}
use fxa_lite.Table.{fetch_one, upsert}
use fxa_lite.Accounts.Database.{Database, Device, SessionToken, RefreshToken, is_value}
use fxa_lite.Accounts.Database.Devices.{
  clashes, same_value, is_storable, overwrite, upsert_device, device_by_session_token,
  device_by_refresh_token,
}
use fxa_lite.Accounts.Credentials.{DeviceCredentials}
use fxa_lite.Accounts.Devices.{
  Registration, owned, current_device, session_id_of, refresh_id_of, merge, register, register_as,
  device_register,
}
use fxa_lite.Accounts.UserAgents.{UserAgent}
use fxa_lite.Python.Strings.{given}

str_refl : (s : String) → str_eq s s ≡ true
str_refl s = (eq_iff s s).1 refl

module _ {A : Type 0} where
  found_other :
      (p q : A → Bool) (rows : List A) (r : A)
      → fetch_one q rows ≡ some r
      → p r ≡ true
      → is_some (fetch_one p rows) ≡ true
  unfolding fetch_one
  found_other p q [] r h k = cc
  found_other p q (x ∷ rows) r h k = ground (arith, found_other p q rows r)

  length-upsert_of :
      (p : A → Bool) (f : A → A) (new : A) (rows : List A)
      → is_some (fetch_one p rows) ≡ true
      → length (upsert p f new rows) ≡ length rows
  unfolding fetch_one upsert
  length-upsert_of p f new [] h = ground arith
  length-upsert_of p f new (r ∷ rows) h = ground (arith, length-upsert_of p f new rows)

-- The devices of a credential.
owns : Option SessionToken → Option RefreshToken → Device → Bool
owns none none d = false
owns none (some token) d = is_value token.token_id d.refresh_token_id
owns (some token) refresh d = is_value token.token_id d.session_token_id

owned-fetch_one :
    (s : Option SessionToken) (r : Option RefreshToken) (db : Database)
    → is_some s || is_some r ≡ true
    → owned s r db ≡ fetch_one (owns s r) db.devices
unfolding owned owns device_by_session_token device_by_refresh_token
owned-fetch_one none none db h = ground arith
owned-fetch_one none (some token) db h = refl
owned-fetch_one (some token) r db h = refl

-- A stored device carries the pointers of the credential.
abbrev Carries : Option SessionToken → Option RefreshToken → Device → Type 0
Carries s r new =
    (new.session_token_id ≡ session_id_of s) × (new.refresh_token_id ≡ refresh_id_of r)

owns-Carries :
    (s : Option SessionToken) (r : Option RefreshToken) (d : Device)
    → is_some s || is_some r ≡ true
    → Carries s r d
    → owns s r d ≡ true
unfolding owns session_id_of refresh_id_of is_value
owns-Carries none none d known its = ground arith
owns-Carries none (some t) d known its = rw its.1 (str_refl t.token_id)
owns-Carries (some t) r d known its = rw its.0 (str_refl t.token_id)

-- Another device of the credential would clash with the new one in an index.
owns-clashes :
    (s : Option SessionToken) (r : Option RefreshToken) (new d : Device)
    → Carries s r new
    → owns s r d ≡ true
    → str_eq d.id new.id ≡ false
    → clashes new d ≡ true
unfolding owns clashes session_id_of refresh_id_of same_value
owns-clashes none none new d its o n = ground arith
owns-clashes none (some t) new d its o n = rw (its.0, its.1, n, o) refl
owns-clashes (some t) r new d its o n = rw (its.0, n, o) refl

module _ (s : Option SessionToken) (r : Option RefreshToken) (new : Device)
    (known : is_some s || is_some r ≡ true) (its : Carries s r new) where
  -- After the write, the device of the credential is the one that was written.
  fetch_one-written :
      (rows : List Device)
      → is_some (fetch_one (clashes new) rows) ≡ false
      → (d : Device) × (fetch_one
            (owns s r)
            (upsert (λ d. str_eq d.id new.id) (overwrite new) new rows)
          ≡ some d)
        × (d.id ≡ new.id)
  unfolding fetch_one upsert overwrite
  fetch_one-written [] h = let mine = owns-Carries s r new known its in (new, rw mine refl, refl)
  fetch_one-written (d ∷ rows) h = elim (Bool-cases (str_eq d.id new.id)) [
    | inl e ↦
        let mine = owns-Carries s r (overwrite new d) known its in
        (overwrite new d, rw (e, mine) refl, (eq_iff d.id new.id).0 e)
    | inr e ↦
        let (f, found, same) = fetch_one-written rows (ground arith) in
        let free : clashes new d ≡ false = ground arith in
        let other : owns s r d ≡ false = ground (arith, owns-clashes s r new d its) in
        (f, rw (e, other) found, same)
  ]

module _ (c : DeviceCredentials) (payload : Registration) (agent : UserAgent) (fresh : String)
    (now : ℕ) (db : Database) (current : Option Device) (d : Device) (b : Bool) where
  -- A registration that is answered was stored.
  register-ok :
      (register payload current c agent fresh now db).0 ≡ ok (d, b)
      → (d ≡ merge payload current c agent fresh now)
        × (b ≡ not (is_some current))
        × (is_storable d db ≡ true)
        × ((register payload current c agent fresh now db).1.devices
            ≡ upsert (λ e. str_eq e.id d.id) (overwrite d) d db.devices)
  unfolding register upsert_device ◌>>=◌ pure
  register-ok h =
      let new = merge payload current c agent fresh now in
      elim (Bool-cases (is_storable new db)) [
        | inl e ↦
            let same : new ≡ d = ground arith in
            let flag : b ≡ not (is_some current) = ground arith in
            rw (e, ← same) (refl, flag, e, refl)
        | inr e ↦ absurd (ground arith)
      ]

register_as-given :
    (payload : Registration) (c : DeviceCredentials) (agent : UserAgent) (fresh : String) (now : ℕ)
    (db : Database)
    → given payload.id ≡ none
    → device_register payload c agent fresh now db
      ≡ register payload (current_device c db) c agent fresh now db
unfolding device_register register_as
register_as-given payload c agent fresh now db h =
    ap (λ o. register_as payload o c agent fresh now db) h

merge-id :
    (payload : Registration) (d : Device) (c : DeviceCredentials) (agent : UserAgent)
    (fresh : String) (now : ℕ)
    → given payload.id ≡ none
    → (merge payload (some d) c agent fresh now).id ≡ d.id
unfolding merge
merge-id payload d c agent fresh now h = rw h refl

-- Where a registration without an id was answered, a second one without an id, by the same
-- credential, that is answered too is for the same device: it has the same id, is not a new one,
-- and the table of devices has no more rows than after the first.
pub device_register-single :
    (payload payload' : Registration) (c : DeviceCredentials) (agent agent' : UserAgent)
    (fresh fresh' : String) (now now' : ℕ) (db : Database) (d d' : Device) (b b' : Bool)
    → given payload.id ≡ none
    → given payload'.id ≡ none
    → is_some c.session || is_some c.refresh ≡ true
    → (device_register payload c agent fresh now db).0 ≡ ok (d, b)
    → (device_register payload' c agent' fresh' now'
        (device_register payload c agent fresh now db).1).0
      ≡ ok (d', b')
    → (d'.id ≡ d.id)
      × (b' ≡ false)
      × (length
            (device_register payload' c agent' fresh' now'
              (device_register payload c agent fresh now db).1).1.devices
          ≡ length (device_register payload c agent fresh now db).1.devices)
unfolding current_device is_storable merge
device_register-single payload payload' c agent agent' fresh fresh' now now' db d d' b b' p p' known
      h again =
    let first = register_as-given payload c agent fresh now db p in
    let db1 = (device_register payload c agent fresh now db).1 in
    let (its, _, stored, rows) =
      register-ok c payload agent fresh now db (current_device c db) d b
        (sym (ap (λ x. x.0) first) ∙ h) in
    let carries : Carries c.session c.refresh d = rw its (refl, refl) in
    let (e, found, same) =
      fetch_one-written c.session c.refresh d known carries db.devices (ground arith) in
    let rows1 : db1.devices ≡ upsert (λ x. str_eq x.id d.id) (overwrite d) d db.devices =
      ap (λ x. x.1.devices) first ∙ rows in
    let current : current_device c db1 ≡ some e =
      owned-fetch_one c.session c.refresh db1 known
      ∙ ap (fetch_one (owns c.session c.refresh)) rows1
      ∙ found in
    let second =
      register_as-given payload' c agent' fresh' now' db1 p'
      ∙ ap (λ o. register payload' o c agent' fresh' now' db1) current in
    let (its', flag, _, rows') =
      register-ok c payload' agent' fresh' now' db1 (some e) d' b'
        (sym (ap (λ x. x.0) second) ∙ again) in
    let id : d'.id ≡ e.id = ap (λ x. x.id) its' ∙ merge-id payload' e c agent' fresh' now' p' in
    let there =
      found_other (λ x. str_eq x.id d'.id) (owns c.session c.refresh) db1.devices e
        (ap (fetch_one (owns c.session c.refresh)) rows1 ∙ found)
        ((eq_iff e.id d'.id).1 (sym id)) in
    (
      id ∙ same,
      flag,
      ap (λ x. length x.1.devices) second
          ∙ ap length rows'
          ∙ length-upsert_of (λ x. str_eq x.id d'.id) (overwrite d') d' db1.devices there,
    )
