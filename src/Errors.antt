-- ===== src/Errors.antt =====
-- errors.py: the error envelope, `FxaError`. A constructor is the function of its name with the
-- extra keys that it attaches; the functions below give the status and the errno of the envelope.
use Prim.Native.String.{String}
use fxa_lite.Prelude.{ℕ, Option, List, str_eq, if◌then◌else◌}

-- The last two are exceptions that no handler expects: sqlite3's, and the ValueError of `urlsplit`.
pub data Error : Type 0 where
  account_exists unknown_account : String → Error
  incorrect_password : String → String → Error
  unverified_account invalid_request_parameter : Error
  missing_request_parameter invalid_signature : String → Error
  invalid_token unauthorized : String → Error
  client_not_public unknown_device : Error
  device_session_conflict : String → Error
  request_body_too_large : Error
  too_many_requests : ℕ → Error
  feature_not_enabled : Error
  gone : Error
  service_unavailable : ℕ → Error
  unexpected_error : Error
  unknown_client incorrect_redirect unknown_code : String → Error
  mismatch_code : String → String → Error
  expired_code : String → ℕ → Error
  oauth_invalid_token : Error
  oauth_invalid_request_parameter : String → Error
  invalid_response_type : Error
  invalid_scopes : List String → Error
  not_public_client : String → Error
  mismatch_code_challenge : Option String → Error
  missing_pkce_parameters : Error
  stale_auth_at : ℕ → Error
  invalid_grant_type : Error
  mismatch_acr_values : String → Error
  expired_token : ℕ → Error
  unknown_token : Error
  profile_unauthorized : String → Error
  insufficient_scope : List String → Error
  integrity_error uncaught_value_error : Error

-- `code`; an exception that is no FxaError ends as a 500
unfoldable pub status : Error → ℕ
status (invalid_token _) = 401
status (unauthorized _) = 401
status (profile_unauthorized _) = 401
status feature_not_enabled = 403
status (insufficient_scope _) = 403
status gone = 410
status request_body_too_large = 413
status (too_many_requests _) = 429
status unexpected_error = 500
status integrity_error = 500
status uncaught_value_error = 500
status (service_unavailable _) = 503
status _ = 400

-- `errno`, from the table of the tier that raises the error
unfoldable pub errno : Error → ℕ
errno (account_exists _) = 101
errno (unknown_account _) = 102
errno (incorrect_password db_email request_email) =
    if str_eq db_email request_email then 103 else 120
errno unverified_account = 104
errno invalid_request_parameter = 107
errno (missing_request_parameter _) = 108
errno (invalid_signature _) = 109
errno (invalid_token _) = 110
errno (unauthorized _) = 110
errno client_not_public = 166
errno unknown_device = 123
errno (device_session_conflict _) = 124
errno request_body_too_large = 113
errno (too_many_requests _) = 114
errno feature_not_enabled = 202
errno gone = 116
errno (service_unavailable _) = 201
errno (unknown_client _) = 101
errno (incorrect_redirect _) = 103
errno (unknown_code _) = 105
errno (mismatch_code _ _) = 106
errno (expired_code _ _) = 107
errno oauth_invalid_token = 108
errno (oauth_invalid_request_parameter _) = 109
errno invalid_response_type = 110
errno (invalid_scopes _) = 114
errno (expired_token _) = 115
errno (not_public_client _) = 116
errno (mismatch_code_challenge _) = 117
errno missing_pkce_parameters = 118
errno (stale_auth_at _) = 119
errno (mismatch_acr_values _) = 120
errno invalid_grant_type = 121
errno unknown_token = 122
errno (profile_unauthorized _) = 100
errno (insufficient_scope _) = 100
errno unexpected_error = 999
errno integrity_error = 999
errno uncaught_value_error = 999
