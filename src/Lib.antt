-- ===== src/Lib.antt =====
-- fxa-lite: a Firefox Accounts and Sync server for a household, in Python. The development models its
-- accounts, sessions and devices, its OAuth server, the Sync storage, the allocation of Sync uids by
-- the tokenserver, and the throttle in front of the password checks.
--
-- The parts, and the files that model them:
--
-- * Sync storage (src/fxa_lite/syncstorage). SyncStorage/Model.antt has the tables of SCHEMA_V3
--   (src/fxa_lite/db.py) as lists of rows, the records and the exceptions. SyncStorage/Store/ has the
--   methods of `SyncStore` (store.py), one function each under the method's name: Collections,
--   Timestamps, Reads, Writes and Batches. SyncStorage/Offset.antt and SyncStorage/BatchId.antt have
--   the tokens that pass through the client. SyncStorage/Body.antt has `_bso_from_object` and
--   `parse_bso_bodies` (models.py), on the objects that json.loads has made. SyncStorage/Web/ has the
--   HTTP tier (__init__.py): Run is `_run` with its transaction, preconditions and write guard,
--   Handlers the inner function of each route, Routes the route table.
-- * Tokenserver (src/fxa_lite/tokenserver/__init__.py). Tokenserver/Users.antt has the table
--   sync_users and its statements, Tokenserver/Allocate.antt `_current_user`, `_validate` and
--   `_apply`.
-- * Throttle (src/fxa_lite/throttle.py). Throttle/Model.antt has `FailureThrottle`.
-- * Accounts (src/fxa_lite/db.py, accounts.py and auth). Accounts/Database.antt has the tables of
--   SCHEMA_V1 with their cascades, Accounts/Database/Tokens.antt and Accounts/Database/Devices.antt
--   the methods on them, Accounts/Integrity.antt the calls of these methods as data.
--   Accounts/Credentials.antt is auth/credentials.py behind the parsing of the header,
--   Accounts/Passwords.antt is accounts.py with the throttle, Accounts/Sessions.antt the routes of
--   auth/account.py and auth/session.py, Accounts/Devices.antt those of
--   auth/devices.py, Accounts/UserAgents.antt auth/user_agent.py.
-- * OAuth (src/fxa_lite/oauth). Oauth/Implicants.antt and Oauth/Scopes.antt are scopes.py,
--   Oauth/Clients.antt clients.py, Oauth/Grant.antt the checks of a requested grant in grant.py,
--   Oauth/Authorization.antt the route of routes.py that issues a code, Oauth/Codes.antt the redemption
--   of the code, Oauth/Renewal.antt what a refresh token still gives, Oauth/Tokens.antt the other two
--   grants and what `oauth_token` makes of a grant.
-- * Errors.antt has the error envelope (src/fxa_lite/errors.py).
--
-- A password signs in to a session token; the OAuth server exchanges this for a code or a token,
-- whose claims tell the tokenserver the account's generation and keys. The storage finds a user by the
-- uid that the tokenserver allocates; a route opens a transaction on the store of that uid, and an
-- exception rolls it back. A SQL statement is a function of Table.antt on a list of rows, with the
-- keys of its table as the condition. An operation takes the tables and returns a result or an
-- exception with the tables after it (Exec.antt); a KeyError of a dictionary lookup is an exception of
-- its own.
--
-- Numbers: timestamps are milliseconds and natural numbers; sort indices and decoded batch ids are
-- integers, and sqlite3 raises an OverflowError for a batch id that does not fit into 64 bits. Text that
-- the code takes apart is a list of code points, other text a string. Python's int(), with its limit of
-- 4300 digits, and base64 are modelled in Python/ on the characters that the code meets. Sorting is by
-- insertion, stable; where SQL leaves an order open, it is the order of the table. The client of
-- SyncStorage/Paging/Client.antt runs on fuel, and one more than the number of rows is enough; its
-- requests have instants of their own and find the same tables. The
-- search for a free batch id runs on the retry count of the source, and the loop that defers the
-- records past the cap runs on their number. A throttle's clock counts nanoseconds, and its lock makes
-- each call one step. The loop over a short scope runs on the number of its names, that over a URL
-- scope on the number of its path segments after the first: each round removes one. Scopes and URLs
-- are taken apart as code points, with the case and the white space of ASCII.
--
-- Arguments of the model, since libraries make them: the digests of a token (`sha256_hex`) and of a
-- PKCE verifier (`s256`), the query of a URI (`query_of`, `with_query`), the stretching of a password
-- (`stretch`), the texts that `secrets` draws, and the clock.
--
-- Not modelled: authentication by Hawk, JSON, the parsing of queries, headers and User-Agents, the
-- OAuth routes that inspect or destroy tokens, the list of attached clients,
-- the signing of tokens, the minting of Sync tokens, the printing of timestamps as seconds, the
-- cryptography, and the application's wiring and migrations.
pub mod Prelude
pub mod Exec
pub mod Table
pub mod Python
pub mod SyncStorage
pub mod Tokenserver
pub mod Throttle
pub mod Errors
pub mod Accounts
pub mod Oauth
pub mod Tests
