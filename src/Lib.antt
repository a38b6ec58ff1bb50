-- ===== src/Lib.antt =====
-- Verification of the LKM service, a community backend (FastAPI, PostgreSQL, Redis, a message bus).
--
-- A request works in one session of the database, which commits when its handler returns and rolls
-- back when it raises. A business change puts its events into the outbox in the same transaction;
-- the relay publishes them, and workers consume them: points are rewarded, behaviour is counted,
-- tasks advance. Questions hold bounties in escrow. Caches stand before the database, sign-in hands
-- out session tokens, and roles decide what a session may do.
--
-- Prelude.antt: the shared names. Prelude/Tests, Lists, Equality, Int and Dict hold Boolean tests,
-- lists measured by native numbers, equality as an interface (`Key`), signed integers, and tables;
-- Prelude/Keys.antt holds tables with distinct keys, Prelude/Texts.antt `str.strip`.
-- Prelude/Exec.antt: a call that may raise (`Exec`), and the session that rolls back (`atomic`).
--
-- Points.antt, app/modules/points: Points/Ledger.antt models `reward`, `spend`, `_apply_delta` and
-- `apply_delta` of service.py and repository.py, Points/Ledger/Transfer.antt `transfer`. The books
-- are a table of balances and the ledger's rows, newest first; a balance is bounded by its column
-- of 32 bits, a text by its own. A query without an order that meets several rows returns the one
-- that the state's `plan` says. Points/Engine.antt models engine.py: what an event does besides its
-- reward.
--
-- Outbox.antt, core/outbox_relay.py, core/db/outbox.py, event_failure.py and outbox_archive.py: the
-- tables. Outbox/Relay.antt has the two transactions of one round (`claim`, `settle`) and the one
-- that gives a claim back, Outbox/Poll.antt `relay_poll`, Outbox/Archive.antt `archive_published`,
-- Outbox/Enqueue.antt `enqueue_outbox`. A poll runs over a list of rounds, at most one for each row
-- of its batch; a round carries the lease's state, the bus's answer, the clock's readings and what
-- other processes do between the two transactions.
--
-- Events.antt, core/event_contract.py: payloads and handlers against the contracts; the contracts
-- themselves stand in Events/Registry.antt.
--
-- Cache.antt: Cache/Local.antt models core/local_cache.py, Cache/Users.antt the snapshots of users
-- in core/user_cache.py (Redis as two tables; a race is a list of the others' changes, each of which
-- makes one of the eight attempts fail), Cache/Bloom.antt the filter of core/bloom.py.
--
-- Rbac.antt, core/rbac_roles.py: the closure of roles, the constraints, the roles of a session. The
-- loop of `role_closure` runs on fuel, the number of pending roles and of all edges; Rbac/Closure.antt
-- shows that it is enough.
--
-- Qa.antt, app/modules/qa: Qa/Service.antt models service.py and repository.py, which hold a bounty
-- in the books of the points; Qa/Runs.antt has any sequence of requests and expiry rounds, and
-- Qa/Expiry.antt the task of tasks.py, which runs rounds until none is due: its fuel is the number
-- of open questions and one more.
--
-- Auth.antt, auth/: the accounts and the session tokens. Auth/Sessions.antt models the gates, the
-- issue, the rotation and the revocation of tokens (service_auth.py, account_state.py, admission.py,
-- repository.py), Auth/Login.antt the sign-in with a password and its lock, Auth/Runs.antt any
-- sequence of requests, Auth/Breaker.antt the breaker of circuit_breaker.py and the request of
-- user_http.py that goes through it, in two parts that interleave with others'.
-- Events of the accounts are committed in sessions of their own, which a rollback of the request
-- leaves; the bus is on and none of these enqueues fails.
--
-- Content.antt, app/modules/content and app/modules/comment: Content/Counters.antt models the
-- counting columns of an item (counters.py, core/counters.py) and their reconciliation, whose loop
-- over windows runs on fuel, more than there are rows; Content/Likes.antt `like_item` and
-- `unlike_item` of service.py. Redis answers throughout a call or not at all, and a count is not
-- bounded by its column.
--
-- Calls among the parts: the questions and the events move points by the calls of Points/Ledger.antt,
-- and a session of Auth/Sessions.antt takes its roles from Rbac.antt.
--
-- Readings of the clock within one transaction count as one. A uuid is a number, a time a number of
-- microseconds or of the clock's ticks, a text a `String`.
-- Parameters are the digests of the filter and of a token, the text of a uuid, the verifier of
-- passwords, the drawn tokens, the role constraints and the length of a session of the
-- configuration, the answer of the rate limiter, the key of a snapshot in the local cache, and the
-- reason for which the bus will never take a message. Not modelled: the SQL and the HTTP layers,
-- logs and metrics, the lease of the relay's leader and its loop, the bus, the other ways to sign in
-- (second factor, passkeys, OAuth, codes), recovery, registration and the administration of
-- accounts, the texts of content and comments, and the modules for files, the feed, columns,
-- projects and exams.
pub mod Prelude
pub mod Points
pub mod Outbox
pub mod Cache
pub mod Rbac
pub mod Events
pub mod Qa
pub mod Auth
pub mod Content
