-- ===== src/Lib.antt =====
-- Tradinghub, the backend of a multi-user trading journal (backend/src/tradinghub): users sign in with
-- rotating refresh tokens, keep accounts, and record income, expenses and transfers.
--
-- A request comes in at a route. Its schema may refuse it. The route opens one database session
-- (core/database.py), calls a service, the service calls the statements of crud/, and the session
-- commits if nothing was raised. Login and registration count their attempt in Redis first, which is
-- no part of the transaction. The middleware logs every request, and turns what no handler answers
-- into a 500. The tables themselves are what the migrations of backend/alembic make. The files:
--   Base, Base/*                  tests, lists, integers
--   Sql, Sql/*                    what the statements mean: filters, joins, groups, sums, updates
--   Core/Errors                   core/errors.py, auth/errors.py, ledger/errors.py
--   Core/Database                 core/database.py: tables, sessions, get_db, get_snapshot_db
--   Sql/Schema                    the statements that define tables, and what they are made of
--   Core/Config                   core/config.py
--   Core/Logging, Core/LogLines, Core/LogLines/Fields   core/logging.py, which lines it writes, and what is in them
--   Core/Schemas, Core/Amounts, Core/Amounts/Digits   _exact_string of core/schemas.py, and its digits
--   Core/Rendering, Core/Middleware  the handlers of core/errors.py, core/middleware.py
--   Core/Answers, Core/Failures   failures and their codes, the trace of a request, foreseen failures
--   Auth/Models, Auth/Schemas     auth/models, auth/schemas
--   Auth/Security/*               auth/security: passwords.py, tokens.py, rate_limit.py
--   Auth/Crud/*, Auth/Services    auth/crud, auth/services/auth.py
--   Auth/Routes                   auth/routes.py, auth/dependencies.py
--   Auth/Families, Auth/Families/*   consistent users and sessions, rotation, replay, logout, login
--   Auth/Families/Opening         the first session of a family
--   Auth/Families/Enrolment, Auth/Families/Lasting   signing in after a registration, chains of refreshes
--   Auth/Failures                 what a request to auth can fail with
--   Auth/Limits, Auth/Limits/Window  the limits on attempts, and the attempts of one window
--   Auth/Caller                   whom an access token stands for
--   Auth/Cookies                  the cookies of signing in and out
--   Ledger/Models, Ledger/Schemas ledger/models, ledger/schemas, RowId and UtcDatetime of core/schemas.py
--   Ledger/Crud/*                 ledger/crud: accounts.py, transactions.py, summary.py
--   Ledger/Services/*             ledger/services: accounts.py, transactions.py, transfers.py
--   Ledger/Routes                 ledger/routes.py
--   Ledger/Balances               the balances of accounts
--   Ledger/Pages, Ledger/Pages/Wanted  pages of transactions, and what they are asked for
--   Ledger/Booking, Ledger/Conserving, Ledger/Conserving/Sums   what a transfer does to the balances and to the summary
--   Ledger/Undoing                a transfer that is deleted again
--   Ledger/Deleting, Ledger/Editing   what a deletion removes, and what an update makes of a transaction
--   Ledger/Updating               what an update makes of an account
--   Ledger/Failures               what a request to the ledger can fail with
--   Ledger/Summary, Ledger/Summary/*      the figures of the summary, one beside the other
--   Ledger/Transfers, Ledger/Transfers/*    which error stands in the way of a transfer
--   Ledger/Consistent, Ledger/Consistent/*  consistent ledgers, one request, histories of requests
--   System                        auth and ledger requests in one sequence
--   Migrations, Migrations/*      backend/alembic/versions: the revisions, the tables that the models
--                                 declare under NAMING_CONVENTION, and the chain of the revisions
--   App, App/*                    main.py: the routers, the handlers and the middleware put together;
--                                 whom a request acts as, what it leaves alone, sequences of requests
--   */Tests                       runs on concrete databases
-- A definition has the name of the function that it models, with the leading underscore left out.
--
-- How the code is represented:
--   * An AsyncSession is the record Work: what is committed, the tables as the transaction sees them,
--     and the sequences of the primary keys, which no rollback winds back. A coroutine is an Action: it
--     answers a value or an exception, and leaves a Work. An exception leaves what was written before.
--   * A table is the list of its rows. A SELECT without ORDER BY has them in the order of the list, and
--     one with it leaves rows that tie in that order. What the database does not promise is a list in
--     another order: the theorem on pages takes the rows anew for each page, in any order.
--   * The ids come from sequences without end: that an INTEGER column ends at 2 ** 31 - 1 is in the
--     bounds of what a request may ask for, and not in the inserts.
--     A unique constraint or a foreign key that refuses a row raises IntegrityError at the flush.
--   * Transactions run one after another: the row locks and the isolation levels are not modelled.
--   * An amount NUMERIC(36, 18) is the integer that counts units of the eighteenth decimal place. An
--     instant is the number of microseconds since 1900, from where on the schemas accept it, and Redis
--     has a clock in seconds. A UUID is a number.
--   * created_at and updated_at are left out, since no code reads them. A row that is not flushed has
--     id 0. A dict of rows by id is the list of the rows.
--   * What pydantic does to texts (strip, case, length, pattern) in the ledger's schemas is left out:
--     a body holds the texts as they come out of it.
--   * Parameters: the case folding and the collation of the database, str.casefold, argon2, PyJWT,
--     SHA-256, EmailStr, Redis, and for each request the clock, the uuid4 and the random token.
--     IsRedis and IsTimed are what the theorems take of Redis, IsJwt of PyJWT, which cuts the
--     dates in a token off to whole seconds, IsHasher of argon2. The
--     rounding of a context of decimal that is too narrow for a number is a parameter, too.
--   * Of the framework's HTTPException there are those that core/errors.py names: an unreadable body, an
--     unknown path, a wrong method.
--   * The text of an amount is the list of its symbols. The name of a logger is the list of its parts,
--     the last part first.
--   * The functions of the code are structural. The digits of a number n are taken off with fuel n + 1,
--     which digits_from never uses up. Migrations are run six times, once for each revision.
--
-- Not modelled: the start and the end of the process and the CORS headers in main.py, core/redis.py and
-- alembic/env.py, which only call libraries; the parsing of instants in core/schemas.py; durations in
-- the access log; the frontend; the tests.
pub mod Base
pub mod Sql
pub mod Core
pub mod Auth
pub mod Ledger
pub mod Migrations
pub mod System
pub mod App
