-- ===== src/Lib.antt =====
-- The backend of the CH-TECH landing page: a FastAPI program that serves a public site and its
-- administration over a MySQL database, with Redis for rate limits. This library models its
-- domain, its use cases and its repositories, and proves what they promise.
--
-- Each call of a use case is a function on a `World` (App): the tables, Redis, and how often the
-- clock and the random generators were read. It returns a value or an exception, and the world
-- after it; what was committed before an exception stays. One call is one step: calls of different
-- requests are sequences of steps, in the order in which their transactions commit.
--
-- What the program only calls is the record `Env` (App/Outside): the clock, `uuid4`, `secrets`,
-- `hashlib`, `bcrypt`, PyJWT, the Unicode tables of CPython, and MySQL read through SQLAlchemy.
-- `SqlLaws` states the documented behaviour of the database that theorems assume: what
-- `scalar_one_or_none` returns, that a page is a slice of a sorted permutation of the rows, that
-- tables are taken only if they meet the constraints that app/models declares, and that the
-- collation compares texts by an equivalence. Tables that are refused raise what the driver reports:
-- IntegrityError for a key, which the repositories catch, and another DatabaseError for a text that
-- is too long for its column or for a CHECK, which they do not. Tests/Memory implements all of it by lists and proves
-- the laws.
--
-- Files, and the code that they are about:
--   Base, Text, Errors: shared lists, numbers and texts; `strip`, `lower` and regular expressions;
--     the exceptions of app/core/errors.py and of the libraries.
--   Domain: app/domain. ValueObjects has the validating constructors, Enums the enumerations,
--     Entities one record for each entity.
--   Models: app/models, one record for each table; Models/Constraints has the keys, unique
--     columns, foreign keys and CHECKs of all tables.
--   App: the monad; App/Outside the environment; App/Keeps and App/Tables rules for what a call
--     preserves; App/Returns what a call that returned has done;
--     App/Rows and App/Pages what a query by key and a query for a page return.
--   Auth: Tokens (app/domain/refresh_token.py and its repository), Users (app/domain/user.py and
--     its repository), Security (app/core/security.py, app/api/deps.py), UseCases
--     (app/application/use_cases/auth.py), Rotation, Logins and Purges (proofs).
--   Content: Technologies, Projects, Articles, Clients, Partners, Testimonials, CaseStudies, Services,
--     ServiceLines, Products, TeamMembers, Company and Contact, each with the repository of
--     app/infrastructure/repositories and the use cases of app/application/use_cases of that name.
--     Content/Tables/Clients and Auth/Tables say what calls do to the tables, by App/Tables.
--     Projects/Reading and Projects/Changes are about what a write leaves.
--     Content/Clients/Store has the map that the repository of the clients implements.
--   Api: the routers of app/api/v1 and the schemas of app/schemas, a file for each router: payloads
--     with their validators (`valid`), items, and handlers with their guards. Http has the guards,
--     Requests (app/api/v1/__init__.py, app/api/health.py) all requests as one type, Responses
--     (app/api/exception_handlers.py) what a client sees of an exception, Contact also the mail of
--     app/core/email.py. Access, Payloads and RoundTrip are proofs.
--   Seed (app/db/seed.py, app/db/purge_refresh_tokens.py): the two scripts.
--   RateLimit (app/core/rate_limit.py): the counter in Redis, whose commands `RedisLaws` describes.
--   Tests: the environment in memory, and the theorems applied to concrete data.
--
-- FastAPI runs the dependencies of a route before it looks at the errors of the body: in a handler
-- the rate limit comes first, then the session, then the validation, then the use case. A payload
-- has the types of its schema; `EmailStr`, the parsing of JSON and of paths, and the matching of
-- routes are FastAPI's and Pydantic's.
--
-- A field of a record carries the name of the attribute that it stands for. Where a method tests
-- whether a row was found, the rest of the method is a function of its own (`change_project`,
-- `drop_project`, `revoke_found`, ...). An update that queries for technologies sends its pending
-- changes before the query (`autoflush`), as the session does by default.
--
-- Numbers are natural numbers without a bound, since Python's integers have none; times are
-- microseconds, and `later` and `earlier` raise outside the range of `datetime`. All loops are over
-- lists, so there is no fuel.
--
-- Not modelled: the matching of routes, the success envelope around a response, middleware,
-- reading the settings from the environment, logging, the conversions of app/db/types.py, and the
-- migrations, which are instructions to Alembic. Tables are read and written whole: waiting for
-- locks and isolation levels are MySQL's.
pub mod Base
pub mod Text
pub mod Errors
pub mod Domain
pub mod Models
pub mod App
pub mod Auth
pub mod Content
pub mod RateLimit
pub mod Api
pub mod Seed
mod Tests
