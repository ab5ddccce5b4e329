-- ===== src/Lib.antt =====
-- The API of Canterlot, book clubs on FastAPI and MongoDB: the core of its services, with the
-- repositories under them.
--
-- The program. A service (canterlot/services) checks who calls and in which state the data is,
-- and asks repositories (canterlot/repositories/beanie) to read and write documents
-- (canterlot/models) by Beanie, the driver of MongoDB; canterlot/hoodie puts a transaction around a
-- repository's method; a use case (canterlot/use_cases) puts services together. Paths are below the
-- folder src of the repository.
--
-- The model. `Database` (Models.antt) is the record of the collections, each the list of its
-- documents. A handler is an `Action` (Effects.antt): a function of the database into a result, which
-- is a value or an `Error`, and the database after it, so that what was written before a raise
-- stays written unless a transaction undoes it. `Outcome` says of a call exactly when it returns,
-- what holds then, and that otherwise the database is as it was.
--
-- The driver is no part of the repository. It is the parameter `m : Mongo` (Mongo.antt), and
-- `IsMongo m` says what its manual says of each call, by plain functions on lists; a unique index is
-- the test of `insert`, `upsert` and `update_unique` that raises DuplicateKeyError, and
-- `with_transaction` commits or aborts; that it may run a callback again is left out. Further parameters
-- are the clock (`now`), the identifiers that the driver and shortuuid draw, slugify, the digest of a
-- code, bcrypt and PyJWT (`Crypto` of Utils/Security, with the salt as an argument; bcrypt raises for
-- more than 72 bytes), pydantic's validation of what a provider of OAuth tells (`Validators` of
-- Services/Auth/Providers), the providers themselves, the cache of preferences, and for the draw of a
-- round the weights, which are floats in the source, the random choices among them and the calendar's
-- months. Identifiers and moments are native numbers; a moment counts microseconds, where MongoDB
-- keeps milliseconds of what is stored. Logging is left out.
--
-- The server removes expired invites and verification codes by TTL indexes, some time after they
-- expire. `expired_removed` of Repositories/Invites and of Repositories/Codes is that removal, up to
-- some time; the theorems on an invite that is used up and on the life of a code take it into account,
-- the others say what one call does with what is stored when it runs. Of a document's validation,
-- what the routers' validation of a request has not ensured is modelled: an empty slug, and an
-- account or a link made from what a provider tells.
--
-- Where what is:
--   Base, Base/Texts, Mongo/Count
--                             shared tests, lists and lemmas; counting the documents of a collection
--   Types, Models, Effects    canterlot/types.py, models/, exceptions/
--   Hoodie/Transactions       hoodie/transactions.py
--   Repositories/Memberships  repositories/beanie/club_membership.py; below it the roster as a
--                             function of club and user (Roster), the queries and writes in its
--                             terms (Queries, Writes, Handover), and the invariant (Sound)
--   Repositories/Clubs, Invites, Codes, Catalog
--                             club.py, invite.py, verification.py and catalog.py beside it
--   Repositories/AllOrNothing three of their methods under `@transactional`
--   Repositories/Users        user.py beside it: refresh tokens and passwords (Sessions), profiles
--                             (Profiles), linked providers (Providers); the collection as a table
--                             from the ids (Accounts)
--   Repositories/Rounds       round.py, round_completion.py and the write of read_book.py beside it;
--                             the writes as moves of one round, and the invariant (Moves)
--   Services/Auth             services/auth.py: operations in Sessions, Passwords and Providers;
--                             sessions as a ledger of tokens (Ledger), and theorems in Rotation,
--                             Replay, Renewal, Ways and Linking
--   Services/User             services/user.py; the cached preferences in Preferences
--   Services/Club             services/club.py: operations in Roles, Creation, Admission, Views,
--                             Moderation, Ownership and Customizing; the rules as tables in Rules; a
--                             file of theorems for each operation; every run in Reach
--   Services/Catalog          removing a book, of services/catalog.py
--   Services/Invite, Services/Verification
--                             services/invite.py, services/verification.py
--   Services/Round            services/round.py: the vote and the completions, the start and the
--                             draw (Start), the pool that weights are computed for (Weights); each
--                             operation as a step (Steps), every run (Reach), the last reader
--                             (Everyone)
--   Emails/Policy, Services/Dispatch
--                             emails/core/policy.py, services/dispatch.py
--   UseCases/AcceptInvite     use_cases/accept_invite.py
--   Utils/Security, Utils/Slugs
--                             utils/security.py, utils/slugs.py
--   Pagination                pagination.py
--   Tests                     a small database, and the theorems at it
--
-- Two invariants. `IsSound`: a club and a user have one membership at most, the ids of clubs are
-- unique, and each stored club has exactly one membership with the status OWNER. `RoundsSound`: the
-- ids of rounds are unique, a club has at most one round that is not over, and a decided round has its
-- book.
--
-- Bounds. The loop of make_slug runs on a list of suffixes, the texts that shortuuid gives in turn;
-- it ends when the suffixes are distinct and more than the texts that are taken (Utils/Slugs/Ends).
-- No other definition has fuel.
--
-- Not modelled: the search of clubs, suggestions, books and the scores of their links, the arithmetic of the weights in floating point, the pages of read books and of the catalog,
-- rate limits, suppressions by webhook, the text of unsubscribe and action links, the gateways, the
-- routers, the worker and the configuration, and of hoodie the entities, queries and synchronisation.
-- Two calls that overlap are not modelled either: a handler runs to its end, though with a club that
-- may have been loaded before other calls.
pub mod Base
pub mod Mongo
pub mod Types
pub mod Models
pub mod Effects
pub mod Emails
pub mod Hoodie
pub mod Repositories
pub mod Utils
pub mod Services
pub mod UseCases
pub mod Tests
pub mod Pagination
