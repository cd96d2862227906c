-- ===== src/Lib.antt =====
-- AssetHub: an asset register for several tenants (apps/api/src of the repository). A NestJS API keeps
-- tenants, their organization, users, assets and licenses in MongoDB through Mongoose, and the older
-- parts in PostgreSQL through Prisma; Redis holds the single-use values of single sign-on, and a
-- worker runs once a day.
--
-- How a service is modelled. A handler is an `Action`: a function from the state to a result and the
-- state after it, so that what was written before a throw stays written (Prelude/Action.antt); a
-- database transaction is `atomically`, which rolls back. A collection is a list of documents, with
-- the queries and updates of the database as functions on lists (Prelude/Collection.antt). Ids are
-- numbers, since they are only compared; times are milliseconds. The ids, times and random values
-- that a handler gets from outside are arguments. Text that a service takes apart is the list of its
-- code points (Prelude/Text.antt), messages and constant keys are strings.
--
-- The files, and the code that each is about:
--   Models, Models/*, Database   apps/api/src/models/*.ts, and the writes of MongooseDatabaseService
--   Access/Scope, Access/Guards  common/guards/*.ts, common/tenant-scoped.repository.ts
--   Transfer/*                   modules/assets/asset-transfer.service.ts: Destination
--                                (validateDestination), Workflow (request, list, get), Decisions
--                                (approve, reject, cancel), Completion (complete), Calls (any
--                                sequence of these); the other files are proofs
--   Auth/*                       modules/auth/*.service.ts: Store (the tables and libraries), Sessions,
--                                Login, Provisioning; the other files are proofs
--   Identity/*                   modules/identity: Cache, Providers (OIDC and SAML), Sso, and the
--                                proofs in Replay; CacheMap is the map that the cache is to be like,
--                                and Refinement the proof
--   Organization/*               modules/tenancy/organization-management.service.ts
--   Users/*                      modules/users/users.service.ts
--   Billing/*                    modules/billing: Subscriptions, Overrides, and proofs
--   Audit/*                      modules/audit/audit.service.ts, common/audit/audit.interceptor.ts
--                                (Interceptor), and proofs
--   System/*                     modules/system/system-admin.service.ts: Tenants, PlatformRoles, Quota,
--                                Usage, and proofs
--   Tenancy/*                    modules/tenancy/tenancy.service.ts (Creation), modules/rbac/
--                                rbac.service.ts (Roles) on the tables of prisma/schema.prisma
--                                (Directory), and proofs
--   Mail/*                       common/mail/mail.service.ts
--   Assets/*                     modules/assets/assets.service.ts (Registry), asset-search.service.ts
--                                (Search), asset-timeline.service.ts (Timeline), and proofs
--   Csrf                         common/security/csrf.middleware.ts
--   Worker/*                     queue/worker.main.ts
--   Api/*                        modules/*/*.controller.ts: routes, guards and checked bodies, and the
--                                server that they make over the services (Server)
--   Tests/*                      concrete runs of the theorems
--
-- The parts meet in the state: the transfer, organization, user, license and worker services share
-- `Db`, as does the administration of the platform; authentication and single sign-on share
-- `Auth.Store.Store`; the asset register, the directory of organizations and roles, the audit log and
-- the mail have states of their own. The guards turn the access token
-- that `Auth.Sessions.issue_session` signs into the `AuthContext` that the services take. `Api` puts
-- guards, checks of the body and services in a row; its `World` has `Db`, the directory and the register.
--
-- Loops are structural. The one use of fuel is `decimal`, the digits of a number, which gets one more
-- than the number itself as fuel; Prelude/Decimal.antt proves that this is enough for all digits.
--
-- What is not in the repository is a parameter: argon2, SHA-256 and JWT (`Crypto`), openid-client and
-- node-saml (`IdpLibraries`), the rules of `assertLifecycleTransition`, the sending of mail, the purge
-- of audit events, `recordChange`, `EntitlementService.getNumber`, and what the run time gives:
-- `JSON.stringify`, `new URL`, `new Date`, `toLocaleString` and the rounding of a quotient of doubles.
--
-- Not modelled: the controllers of sessions, single sign-on and acknowledgements (cookies, redirects,
-- services that are not here), document storage, the integrations, the bootstrap, seeds and tests, and
-- the web application; reads that only reshape what they find, and the texts of a timeline entry. A
-- unique index is a check in the write that can meet it. Of the writes, those of the events of
-- transfers can be refused by the database (`refuses_events`); the failure of other writes, by a lost
-- connection for instance, is not modelled. Two handlers are served one after the other; where the code
-- leaves a gap between a read and a write that depends on it, the two are functions of their own, so
-- that an interleaving can be stated.
pub mod Prelude
pub mod Models
pub mod Database
pub mod Access
pub mod Transfer
pub mod Auth
pub mod Identity
pub mod Worker
pub mod Organization
pub mod Users
pub mod Billing
pub mod Audit
pub mod Csrf
pub mod Assets
pub mod System
pub mod Tenancy
pub mod Mail
pub mod Api
pub mod Tests
