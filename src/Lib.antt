-- ===== src/Lib.antt =====
-- KavachID, a multi-tenant identity service (NestJS, Prisma): its services and guards, the SDK for
-- browsers and the Kubernetes operator, translated from TypeScript. Paths are from the root of the
-- repository.
--
-- The parts and how they interact. A request runs under a tenant (Tenant, src/modules/tenant/: the
-- middleware, the context, the guard). The bearer guard and the permissions guard (Auth,
-- src/modules/auth/) let it through to the services: sessions (Session,
-- src/modules/session/session.service.ts: login, refresh, consent, revocation; their routes,
-- Session.Controller, src/modules/session/session.controller.ts), passkeys (Webauthn,
-- src/modules/session/webauthn.service.ts and webauthn.controller.ts), users (User,
-- src/modules/user/user.service.ts; User.Routes, user.controller.ts there), roles (Role,
-- src/modules/role/role.service.ts; the handlers behind their guards, Role.Routes, src/modules/role/role.controller.ts), the lists of an administrator
-- (Admin, src/modules/admin/admin.service.ts) and the shield engine (Kse,
-- src/modules/kse/). Sessions sign access tokens by the active key of the key pairs (KeyPair,
-- src/modules/keypair/keypair.service.ts; KeyPair.Routes, keypair.controller.ts there), through the
-- crypto service (Crypto,
-- src/modules/crypto/crypto.service.ts). The services write events to the outbox (Outbox,
-- src/modules/outbox/outbox.service.ts), which polls and delivers them (Outbox.Polling), and rows of
-- the audit log (Audit, src/modules/audit-log/audit-log.service.ts); after an audited handler the
-- interceptor writes one (Audit.Interceptor, src/modules/audit-log/audit-log.interceptor.ts). A worker
-- locks users under attack (Threat, src/modules/threat-detection/threat-detection.worker.ts), and calls
-- are counted by the storage of the throttler (Throttle,
-- src/modules/database/prisma-throttler.storage.ts). Users of an outside provider come in by
-- Federation (src/modules/federation/federation.service.ts; the URLs and handlers, Federation.Routes,
-- src/modules/federation/federation.controller.ts).
--
-- On the other side of the network stands the SDK (WebSdk, sdks/kavach-web/src/): the stores of tokens
-- (WebSdk.Storage, storage.ts), keys and proofs (WebSdk.Dpop, dpop.ts; WebSdk.Pkce, pkce.ts), the
-- client (WebSdk.Client, index.ts), and the middleware of an application in front of the shield engine
-- (WebSdk.Shield, kse.ts and express.ts). Theorems on WebSdk.Dpop and WebSdk.Shield put the SDK and the
-- server together. KavachExpress is the middleware of a resource server that checks tokens by the
-- published keys (samples/kavach-express/src/index.ts). The operator (Operator,
-- kubernetes/operator/src/operator.ts) provisions tenants.
--
-- State. All services of the server share one database, so their state is one record, `Db` (Schema, after
-- prisma/schema.prisma): a table per model, the clock, and the number of random values drawn. An
-- operation is a function `Db -> Result A x Db` (`Exec`, Base.Outcome): what was written before a
-- throw stays written. TypeScript names keep their words: `revokeAllUserSessions` is
-- `revoke_all_user_sessions`.
--
-- The SDK has a state of its own, `Browser` (WebSdk.Platform): the storage, the keys, the clock, and
-- the calls of `fetch` made so far; and so has the operator, `World`, with a step relation for the
-- events that its watch delivers.
--
-- What is outside of the repository is a parameter. `Client` (Prisma) is the database client: its
-- queries and writes, with laws that say what `count` answers after each write, and that a query
-- returns matching rows in order; Prisma.InMemory meets them with lists. `Externals` (Crypto) holds
-- the calls of Node's crypto, argon2 and jose, `WebauthnServer` those of @simplewebauthn/server,
-- `WebCrypto` those of the browser, without any law: where a theorem needs one, such as that argon2
-- verifies its own hashes, it is a named hypothesis. The webhook of the outbox is a function from the
-- event to success or an error; the network of the SDK (`Network`) is a function from the calls so far,
-- and that of the operator (`Outside`) from their number. A token store is a record of operations and
-- laws (`StorageProvider`), which the client takes and both stores fill.
--
-- Bounds and simplifications. Times are milliseconds and scores are natural numbers; a difference of
-- two times stops at zero where the source's would be negative, which the tests on it read alike. One
-- instant stands for all readings of the clock in one call, and calls do not interleave, but for the
-- flag of the poller. Unique keys and the optional reference to an app client are checked on a
-- write, and so is the key to the tenant of roles, permissions, login attempts and rows of the audit
-- log (Prisma.Constraints), and the UUID of an actor (Audit). On the writes of the other tables the
-- tenant is taken to exist, and ids that requests name to be UUIDs; their other keys refer to rows that
-- the operation has just read. A query of a page may order rows differently from another where these
-- tie (`arranged` of `Client`). Recursion is structural, so there is no fuel but in `decimal`, whose
-- n + 1 steps are enough for the digits of n.
--
-- Objects of JSON are lists of members, without those that are undefined; a value of `any` that is
-- only passed on stands as its text. The methods of HTTP are taken to be ASCII, as `toUpperCase` and
-- the lengths of texts are written by code points.
--
-- Not modelled: the controller of the lists of an administrator and the modules of NestJS, the logger,
-- timers and the worker thread of argon2, the SDKs in other languages, the console and the other
-- samples: glue, user interfaces, demonstration programs, or code whose theorems are still to come.
--
-- Helpers are in Base, the laws of the tables in Prisma.Laws, runs at concrete inputs in Tests.
pub mod Base
pub mod Prisma
pub mod Schema
pub mod Crypto
pub mod Tenant
pub mod Outbox
pub mod Audit
pub mod KeyPair
pub mod Session
pub mod Kse
pub mod Role
pub mod Auth
pub mod Throttle
pub mod User
pub mod Threat
pub mod Federation
pub mod Webauthn
pub mod Admin
pub mod Operator
pub mod WebSdk
pub mod KavachExpress
pub mod Tests
