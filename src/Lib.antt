-- ===== src/Lib.antt =====
-- A model of the Towerdesk backend, the server of a property management application: an
-- organisation has buildings with units, residents live in the units and open maintenance
-- requests, and managers and staff of a building handle them.
--
-- The parts and how they interact. A route's guards (src/common/guards) read the caller, who is
-- signed in with an organisation, and ask for permissions (src/modules/access-control) and for
-- the caller's assignment in the building (src/common/building-access). The services then
-- check the organisation scope again, read and write the database, and emit domain events. The
-- listener of the notifications (src/modules/notifications) finds whom an event concerns, stores a
-- row for each and publishes it to the sockets. Who the caller is, the tokens of src/modules/auth
-- say.
--
-- The files:
--   Common        tests with Booleans, `Eq`, list methods, sets, tables with keys, sorting.
--   Store         prisma/schema.prisma as records of rows (Rows), the tables and the trace of
--                 emitted events as the record `Db` (Schema), and service methods as actions on it
--                 that return or throw (Monad). `transaction` is Prisma's `$transaction`.
--   Access        src/modules/access-control: Repo is access-control.repo.ts; Service has
--                 `effective_permissions` for getUserEffectivePermissions, `assign_roles`,
--                 `set_role_permissions`, `set_permission_overrides` and `create`.
--   Scope         src/common: User is types/request-context.ts and utils/org-scope.ts, Buildings
--                 is building-access/building-access.service.ts, Guards is guards/*.guard.ts. The
--                 metadata that the decorators put on a route is the record `RouteMetadata`.
--   Maintenance   src/modules/maintenance-requests: Rules has the constants and the normalisers,
--                 Repo the queries of maintenance-requests.repo.ts, Resident and Staff one
--                 function per method of maintenance-requests.service.ts, Calls the sequences of
--                 calls. Evolution has the life cycle as a step relation.
--   Org           Directory has the shared queries of buildings, units and users; Occupancies,
--                 Residents, Residency and Assignments the services of src/modules/occupancies,
--                 residents and building-assignments; Provision
--                 src/modules/users/org-users-provision.service.ts.
--   Notifications src/modules/notifications: Repo is notifications.repo.ts, Service has
--                 notifications.service.ts and notifications-realtime.service.ts, Recipients
--                 notification-recipient.resolver.ts, Listener notifications.listener.ts, Gateway
--                 notifications.gateway.ts, in steps between its awaits.
--   Routes        the controllers of src/modules: Pipeline runs the guards of a route in order and
--                 then its handler, Buildings has the controllers below a building, Accounts those
--                 of users and roles, Organisation those of the organisation and of the caller,
--                 Portfolio that of the buildings, Platform that of the platform, Sessions that of
--                 src/modules/auth. Signed puts the strategy of src/modules/auth/strategies in
--                 front.
--   Metrics       src/infra/metrics/request-metrics.service.ts.
--   Auth          src/modules/auth and src/common/guards/platform-auth.guard.ts: Service is
--                 auth.service.ts and auth.repo.ts, Validation auth-validation.service.ts and the
--                 two guards, Strategy strategies/jwt.strategy.ts.
--   Estate        Records and Units are src/modules/units, Catalogue the services and
--                 repositories of src/modules/building-amenities, unit-types and owners.
--                 Buildings is src/modules/buildings.
--   Accounts      Members and Profile are src/modules/users/users.service.ts, Platform has
--                 src/modules/platform/platform-orgs.service.ts and
--                 src/modules/org-profile/org-profile.service.ts.
--   Tests         a small organisation, and runs on it.
--
-- The choices. Functions keep the names of the methods, in snake case. A UUID or an email address
-- is a number, 0 for the empty string, since the code only compares them and tests them for being
-- empty. Ids, times and temporary passwords are drawn by the database, the clock and the random
-- source: they are arguments. A table is a list in the order in which the database scans it, which
-- SQL leaves open; sorting is stable. Of the joined rows a request carries its unit and its
-- attachments. The text functions and argon2's hash are arguments (`TextOps`), and so are argon2
-- with its salts and JWT with the times of issue (`Crypto`), and base64, ISO dates and the text of
-- an id (`Codec`); `CryptoLaws` and `CodecLaws` say what is known of them. Ids are ordered as the
-- database orders them. The sockets are the trace `published` of what was sent to the room of a
-- user, which is empty until the server is set; the listener runs on an event of the trace of
-- events. Unique constraints and foreign keys throw where a modelled write can break them. Loops
-- run over lists. Only a client that follows the cursors of the listing of notifications runs on
-- fuel: one more than the rows that are listed is enough.
--
-- In the gateway a step reads the database of its moment. A metric's duration is a whole number of
-- nanoseconds, and the results of floating point are an argument (`Numbers`).
--
-- What is not modelled: services that run at the same time (each call runs alone), HTTP, the
-- validation of DTOs and the mapping of responses, logging, storage and queues, and the seed: they
-- are input and output, or the framework's. The listings of administrators, users, roles,
-- permissions and assignments, and the limits on the rate of calls, are left out too.
pub mod Access
pub mod Accounts
pub mod Auth
pub mod Common
pub mod Estate
pub mod Maintenance
pub mod Metrics
pub mod Notifications
pub mod Org
pub mod Routes
pub mod Scope
pub mod Store
mod Tests
