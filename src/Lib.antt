-- ===== src/Lib.antt =====
-- The Atlas multi-tenant SaaS platform: a model of its API (apps/api, libs/shared-kernel and
-- libs/event-contracts) and the theorems about it.
--
-- The program is a NestJS service. A request passes the middleware, which opens a tenant context,
-- and the guards; a controller hands it to the handler of a command or a query; the handler loads
-- aggregates through repositories over TypeORM, which check or add the active tenant, calls a method
-- of the aggregate, saves it and publishes events on the event bus. The bus calls the handlers
-- subscribed to a type and writes each event to the outbox, from which a processor forwards it to the
-- event backbone.
--
-- The files and what they model:
-- Base     strings as lists of UTF-16 code units, toLowerCase as a parameter, exceptions, the type of
--          a fallible result, calls on a state that may throw (Base/Actions), and doubles (Base/Doubles).
-- Regex    the regular expressions of the slug and the email, as a matcher of a row of classes.
-- Kernel   libs/shared-kernel: Tenancy (types/tenant.types.ts), Entity (domain), Pagination
--          (types/pagination.types.ts), Context (apps/api/src/common/tenant-context), Repository
--          (infrastructure/tenant-aware.repository.ts, and TypeORM's repository as a parameter).
-- TenantCore  apps/api/src/modules/tenant-core: Slug, Plan, Organization (the aggregate), its Mapper,
--          Repository, Commands (the handlers).
-- Identity apps/api/src/modules/identity: Email, User, UserRepository, Register, Authenticate.
-- Events   libs/event-contracts and apps/api/src/modules/platform-events: Envelope, Bus (the in-memory
--          bus), Forwarding, Message (the fields of an entry of a stream, written and read back), Streams
--          (the Redis Streams bus), Ingest (the client of the event backbone).
-- Outbox   apps/api/src/modules/outbox: Entry, Store (the repository), Processor.
-- Workflow apps/api/src/modules/workflow: Definition, Execution, Repositories (with Triggers, the search by
--          the event that triggers), Commands.
-- Audit    apps/api/src/modules/audit: Event (the entity and its row), Repository, Recording (the handler).
-- Dashboard  apps/api/src/modules/dashboard: Metrics and Series (the two queries), Percentage, Calendar (days in
--          UTC and their text).
-- Bootstrap  scripts/bootstrap-platform-admin.ts: Slugify, Provision (the configuration, both steps and run).
-- Http     apps/api/src/common: Rbac, Credentials (the guards for API keys and tokens), Errors,
--          TenantSource (where tenant and correlation ids come from).
-- Api      the controllers: Calls (the middleware and the guards before a method, and @TenantId()),
--          Organizations, Executions, Readings (audit and dashboard), Accounts (identity), Access (who may
--          do what).
-- Tests    concrete runs, and the theorems at concrete inputs.
--
-- How the code is read. A method of an aggregate is a function to the new aggregate, or to a result
-- that may be an exception; what new Date() and uuidv4() return are arguments, named by their purpose.
-- A handler is a function on the state that it works on, the tables and the bus, to its result and the
-- new state; what was written before a throw stays written. The tenant context is the optional value
-- that a piece of code runs under. A Result.fail is thrown by the controller at once and is a throw.
--
-- Parameters. TypeORM's Repository (Kernel.Repository.Repository, Outbox.Store.OutboxTable): a row that
-- is found fits the condition, a count is that of the rows that fit, an insertion adds its rows, a
-- page has at most as many rows as it asks for, a rejected statement changes nothing; counts grouped by
-- day, which are rejected when they name no column of the table (Dashboard.Series.DailyCounts). Redis
-- (Events.Streams.Redis), JSON (Events.Message.JsonCodec) and what a missing field reads as
-- (Events.Message.Undefined). toLowerCase (Base.CaseMapping), normalize('NFKD') (a function that nothing is assumed
-- of), the UTC calendar of an instant's day (Dashboard.Calendar.UtcCalendar), bcrypt
-- (Identity.User.Bcrypt), @nestjs/jwt (Identity.Authenticate.Jwt), fetch and the handlers of events. Each
-- has an instance in the tests or beside its declaration, a list for a table and ASCII for the case.
--
-- Bounds and fuel. Numbers are natural; a duration of two instants is an integer. The loops run over
-- lists. The digits of a number are written with as much fuel as the number plus one, which is more
-- than it has digits. A percentage is rounded as doubles are and is counted in tenths (Base.Doubles,
-- where the fuel of two hundred doublings is enough for the counts of rows, which are below 2 ^ 53).
-- Instants are milliseconds from 1970 on; the dashboard's windows reach back six days, and before the first
-- week they start at 0.
--
-- Not modelled: the validation decorators of the controllers' bodies and queries, which let through only what a
-- body's type says; dependency injection and configuration; the database's schema and its migration;
-- logging; the interval timers that call processBatch and consumePendingMessages and the hooks that
-- close connections.
pub mod Audit
pub mod Base
pub mod Regex
pub mod Kernel
pub mod TenantCore
pub mod Events
pub mod Http
pub mod Identity
pub mod Outbox
pub mod Dashboard
pub mod Bootstrap
pub mod Api
pub mod Workflow
pub mod Tests
