-- ===== src/Lib.antt =====
-- A verification library for global-erp, a multi-tenant ERP of TypeScript services.
--
-- The program: each service under apps/ keeps the documents of a company in its own database and
-- writes an outbox beside them, from which packages/events publishes events; the API gateway and
-- packages/auth check a token that carries the caller's access entries; packages/contracts holds
-- the matching of permissions that every service uses; packages/metadata holds the configurable
-- parts (formulas, rules, taxes, numbering). This library covers eleven of these parts.
--
-- Common: strings as lists of UTF-16 code units, tests on native numbers, lists, and `Action`, an
-- asynchronous method as a function from the state to a result and the state. The state comes back
-- after a throw too; `transaction` writes all or nothing.
--
-- Contracts: packages/contracts/src/permissions.ts (`permissionMatches`) and auth.ts
-- (`hasPermission`, `scopePathsFor`, `isPathInScope`) are `permission_matches`, `has_permission`,
-- `scope_paths_for` and `is_path_in_scope`. Contracts/Split is about `split('.')`, Matching about
-- the segments, Scopes about the access entries of a token.
--
-- Org: apps/org-service/src/org.service.ts over the documents of org-unit.model.ts. The state is
-- the list of the units and the outbox. Org/Units has the data and the helpers, Org/Handlers one
-- function per method: `load`, `get`, `create`, `update`, `move`, `deactivate`, `bootstrap`,
-- `undo_bootstrap`. Org/Tree says what an organization tree is, Paths, Move and Edits have the
-- lemmas, Invariant is about one call, History about sequences of them, Authority about the
-- rights. `object_id` is the driver's reading of a text as an id, which `isValid` and the cast of
-- `findById` share: an id in capitals finds its unit, while `exists({ parentId })` and the new
-- paths take the text as it was written. It is a parameter, and so are the check of custom fields
-- and the status of a user, which belong to other services. A method is one step: nothing is
-- interleaved with it. The unique index on the path is not written out, since the paths of a tree
-- are distinct. Depths are subtracted as natural numbers, which is exact in a tree, where a moved
-- unit is at least as deep as the unit moved.
--
-- Otp: apps/identity-service/src/otp.service.ts over `OtpChallenge` of models.ts. Otp/Challenges
-- has the documents and `maskTarget`, Otp/Service `checkRate`, `issue`, `byToken` and `latestFor`,
-- Otp/Checking `consume`. Times are milliseconds. The clock is read twice where the source reads
-- it twice. The id, the number and the secret of a new code are arguments; the digest and the HMAC
-- of node:crypto are parameters. `issue` is the check of the rate, `check_rate`, and the
-- transaction, `write_issue`; as one step it has no other request in between, which Otp/Traffic
-- assumes of the calls that it puts in sequence. `consume` is two writes, `try_code` and
-- `use_code`, and Otp/Guesses lets every other request write between them. Challenges that the
-- index on `createdAt` removes are a step of their own there. Sorting by time keeps one of the
-- orders that the database may give where times are equal.
--
-- Audit: apps/audit-service/src/chain.ts and audit.service.ts. Audit/Json has `canonicalJson`,
-- with the order of keys and the escapes of the language, and `redact`; Audit/Chain has `append`
-- and `verify`. A transaction of `append` takes the head that it read beside the state that it
-- writes to, so that Audit/Writers can let any transactions overlap; the unique indexes on the
-- position, on the event and on the head are the refusals of `append`. The digest and the decimal
-- form of a number are parameters. A number of a payload is carried as its text, a date as the
-- string that it becomes.
--
-- Access: apps/access-service/src/access.service.ts over models.ts. Access/Roles has the roles,
-- the assignments, `acl_for` (`aclFor`) and `create_assignment` (`createAssignment`), whose second
-- half is `assign`; Access/Acl is about the token's entries, Access/Escalation about what an
-- assignment gives away, Access/Removal has `remove_assignment` (`removeAssignment`). The answers
-- of org-service and identity-service are parameters, and the list of the tenant's permission keys
-- an argument; what a driver answers about names is a parameter too, and so is `object_id`, its
-- reading of the id of a role to change or delete, as in Org. Access/RoleEdits has the calls on
-- roles (`createRole`, `updateRole`, `deleteRole`), and `systemAssign` and `applyOrgMove`, which
-- other services call; Access/Setup has `ensurePackRole`, `bootstrap` and `undoBootstrap`, where
-- `insert_keyed_role` is the write that the unique indexes on name and key may refuse, and
-- Access/Holders the queries `rolesOf`, `allRoleHolders`, `roleHolders` and `listAssignments`.
-- Access/Integrity, Writes, Requests, Grants and SetupKeeps are lemmas for Access/References,
-- which is about sequences of all the calls, one at a time; Access/Moves puts `applyOrgMove`
-- beside the move of a unit, Access/Levels and Access/Nearest put `roleHolders` beside the
-- organization tree, Access/Listing `listAssignments` beside the permission check, and
-- Access/Again and Access/PackRoles are about calls that are made twice. `listRoles` and
-- `permissionCatalog`, which sort and show what is stored, are not modelled.
--
-- Formula: packages/metadata/src/formula.ts. Formula/Tokens has `tokenize`, Formula/Tree the tree
-- with the tables of operators and functions, Formula/Parser the methods of `Parser`, which take
-- the tokens that are left in place of the index `i`. `unary` and `name` of the model are `unary`
-- and the last part of `primary`. Formula/Steps and Formula/Words are lemmas on one call,
-- Formula/Ends is about the end of the parser, and Formula/Printer is a printer that
-- Formula/Leaves, Formula/Operands and Formula/RoundTrip compare the parser with. A literal keeps
-- its text, which `Number` reads. Formula/Values has the values and the functions one by one,
-- Formula/Eval `evaluate`, whose arguments are values or errors in place of calls that are made
-- when needed, Formula/Collect `collectFields` and `compileFormula`; Formula/Collected and
-- Formula/Depends compare the two. The numbers, dates, strings and unknown values of the language
-- are a parameter, `Language`. The parser calls itself without a smaller argument, so its calls
-- count down a fuel of six for each token; Formula/Ends shows that this is enough.
--
-- Events: packages/events/src/outbox.ts and consumer.ts, `subjectMatches` of bus.ts, and the names
-- of packages/contracts/src/events.ts that they use. Events/Outbox has the rows, `record_event`
-- (`record`) and the updates of `flush`, Events/Relay the loop of `flush`, Events/World
-- `handle_once` (`handleOnce`) and a world of one outbox, its relays, the bus and one inbox, where
-- every update is a step of its own. Events/Rows, Events/Cleared and Events/Flush are about the
-- relay, Events/Sound and Events/Delivery about what holds of every world, Events/Retry about
-- refusals and second deliveries. The ids of new events are ones that no event has, as randomUUID
-- gives them. The bus delivers what it was given any number of times; the stream's own limits are
-- left out, and with them the removal of markers after 45 days. Of rows with equal times the first
-- is claimed. A payload is carried as its text. The in-process bus for tests is not modelled.
--
-- Identifiers: the check digits of packages/metadata/src/identifiers.ts. Identifiers/Checks has
-- the four algorithms, with the loops that go from the right as recursions over the text, and
-- `check_identifier` (`checkIdentifier`), of which `trim`, `toUpperCase` and `RegExp` are
-- parameters. Identifiers/Finite tries all digits, Identifiers/Verhoeff and Identifiers/Luhn use
-- it, Identifiers/Typos is about `check_identifier`. `mergeCalendars` of that file stands with
-- Config.
--
-- Tenancy: packages/tenancy/src/plugin.ts and context.ts. Tenancy/Context has `RequestContext` and
-- `requireTenantId`, Tenancy/Plugin one function for each hook of `tenantPlugin` (`pre_query` for
-- the queries that filter, `pre_insert_many`, `pre_validate`, `pre_save`, `pre_bulk_write`),
-- Tenancy/Stages `checkStages` and the hook of `aggregate`, which Tenancy/Allowed is about.
-- Tenancy/Driver is the interface of the database and its driver, a record of operations and laws,
-- with the queries run over it: which documents match a filter, what an operator writes.
-- Tenancy/Effects runs the hooks and then the effect on one collection that tenants share,
-- Tenancy/Queries, Tenancy/Updates and Tenancy/Unseen carry the proof of Tenancy/Isolation. The
-- names of error places are those of the source, and the rest of a message is left out. The save
-- of a stored document is not modelled.
--
-- Config: packages/metadata/src/merge.ts and diff.ts, with `mergeTaxSetups` of tax.ts and
-- `mergeCalendars` of identifiers.ts. Config/Maps is the `Map` of the language by its values in
-- order, Config/Layers has `merge_layers` (`mergeLayers`) over layers whose keyed lists are a
-- function of their kind, Config/Overrides `layers_for` (`layersFor`) over the paths of Org,
-- Config/Archive `with_archived_leftovers` (`withArchivedLeftovers`). Config/Views says what a
-- layer says under each key, forgetting orders; Config/Entities, Config/Taxes and Config/Calendars
-- carry the proof of Config/Replay, and Config/Effective joins it to the organization tree.
-- Config/Leftovers, Config/Retired and Config/Rollback are about the rollback. The rest of a field
-- or an item, which nothing here reads, is one text. `packLayers` of packs.ts is an argument, and
-- so is the order of `localeCompare`.
--
-- Jobs: apps/workflow-service/src/jobs.ts and scheduler.ts, with the jobs of models.ts. Jobs/Store
-- has the methods of `JobStore`, each one step, Jobs/Scheduler `execute` and `run_due` (`runDue`),
-- whose loop has the 500 rounds of the source. The handlers, methods of workflow.service.ts and
-- automation.service.ts, which are not modelled, are parameters that may change the jobs and
-- throw, and so are the readings of the clock and the ids of new jobs. Jobs/Lease lets the calls
-- of any workers come in any order after a claim; Jobs/Pass, Jobs/Settling and Jobs/Drained follow
-- a pass. The timer that starts a pass is not modelled.
--
-- No other recursion needs fuel: every other loop runs over a list or a text.
--
-- Not modelled: the queries that page and filter without changing anything, the web client, the
-- gateway's proxying, storage, mail and push delivery, the services for users and records,
-- workflows, documents, reports, configuration and packs, and of packages/metadata all but the
-- formulas, the check digits and the layers of configuration.
pub mod Common
pub mod Contracts
pub mod Access
pub mod Audit
pub mod Config
pub mod Events
pub mod Formula
pub mod Identifiers
pub mod Jobs
pub mod Org
pub mod Otp
pub mod Tenancy
