-- ===== src/Lib.antt =====
-- A model of the core of hill90's API service (services/api/src), with the theorems that make it
-- correct.
--
-- The service keeps agents running in containers, lets users talk to them, and runs workflows on a
-- schedule. The parts modelled here meet in three places: the database, which the reconciliation pass,
-- the scheduler and the routes share; the verified claims of a token, which the HTTP boundary, the role
-- gates and the terminal's handshake read; and the long-lived connections that carry what agents say.
--
-- Prelude holds the shared names: Prelude/Exec a state that code may leave by throwing (`Exec S A`, with
-- `ok` and `thrown`), Prelude/Text strings as lists of character codes, Prelude/Lists and Prelude/Tests
-- lemmas on lists and Boolean tests.
--
-- Stream: connections.
--   Stream/Relay         services/relay-backpressure.ts, `pumpWithBackpressure`: one direction of a terminal
--   Stream/SseWriter     services/sse-writer.ts, `createBoundedSseWriter`
--   Stream/PollSignal    services/sse-writer.ts, `createPollFailureSignal` and `failureThresholdFor`
--   Stream/BoundedRead   helpers/bounded-read.ts, `collectBounded`
--   Stream/Deadline      helpers/stream-deadline.ts, helpers/participation-watch.ts, and the heartbeat of
--                        routes/chat.ts that calls them
--   Stream/Terminal      services/terminal-proxy.ts, a session from `handleUpgrade` on
-- Access: who may do what.
--   Access/Roles         middleware/keycloak-config.ts (`rolesFrom`), middleware/role.ts, helpers/scope.ts,
--                        helpers/elevated-scope.ts (`isAdmin`)
--   Access/Auth          middleware/auth.ts (`createRequireAuth`), services/terminal-token.ts
--   Access/Page          helpers/page-params.ts
--   Access/Upgrade       services/terminal-proxy.ts, the 'upgrade' listener
-- Agent: what is recorded of agents.
--   Agent/Reconcile      services/docker.ts, `reconcileAgentStatuses`
--   Agent/Update         services/agent-reconciler.ts, the UPDATE of a patch
--   Agent/Verification   services/agent-status-verification.ts
--   Agent/World          the tables of a pass; Agent/Pass is services/agent-reconciler.ts,
--                        `runReconcilePass` with `closeSessionsForStoppedAgents` and
--                        `escalateUnrenewedTokens`
--   Agent/Tools          services/merge-tools-config.ts
--   Agent/Journal        services/journal-gaps.ts
-- Schedule: workflows.
--   Schedule/Store       the tables; Schedule/Dispatch is services/workflow-scheduler.ts
--                        (`executeWorkflow`, `recordCronFailure`), helpers/cron.ts and
--                        services/chat-dispatch.ts; Schedule/Tick is `tick` and
--                        Schedule/Startup `initializeNextRuns`
-- Router: what an agent holds at the model router.
--   Router/Token         services/model-router-token.ts
--   Router/Refresh       services/model-router-refresh.ts and services/model-router-revoke.ts
--   Router/Delegation    services/model-router-delegation.ts
-- Chat/Poll              routes/chat.ts, the stream of a thread's messages, with helpers/chat-backfill.ts and
--                        the bounded writer as that route uses it
-- Chat, the rest: the requests of routes/chat.ts that write messages.
--   Chat/Store           the tables, and statements that may fail; helpers/elevated-scope.ts
--   Chat/Mentions        `parseMentions`
--   Chat/Dispatch        `dispatchToAgents` and `sanitizeDispatchReason`, with the request that
--                        services/chat-dispatch.ts sends
--   Chat/Threads         `isParticipant`, `isThreadOwner` and POST /threads/:id/cancel
--   Chat/Routing         `resolveAgentSlugs` and the choice of the agents that take a message
--   Chat/Send            POST /threads/:id/messages
--   Chat/Membership      PUT /threads/:id/participants
--   Chat/Chain           the orchestration at the end of `chatCallbackHandler`
--   Chat/Callback        `chatCallbackHandler`
--   Chat/Sweep           a round of `startStaleSweeper`
--   Chat/Requests        these, one after the other; Chat/Kept says which changes of the table they may make
-- Hooks/Keys             services/provider-key-crypto.ts
-- Hooks/Deliver          services/webhook-dispatch.ts
-- Hooks/Redact           helpers/redact.ts, `redactDeep`
-- Docker/Frames          services/docker.ts, the 'data' listener of `execInContainerWithExit` and `execWithStdin`
-- Docker/Limits          routes/agents.ts (the validators of resources, `containerProfileCeilingViolations`),
--                        helpers/agent-resource-limits.ts, and services/docker.ts (`parseCpus`,
--                        `parseMemLimit`, the first lines of `createAndStartContainer`)
-- The modules below these hold the proofs, each named for what it proves, and the Tests modules run
-- the theorems at concrete inputs.
--
-- State. A closure's variables or a module's are a record, a handler is a function on it, and a run is a
-- fold over the events that reach it, so every interleaving of events is covered. What the code calls
-- on another object (a socket, a response, the table of notices) is kept in the record in order. A
-- database is a record of tables with a counter of statements, and `fails n` says that the n-th one throws;
-- a theorem holds for every such function unless it says otherwise. The instant `now` is one number for
-- a whole pass, tick or handler. A poll of a thread's stream and a run of the refresh handler are one step each,
-- but for the polls that overlap in Chat/Poll/Once and the handlers that race in Router/Refresh/Races; the
-- requests of Chat/Requests run one after the other. Identifiers of messages and of chains are drawn from
-- one counter, and a character of a text is a UTF-16 code unit, also in the title that LEFT cuts.
--
-- Parameters. The Docker daemon (`inspect`), the JWT library and the key resolver (`decode`, `verify`,
-- `get_signing_key`), the cron library (`parse_next`), the agent's HTTP answer (`fetch`), the joined rows of
-- the scheduler's query (`join`), and the terminal's lookups are arguments, and so are the record `Crypto`
-- of what the tokens use of `crypto` and `JSON`, and the record `Cipher` of the secrets' encryption. One
-- theorem assumes that the cron library names later instants and the join keeps identifiers; those on the
-- acceptance of tokens assume that signatures verify, that base64url has no dot and that what was encoded
-- is read back (`IsSound`); the one on stored secrets, that what was sealed is unsealed (`IsSealing`).
--
-- Bounds. Numbers are natural, but for the decimals of Docker/Limits, which are numbers of units with an
-- Infinity, `parseFloat` rounding as the parameter `round` does. Byte counts and instants stay far below
-- 2 ^ 53, where JavaScript's are exact, and the terminal's timer has its cap of 2 ^ 31 - 1 written out. The
-- loops are structural but for the one that takes frames apart: it has one unit of fuel for each byte of its
-- buffer and one more, and takes at least eight bytes a round, so the fuel is enough.
--
-- Not modelled: log lines, formatting of frames, closing all terminals at shutdown, the other routes (of
-- threads too: creating, listing and deleting them, and their second event stream), the rounding of cpus to
-- billionths, fields of a delegation's body of another type than declared, the text of journal entries, the proxies to other services, the storage, the user interface,
-- and the services in Python.
pub mod Prelude
pub mod Stream
pub mod Access
pub mod Agent
pub mod Schedule
pub mod Docker
pub mod Router
pub mod Chat
pub mod Hooks
