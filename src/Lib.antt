-- ===== src/Lib.antt =====
-- superbull: a hosted view of job queues. A connector runs beside a customer's queues and streams
-- their events over a web socket to the gateway, which hands them to the hosted app's database
-- functions (the hub); the hub stores events, groups failures, guards every tenant's data and issues
-- OAuth tokens for MCP clients. This library models the parts that decide what is kept, who may see
-- it and how often a thing may happen.
--
-- Parts, by file:
-- - Protocol: packages/protocol/src/index.ts, the event and the frame that carries events.
-- - Connector/Outbox: packages/connector/src/event-outbox.ts. The closure's variables are the record
--   Outbox and each method is a function of it (createEventOutbox is empty, enqueue, flush, ack,
--   setTransport is set_transport, getCursor is get_cursor); what it sends and logs are Effects.
--   Outbox/StreamId has the comparison of stream ids, Outbox/History runs any sequence of calls.
-- - Connector/Connect: packages/connector/src/connect.ts, the sockets and the reconnection; the handlers
--   are functions of the record Connection, and Connect/Steps runs any interleaving of them.
-- - Connector/Execute: packages/connector/src/execute-request.ts, from a request frame to the response;
--   Connector/Routes: packages/api/src/routes.ts, the table that it searches.
-- - Hub/Schema: apps/web/convex/schema.ts, the tables as lists of rows in the record Db.
-- - Hub/Base: what the hub's functions share: results, queries, patches.
-- - Hub/Access: apps/web/convex/access.ts, the guards, by the source's names in snake case.
-- - Hub/OAuth: apps/web/convex/oauthProvider.ts, likewise: the file itself has clients, codes and the
--   exchange, OAuth/Rotation what happens to tokens afterwards; OAuth/Calls runs any sequence of mutations,
--   and OAuth/Apps has the listing of connected apps.
-- - Hub/ErrorGroups: apps/web/convex/errors.ts, the fingerprint and the group of a failure,
--   with ErrorGroups/Listing for listGroups.
-- - Hub/Ingest: apps/web/convex/ingest.ts, recordBatch and purgeExpired.
-- - Hub/Alerts: apps/web/convex/alerts.ts: Rules has the mutations of rules, Status whether a rule fires
--   and its summary, Evaluate the evaluation, Digest digestSummary; Sweeps runs it again and again on a database that changes.
-- - Hub/Invites: apps/web/convex/invites.ts, creation, acceptance and revocation.
-- - Hub/Connectors: apps/web/convex/connectors.ts, a connector's enrollment, lookup and deletion.
-- - Hub/Projects: apps/web/convex/projects.ts, slugs, members and the deletion of a project.
-- - Hub/ApiKeys: apps/web/convex/apiKeys.ts. Hub/StatusPages: apps/web/convex/statusPages.ts, with the
--   uptime in StatusPages/Uptime. Hub/Annotations: apps/web/convex/deployAnnotations.ts. Hub/Dashboards:
--   apps/web/convex/dashboards.ts.
-- - Protocol/Frames: the other frames of packages/protocol/src/index.ts, and the internal API's types.
-- - Gateway: apps/gateway/src. Gateway itself has session-registry.ts and the state: sockets, sessions
--   and the calls that wait. Connection has the handlers of handle-connector-connection.ts and Api those
--   of internal-api.ts; each handler runs to its next await, and Steps runs any interleaving of them.
-- - Board/Bulk: packages/api/src/handlers/apply-bulk-job-action.ts, over what the queue's adapter answers.
-- - Delivery: the way of an event through the outbox, the gateway and the hub, with frames and
--   acknowledgements that are lost, repeated and reordered in between. It runs the functions of
--   Connector/Outbox, Gateway/Connection and Hub/Ingest. The purge of old events is left out of the runs.
--
-- Each Tests module runs the definitions on concrete data.
--
-- How the program is modelled. A string is its list of UTF-16 code units. A mutation takes the
-- database and returns the new one or the failure it throws, which leaves the database as it was, and
-- Date.now() is one argument, since it does not change within a mutation. Rows carry ids that the
-- database mints in rising order. Numbers of the program are natural numbers where it keeps them so
-- (times, counts), and Number() of a stream id is exact, as it is below 2^53. What is not in the
-- repository is a parameter: the environment's internal token, the signed-in user, SHA-256,
-- toLowerCase, trim, the URL parser, and randomUUID, of which only injectivity is assumed.
--
-- Loops are structural recursion, with four exceptions that have fuel: the outbox's flush, of which the
-- fuel is one more than the buffered events (a round for each, and one to see the buffer empty), the
-- search for a free slug, of which the fuel is one more than the projects, the days of an uptime, of which
-- the fuel is two more than the days between the first and the last, and the decimal digits of a number,
-- of which the fuel is one more than the number.
--
-- Not modelled: rendering, logging and the queue library itself; the passing of time, so a timer may fire
-- at any moment; the other handlers of the board's API, whose outcomes are a parameter of the executor; the
-- adapters to web frameworks; the parsers of frames and bodies, which are parameters.
pub mod Common
pub mod Protocol
pub mod Connector
pub mod Hub
pub mod Gateway
pub mod Board
pub mod Delivery
