-- ===== src/Lib.antt =====
-- Open Community Groups: the logic of the server (ocg-server/src) and of the redirector
-- (ocg-redirector/src), modelled and verified.
--
-- The server is an axum application over PostgreSQL. Handlers read and write the database through
-- traits (ocg-server/src/db), and background workers, each a loop that stops with a cancellation
-- token, carry out what must outlive a request: meetings kept in step with Zoom, refunds, analytics.
-- The parts modelled, each a module here:
--   * Pagination: ocg-server/src/types/pagination.rs, the offsets, links and URLs of result pages.
--   * Meetings: ocg-server/src/services/meetings.rs, the workers that synchronise meetings with the
--     provider, end overdue meetings, and recover abandoned claims.
--   * Zoom: ocg-server/src/services/meetings/zoom.rs and zoom/client.rs, the provider of the workers in
--     Meetings. Zoom.Client waits for a slot before each request and keeps an access token; its state
--     and the clock are those of Zoom.World, and Zoom.Errors says what an answer means for the workers.
--   * Payments: ocg-server/src/services/payments, checkouts, refunds and the webhooks of the provider.
--     Payments.Manager is manager.rs, which handlers call; it hands webhooks to Payments.Webhook
--     (webhook_reconciler.rs) and notifications to Payments.Composer (notification_composer.rs).
--     Payments.RefundWorker and Payments.RefundLoop are refund_worker.rs, Payments.Recorder is
--     refund_recorder.rs, which the worker and the webhook share, and Payments.Provider and
--     Payments.Db are the traits of provider.rs and ocg-server/src/db/payments.rs.
--   * ActivityTracker: ocg-server/src/activity_tracker.rs, the counting of page views: an aggregator
--     hands batches (Batches) to a flusher, which writes them to the database.
--   * Questionnaire: ocg-server/src/types/questionnaire.rs, the answers of attendees, their validation
--     (Payload and Validate) and display (Display). Questionnaire.Accepted says which are accepted.
--   * Notifications: ocg-server/src/services/notifications.rs, the workers that deliver the emails queued
--     in the database. Notifications.Content, Email and Delivery make up a round of the delivery worker.
--   * Recurrence: ocg-server/src/handlers/dashboard/group/events/recurrence.rs, the events of a series.
--     Recurrence.Monthly computes the dates of a monthly series, over the calendar of
--     Recurrence.Calendar; Recurrence.Shift moves the dates in a JSON payload (Recurrence.Json),
--     Recurrence.Refresh gives it new identifiers, and Recurrence.Payloads puts the payloads of a
--     series together. The loop over the months has fuel for four months for each occurrence, since
--     of four months in a row one has a fifth weekday.
--   * Enqueue: ocg-server/src/services/notifications/enqueue.rs, who is told of what happens to an event.
--     Enqueue.Recipients are its lists of users, Enqueue.Groups groups the recipients of a series by
--     the events that concern them, and Enqueue.Series tells them. The notifications that it enqueues
--     are those that the workers of Notifications deliver.
--   * Redirector: ocg-redirector/src, the service that redirects legacy URLs. Redirector.Router has
--     its routes and handlers (router.rs), Redirector.Tables loads and refreshes its redirects (db.rs,
--     main.rs), and Redirector.Config checks its settings (config.rs). Redirector.Tables.Rows describes
--     its answers by the rows of the database alone.
--   * Validation: ocg-server/src/validation.rs, the validators of form fields; Validation.Slugs has the
--     grammar of the slugs of groups.
-- Prelude holds what they share; Prelude.Loop is the loop of the meeting and delivery workers.
--
-- The outside (the database's functions, the providers, the clock) is an interface: a record of what
-- each operation answers after the trace of all calls made before. An `async` function is an action
-- (Prelude/Exec.antt) that extends the trace and returns a result, so a theorem for every such record
-- holds for every behaviour of the outside, other workers' calls included. The methods of the Zoom
-- client also change its state (Prelude/Stateful.antt), one after the other. A loop of a worker runs
-- over a list of what its polls of the token find, which is as much of a run as is looked at. A round
-- of the refund worker that its token interrupts makes the first calls of the whole round.
--
-- Stripe, the HTTP answers of Zoom, the SQL functions, the query strings of serde_qs and the builders
-- of notification payloads are fields of such records, so nothing is assumed of them but their types.
-- `Uuid::parse_str` and the order of the rows of a batch are arguments, the latter with the laws of a
-- total order where a result needs them.
--
-- chrono, chrono-tz and new UUIDs are records and functions too (Recurrence.Calendar, Shift); that
-- chrono follows the Gregorian calendar is a hypothesis of the theorems about monthly series.
--
-- The http crate's `Uri` is a parameter of the redirector, and how axum picks a route for a method and
-- a path is written out from its documentation; a refresh and a request do not interleave,
-- since the map is replaced as a whole under a lock.
--
-- The builders of payloads.rs, the conversion of a full event to a summary and the order of hash maps
-- are parameters of the enqueue workflows: where a theorem needs it, the order only permutes, a
-- builder keeps the kind and the recipients that it is given, the JSON of a series can be read for its
-- events, and the database answers the same while one workflow runs. The reads of one `try_join!` are made one after the other. The parsers of emails
-- and URLs are parameters of the validators; those of coordinates compare floats and are left out.
--
-- A `usize` has 64 bits and wraps, as in a release build; a panic is `none`, or `Stop.panic` where a
-- function may also fail or run out of fuel. Logging is left out.
-- The other handlers, templates, SQL functions and configuration are not modelled.
mod Prelude
pub mod Pagination
pub mod Redirector
pub mod Validation
pub mod Meetings
pub mod Zoom
pub mod Payments
pub mod ActivityTracker
pub mod Questionnaire
pub mod Notifications
pub mod Recurrence
pub mod Enqueue
