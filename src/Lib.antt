-- ===== src/Lib.antt =====
-- GhostMonitor: the core of a self-hosted monitoring server. Monitors are probed on a schedule,
-- the outcomes are stored and mirrored into the history of items, triggers compare the history
-- with thresholds and open and close problems, unacknowledged problems climb escalation ladders,
-- and alerts go to the channels of the owner. Maintenance windows silence monitors, and a limiter
-- guards the login and ingestion routes.
--
-- Files and what they model:
--   Base           the library's names and the helpers that the other modules share
--   Model          app/core/models: the rows of the tables, one record per class
--   Problems       app/core/services/problem_event_service.py; the service's session is the
--                  `Timeline`, the table of events with the next id
--   Triggers       app/core/services/trigger_service.py: `evaluate` and `evaluate_item`, which run
--                  the same loop `evaluate_rows`, and `observe`, `observe_item` (in
--                  Triggers/Observe) and `record_problem`, its private methods
--   Escalation     app/core/services/escalation_service.py: `due_escalations` with `policy_of` for
--                  its cache and `climb` for the loop over the steps. Escalation/Policies is the
--                  schema of app/core/schemas/escalation.py, `_validate_channels` of
--                  app/api/routes/escalations.py, `create` and `replace`
--   Maintenance    app/core/services/maintenance_service.py and app/core/schemas/maintenance.py
--   Scheduler      app/tasks/scheduler.py: `_run_probe_job` as `begin_probe_job`, the probe with
--                  its retries (Scheduler/Retries) and `finish_probe_job`; `_reconcile_jobs` is in
--                  Scheduler/Jobs
--   Bridge         app/core/services/monitor_host_bridge.py, which the probe job calls
--   Notifications  app/tasks/notifications: the events, and the choice of the channels that
--                  `dispatch_alert` delivers to; Notifications/Delivery is delivery.py and `_deliver`, with
--                  the subject, the text and the payload of the alert as arguments
--   Secrets        app/core/security/field_crypto.py, and the sealing of channel configurations in
--                  app/core/services/notification_channel_service.py
--   Hosts          app/core/services/host_service.py: looking up, creating and sampling items
--   Ingest         `ingest` of app/api/routes/ingest.py, which evaluates the triggers of the item
--   Trends         app/tasks/trends.py, app/tasks/retention.py and `_history_maintenance_job` of
--                  app/tasks/scheduler.py
--   Poller         app/tasks/item_poller.py: the SNMP items that are due, on the tables of Ingest
--   RateLimit      app/api/ratelimit.py
--   Ssrf           app/core/security/ssrf.py, the egress policy that guards the probes and the webhooks
--   Probes         app/tasks/probes.py: `run_probe` with a function for each probe, which reads the
--                  target (Probes/Targets), asks the policy and turns what the network answers
--                  (Probes/Answers) into an outcome. Probes/Ping is `_parse_ping_time`
--   Templates      app/core/services/template_service.py, on the tables of Bridge
--   Discovery      app/core/services/discovery_service.py, the schema of
--                  app/core/schemas/discovery.py and `_discovery_job` of app/tasks/scheduler.py. A scan
--                  calls the probes and applies templates
--   Api            app/api/routes/monitors.py and hosts.py with app/core/services/monitor_service.py
--                  and the updates of app/core/services/host_service.py: `handle` takes a request of
--                  a user on the tables `Site`, and the foreign keys' deletions are functions of Api
--   Accounts       app/core/services/user_service.py, app/core/security/tokens.py, `login` of
--                  app/api/routes/auth.py and `get_current_user` of app/api/deps/auth.py. Accounts/Tokens
--                  is app/core/services/ingestion_token_service.py, app/api/deps/ingest.py and the
--                  token routes of app/api/routes/ingest.py
--
-- How state is modelled. A table is a list of rows, and a method is a function from the tables to
-- the tables and its result; what a session adds, changes and commits in one method is one step.
-- The probe job has two steps, since other requests commit while the network is waited for: the
-- first half loads the monitor, and the second finds whatever tables the others have left. A
-- column is written if its value differs from the one that was loaded, as the session does it.
-- UUIDs are natural numbers, and a new one is the next of a counter. Timestamps are natural
-- numbers of microseconds, and so is the monotonic clock of the limiter; a comparison with a
-- difference is written as one with a sum. Python's floats are an abstract type with the four
-- comparisons and the conversion of an int, of which no law is assumed, and what the database
-- aggregates over a column is a parameter.
--
-- Parameters for what is not in the repository: the probe itself (the outcome of its nth run), the
-- aggregates of the database, the network of the probes (`Network`), `urlparse`, `repr`,
-- `strptime`, `float` and the Unicode database (`Platform`, with the laws of ASCII digits in
-- `IsUnicode`), `ipaddress` and `getaddrinfo` (`Egress`, `AddressRange`), the collation of the
-- database, croniter and the time zones (`Calendar`), apscheduler (`JobStore`,
-- with the laws that its documentation gives in `IsJobStore`), Fernet (`Fernet`, with its laws in
-- `IsFernet`), the network that is polled (`Network`), the hexadecimal form of a UUID, the
-- text of a float, argon2 and `lower` (`Secrecy`, with its laws in `IsSecrecy`), joserfc under the key
-- of the settings (`Jwt`, with its laws in `IsJwt`) and SHA-256, and the mail server,
-- httpx and HMAC (`Wire`).
--
-- Loops are structural recursion over the rows, over the monitor's retries, over the hits of a bucket or
-- over the characters of a text, so that no fuel is needed, but for the digits of a number: `show_nat`
-- has one unit more than the number, and each digit takes one.
--
-- An exception that a function does not catch is a value of `Result`.
--
-- Not modelled: the web interface, the routes that are not named above, the texts of mails and the JSON
-- of payloads, the exchange with an OIDC provider, the time a refused login takes, and lists that only
-- read. Errors of the database are modelled where a unique name, email or hash, a key of an item or a
-- null breaks a constraint in Discovery, Templates, Api and Accounts, and for the monitor that is
-- deleted during its probe; elsewhere they are not, and in particular the backing host is taken to
-- outlive the probe job.
mod Base
pub mod Model
pub mod Problems
pub mod Triggers
pub mod Notifications
pub mod Escalation
pub mod Maintenance
pub mod Secrets
pub mod Hosts
pub mod Ingest
pub mod Trends
pub mod Poller
pub mod Templates
pub mod Discovery
pub mod Probes
pub mod Ssrf
pub mod RateLimit
pub mod Bridge
pub mod Scheduler
pub mod Api
pub mod Accounts
