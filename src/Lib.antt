-- ===== src/Lib.antt =====
-- Verification library of nvelope, a multi-tenant service that sends mail campaigns and bills for
-- them. It models the billing context (subscriptions and their lifecycle, the one path on which an
-- invoice is charged, the metering of sends, and the quota gate); of the campaign context the
-- lifecycle of a campaign and the job that mails a batch of its recipients; the rate limiter; the
-- identity context (permissions, roles, sessions, the second factor and keys); of the audience
-- context memberships, public sign-up with its confirmation, unsubscription and segments; of the
-- deliverability context the processing of bounces and complaints and the suppression list; and
-- the errors that all of them return.
--
-- How the parts interact. A command (internal/billing/app/command) loads and stores rows through
-- the repositories (internal/billing/adapters), each call in a transaction of its own, and calls
-- the payment gateway outside every transaction. The other contexts have the same shape. The
-- charge job and the tenant's settle command share the charge path. The campaign context asks the
-- quota gate before it sends, and reports what it sent to the usage recorder; a job rolls the
-- reports up into counters. A request is authenticated by a session or a key of the identity
-- context, which yields a principal; a public sign-up leaves a pending submission and a job that
-- sends its token, and the confirmation by that token makes a subscriber with memberships, unless
-- the deliverability context suppresses the address. Errors of every context become responses in
-- one place.
--
-- Which file models what:
--   Common/Action: a use case as a function of the stored state that returns a value or an error
--     beside the new state; Keeps and Triple below it are its invariants and Hoare triples.
--   Common/Int64, Common/Calendar, Common/Texts: Go's int64 with its wrap-around, time.AddDate and
--     the functions of strings that the code calls.
--   Common/Database: the stored state over any tables, with WithTenant (internal/platform/tenantdb),
--     and below it rules for invariants, inversions and triples of statements, for the
--     identity, the audience and the deliverability context.
--   Platform/Apperr, Platform/Responses: internal/platform/apperr/apperr.go and
--     internal/api/errmap.go.
--   Billing/Errors, Money, Dunning, Plan, Subscription, Invoice, Payment, Usage: the files of
--     internal/billing/domain with the same names.
--   Billing/Store: the tables of one tenant, the clock, and tenantdb.WithTenant
--     (internal/platform/tenantdb).
--   Billing/Subscriptions, Billing/Invoices: subscriptions_pg.go, plans_pg.go and invoices_pg.go of
--     internal/billing/adapters.
--   Billing/Charge: charge_invoice.go of internal/billing/app/command; Billing/Commands: subscribe.go,
--     cancel.go and settle.go beside it. Billing/Runs: sequences of commands, jobs and changes from
--     outside.
--   Billing/Metering: usage_pg.go and usage_recorder.go of internal/billing/adapters, and rollup.go of
--     internal/billing/app/command. Billing/Quota: quota_gate.go of internal/billing/adapters.
--   Billing/Sweep: sweep.go of internal/billing/app/command.
--   Campaign/Domain: campaign.go and recipient.go of internal/campaign/domain.
--   Campaign/Recipients: the stored state, recipients_pg.go and parts of campaigns_pg.go of
--     internal/campaign/adapters. Campaign/Messages: what the batch worker is given, with messenger.go
--     of internal/campaign/domain. Campaign/Batch: batch_worker.go of internal/campaign/adapters;
--     Campaign/Batch/Runs: sequences of its jobs.
--   Iam/Permissions, Roles, Principals, Sessions: internal/iam/domain (Roles has role.go and
--     apikey.go; Sessions has session.go, user.go and totp.go). Iam/Store: the tables of the identity
--     context and roles_pg.go of internal/iam/adapters; Iam/Store/Accounts: users_pg.go,
--     sessions_pg.go, apikeys_pg.go and recovery_codes_pg.go. Iam/Commands: internal/iam/app/command,
--     and the two authentications of internal/iam/app/query. Iam/Closing: sequences of all the
--     commands, for a closed session.
--   Audience/Attributes, Memberships, Subscribers, Pages: attributes.go, membership.go,
--     subscriber.go with pending_subscription.go, and subscription_page.go of
--     internal/audience/domain. Audience/Store: the tables and the statements of
--     internal/audience/adapters; Audience/Store/Like: the operator LIKE of SQL. Audience/Commands:
--     memberships.go, confirm_subscription.go, resend_confirmation.go, submit_public_subscription.go,
--     public_unsubscribe.go and update_preferences.go of internal/audience/app/command.
--   Audience/Segments: segment.go of internal/audience/domain and segment_sql.go of
--     internal/audience/adapters.
--   Deliverability/Events: event.go, inbound.go, suppression.go and settings.go of
--     internal/deliverability/domain. Deliverability/Store: the tables, with the rows of all tenants,
--     and the statements of internal/deliverability/adapters. Deliverability/Commands: feedback.go and
--     suppression.go of internal/deliverability/app/command, and suppression_applier.go.
--   RateLimit: limiter.go of internal/platform/ratelimit, with its script for Redis.
--
-- How the code is represented. Row-level security hides the rows of every other tenant, so that
-- the state holds one tenant's rows; the deliverability context, which reads a table of all
-- tenants, writes the condition on the tenant out. In the billing and the campaign context ids,
-- uuids in the database, are numbers, with 0 for the empty string; times are nanoseconds since the
-- year 0, in UTC. A list of faults says of each coming transaction whether the database fails it,
-- so that every theorem without a condition on it holds wherever a process stops between two
-- transactions. Commands run one after another: two of them that interleave their transactions are
-- not modelled. The gateway, the mail provider, the limiter, the substitution of merge tags, the
-- extraction of links and the unsubscribe linker are parameters. The laws assumed of the gateway
-- are that a key that it declined has taken nothing, since a key has one result, and that a charge
-- leaves the other keys alone; of a call that returns a Go error, as when the reply is lost, or
-- ChargeError, nothing is assumed (Billing/Payment); those of the mail provider, that one call
-- delivers at most one message, and none to anybody else (Campaign/Messages). In the other
-- contexts ids are texts, made by a parameter from a counter of generated values; random tokens,
-- hashes, the one-time passwords and their encryption, the lower case and the syntax of mail
-- addresses, the throttle of sign-ups and the suppression list, whose lookup may fail, are
-- parameters too, and no law is assumed of them. The decimal numerals of placeholders take fuel,
-- and Audience/Segments/Operands shows that it is enough; all other loops are recursion on lists
-- and trees. The calendar has no upper bound: it is that of Go while the months, the days and the
-- seconds of a date stay in the range of Go's integers.
--
-- Not modelled: accessors and constructors from rows, the pages of the API, the messages of
-- refused transitions, the ids of usage rows, which nothing reads, and the contexts that the list
-- of components leaves out.
pub mod Common
pub mod Audience
pub mod Billing
pub mod Campaign
pub mod Deliverability
pub mod Iam
pub mod Platform
pub mod RateLimit
