-- ===== src/Lib.antt =====
-- A model of the core of the client portal's API: documents that clients approve and sign, the time
-- that a team tracks, and the invoices that are made of it and paid online.
--
-- Parts. The API (apps/api) is a set of services over one database (packages/database) and an
-- object storage. A service's method runs as a sequence of queries, some of them in a transaction,
-- and throws an exception of the framework when a guard fails. These services are modelled;
-- Documents and Billing have their own tables (Documents/State, Billing/State), the others share
-- theirs (Ledger):
--   * Documents: apps/api/src/documents/documents.service.ts, its audit trail and its three tasks
--     (document-expiry, document-reminder and document-token-cleanup);
--   * TimeEntries: apps/api/src/time-entries (time-entries.service.ts, time-entry-capture.service.ts);
--   * Invoices: apps/api/src/invoices (invoices.service.ts, invoice-overdue.task.ts);
--   * Payments: apps/api/src/payments (payments.service.ts, invoice-total.ts);
--   * Tasks: apps/api/src/tasks/tasks.service.ts;
--   * Billing: apps/api/src/billing/billing.service.ts and apps/api/src/common/guards/plan.guard.ts.
-- They meet in the tables: a task that is done or closed leaves a capture, which becomes a time
-- entry; generateInvoice and recordExternalInvoice put time entries on the lines of an invoice,
-- replacing or deleting lines releases them, a checkout is opened for an invoice, and Stripe's
-- webhook marks it paid.
--
-- How code becomes definitions. A table is the list of its rows in the order of their creation
-- (Prelude/Table: find_first, find_many, count, update_where and delete_where are the client's
-- findFirst, findMany, count, updateMany and deleteMany). A method is a function from its arguments
-- and the state to a result, `ok` or the exception, and the state that it leaves (Service: Action);
-- `transaction` gives what a failed transaction leaves. Identifiers are numbers that are only
-- compared, and every identifier that the database generates, the present time and a link's random
-- token are arguments. Dates are milliseconds; a text in a nullable column is an Option.
--
-- Documents/State has the tables. Lifecycle models create, send, voidDocument and trackView;
-- Verdict models updateDocumentStatus and respond; Embedding models embedTextInPdf and the storage
-- of files, Signing models sign and notifyNextSignerIfNeeded; Versions models setSignatureFields,
-- uploadVersion, restoreVersion and remove; Tokens models generateAccessToken, revokeAccessToken
-- and validateAccessToken; Tasks models the tasks. Lookup has the lemmas on identifiers.
-- Transitions has the table `may_become` of status changes and its children compare each operation
-- with it; History makes the operations the steps of a relation. The PDF library and date
-- formatting are the parameter Rendering, the SHA-256 of a link is the parameter hash.
--
-- Ledger has the tables that the other services share (its children Work and Bills have the rows),
-- and resolveRate. TimeEntries/Timer models start and stop; Edits models create, update, delete,
-- addLog and deleteLog; Captures models captureTaskCompletion and resolvePendingCapture; Double,
-- Number and Invoicing model generateInvoice. Running has the lemmas on the partial unique index; Changes says
-- what an operation may do to the table of entries, Operations that each of them does no more, and
-- History puts them in sequence. Invoice numbers are JavaScript's doubles (Double): above 2 ** 53
-- they are rounded, and written as String writes them. The rounding of hours times rate, in floating point, and the texts
-- of invoice lines are the parameter Amounts.
--
-- Invoices/Creating models create, createUploaded and createUploadedAndNotify, Recording models
-- recordExternalInvoice, Changing models update, remove and markOverdueInvoices, and Reading models
-- calculateInvoiceTotal, getStats, findOneMine and the filter of findMine. A call that is retried
-- on a taken number is `with_retries` of one attempt and at most three more; `others` is what other
-- calls do to the database between two attempts; Attempts says which attempt counts, and Stuck is
-- about a numbering that no attempt gets out of. The database's order of texts is the parameter
-- `before`. Each line of a request stands with the identifier that the database will give it.
--
-- Payments/Settings models saveDirectKeys, removeDirectKeys, disconnectAccount, savePaymentMethods
-- and getStripeConfig; Oauth models the signed state and handleOAuthCallback; Checkout models
-- createCheckoutSession, and Webhook models handleWebhookEvent. Changes says what one operation may
-- do to the table of invoices, Operations and Effects compare each operation with it, and History
-- puts the operations in sequence, and those of Invoices and generateInvoice that write invoices
-- with them. What Stripe answers is the parameters KeyService, OauthService
-- and Sessions, which hold encryption, hashing and base64url too.
--
-- Tasks/Creating models create and createForClient, Changing models update, cancelClientTask,
-- reorder and remove, Voting models vote and closeVoting. Ballots has the lemmas on votes, Changes
-- says what one call may do to tasks, options and votes, Operations and Effects compare each call
-- with it, Order is about reorder, and History puts the calls in sequence. The log of activity is
-- left out.
--
-- Billing/State has plans, subscriptions and getUsage, Plans models the calls that make
-- subscriptions and sessions, and PlanGuard; Events models handleWebhookEvent, and Repeated is
-- about deliveries. What Stripe makes is the parameter BillingConfig. An update of a missing
-- subscription, which fails in the source, changes nothing here.
--
-- Fuel. `digits_from`, the digits of a number, is given one unit of fuel more than the number; each
-- digit takes one unit and divides the number by ten. `to_double` looks for the unit of a double
-- among the 972 powers of two that finite doubles have; `shortest` tries one power of ten for each
-- digit of the number.
--
-- Not modelled. Calls of one service run one after another: the interleavings of two calls are not
-- steps, except for what a transaction's unique index refuses. Uploads and deletions in the object
-- storage succeed; a download of a missing key fails. The audit trail and the notifications take
-- every entry. Addresses, user agents, notes and the metadata of files are left out, and the chunks
-- of a download are its total size. Deleting a file's row does not reach other documents that point
-- to it. Deleting the account of an organisation (apps/api/src/account/account.service.ts), which
-- deletes its invoices, is none of the calls that are put in sequence. An invoice number of more
-- than 308 digits, which would be read as infinity, is not considered; no call writes one. Quantities and prices of lines are natural numbers, as the requests' checks make them; an
-- empty text is no identifier. Cleaning up at Stripe, best effort in the source, has no effect
-- here. Work that a capture stands for begins after 1970. Listings, reports, exports and
-- certificates are left out, as are the other services of the API, the web application and the
-- templates of mail.
pub mod Prelude
pub mod Service
pub mod Ledger
pub mod Documents
pub mod TimeEntries
pub mod Tasks
pub mod Invoices
pub mod Payments
pub mod Billing
