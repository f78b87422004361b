-- ===== src/Lib.antt =====
-- Stead is an API (api/, NestJS over PostgreSQL by Prisma) and a mobile client (mobile/) that help
-- a person save for one goal. This library models the services that keep the API's state, and of
-- the client the goal form and the refresh of its tokens, and proves what they promise.
--
-- Prelude holds the shared tests, list lemmas and results: `Result` is a value or the HTTP error
-- that a handler throws. Store is the interface of a database table: the queries of the Prisma
-- client that the services make, as operations on the list of the rows, with laws that state their
-- documented meaning. Every theorem takes the tables as parameters; Store.Memory fills the
-- interface, and the examples in the Tests modules run on it.
--
-- Goals models api/src/goals/goals.service.ts: `create`, `get_active`, `update` and `end` carry
-- the names of the methods. Goals.Lifecycle says what each leaves, Goals.Invariant what holds of
-- the rows, Goals.History the runs of any sequence of requests.
--
-- Auth.Sessions models the refresh tokens of api/src/auth/auth.service.ts: the issue of a family
-- with its slot (prepareRefreshFamilySlot, createRefreshTokenRow), the rotation of refreshSession,
-- and revokeSession. Auth.Otp models verifyOtp of the same file with replayOtpVerification and
-- issueVerifiedSession, and the events of auth-telemetry.service.ts that it counts.
--
-- Notifications models api/src/notifications: notification-queue.service.ts (Enqueue, Delivery and
-- Deletion) and notification-consumer.service.ts (Consumer). A one-time code and an alert reach
-- the user through this queue.
--
-- Alerts models the rules of api/src/alerts/alert-rules.ts (risk_decision, is_due,
-- alert_occurrence_key) and evaluateUser of alerts.service.ts (Alerts.Evaluation): which alerts an
-- evaluation publishes, and how the state advances after them. The dashboard's answer and the
-- local time are inputs.
--
-- Account models api/src/account/account.service.ts: the profile and the consents with their
-- history, and in Account.Deletion the deletion of an account over the tables of all the other
-- components.
--
-- Client models the goal form of the mobile client, mobile/src/lib/goal-form.ts, with the amounts
-- and dates of transactions.ts there.
--
-- Client.Refresh models the refresh of the access token in mobile/src/lib/api.ts
-- (rotateAccessToken, abandonInFlightRefresh, allowTokenRefresh) as steps that interleave, one for
-- the end of each wait, with the logout and the sign-in of auth-state.tsx. What the server answers
-- is free. Client.Store models token-store.ts: memory, the SecureStore of the platform and its
-- fallback, with calls of the SecureStore that fail.
--
-- Auth.Request models requestOtp with replayOtpRequest (Replay, Handler), over the tables of
-- Auth.Otp and the queue of Notifications, to which it publishes. Auth.Request.Verified follows a
-- code from its request to its verification.
--
-- Statement models the bank statements of api/src/transactions: transaction-import.csv.ts (Csv),
-- transaction-import.adapters.ts (Adapters) and transaction-import.parser.ts (Values, Parser). A
-- text is the list of its UTF-16 units. Statement.Preview and Statement.FirstImport put the parser
-- under the import of Transactions.
--
-- Transactions models api/src/transactions/transactions.service.ts: create, update, remove,
-- preview_import and confirm_import carry the names of the methods. Transactions.Import is about
-- the import, Transactions.Ownership about whose rows and goals a request touches.
--
-- Identifiers, digests, phone numbers and texts that the code only compares are numbers. Times are
-- milliseconds as numbers; a test that subtracts from a time in the source adds on the other side
-- here. A transaction that throws leaves the rows as they were. What other requests do between the
-- steps of a handler that the modules name (before the transaction of a refresh, after the first
-- replay lookup of a verification, around the claim and the sending of a job) is a parameter, an
-- arbitrary function on the state; between the other awaits a handler runs alone. In particular
-- two wrong codes at once, which the code may count as one attempt, are outside the model. Random
-- values and the time come with the request. Every loop runs over a list, but for the one that
-- writes a number in decimal (Statement.Text.show): its fuel is the number plus one, and
-- Statement.Decimal reads its digits back.
--
-- Not modelled: controllers, validation by class-validator, configuration, metrics, logging and
-- the screens of the mobile client. bcrypt, AES, JWT signing and the SMS providers are parameters,
-- with the laws that the code relies on: an authentic cipher text gives its plain text back, to
-- the decryption of a verification where the response passes its checks. Queries that fail for a
-- reason other than the data, such as a lost connection, are not modelled.
pub mod Prelude
pub mod Store
pub mod Account
pub mod Alerts
pub mod Auth
pub mod Client
pub mod Goals
pub mod Notifications
pub mod Statement
pub mod Transactions
