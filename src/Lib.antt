-- ===== src/Lib.antt =====
-- Docker Cloud Manager: a Go backend that runs the containers of many users on one Docker host.
--
-- The part that is modelled, and how it fits together. A request comes with an access scope
-- (backend/pkg/accessscope). The core service checks the quotas of the owner and the resources of
-- the host (backend/internal/core/service, admission and quotas), and puts an operation on a
-- container into a queue, which is a table of operations and an outbox, written in one transaction
-- (backend/internal/core/repository/container.go). The outbox worker sends the rows of the outbox to
-- a message broker (backend/internal/core/service/container_outbox_worker.go). A worker takes the message of an operation,
-- claims the operation, calls Docker and writes the result
-- (backend/internal/core/service/container_create_async.go), while the event worker writes to the
-- same rows what Docker shows (backend/internal/core/service/event_worker.go). Errors have
-- kinds, on which the worker and the handlers decide (backend/pkg/apperrors/errors.go). The gateway
-- issues tickets with which a stream of telemetry is opened
-- (backend/internal/gateway/service/telemetry_ticket.go). The single sign-on service keeps the
-- accounts, and says what the owner of a token may do (backend/internal/sso/service/auth.go).
--
-- Files:
--   Prelude, Prelude/*: tests on numbers, lists, int64, and functions of Go's package strings
--   AppErrors, Result, Effect: backend/pkg/apperrors/errors.go, Go's pairs of a value and an error,
--     and code that reads and writes a state
--   AccessScope: backend/pkg/accessscope/scope.go
--   Config: SystemConfig of backend/internal/core/config/system.go, and Config/Checks,
--     Config/Validation with Bounds and Accepted, and Config/Manager: validation.go and manager.go there
--   Validation: backend/pkg/validation/validation.go
--   Container: the data of backend/internal/core/model/container.go and operation.go, and the tables
--   Container/Store, Container/Queue: the transactions of
--     backend/internal/core/repository/container.go, as functions from a database to an error or to
--     a value and a database (GetByID is get_by_id, ClaimPendingOperation is
--     claim_pending_operation, and so on)
--   Container/Queue/Save, Saved: SaveWithMountsOperationAndOutbox of the same file
--   Container/Queue/Active, Steps, Transactions, Named: what all sequences of them keep
--   Container/Action: calls of the repository and of Docker, whose failures an Env gives call by
--     call; a World holds the database and a log of what Docker was asked
--   Container/Action/Keeps: rules for what such calls keep of the database
--   Container/Requests, with Outcome, Queued, Checked and Delivered: the requests Start, Stop, Delete and Action of
--     backend/internal/core/service/container.go and container_query.go
--   Container/Events, with Laws, Sync and Sync/Laws: the event worker
--     (backend/internal/core/service/event_worker.go)
--   Container/Worker, with Expose and Dispatch: the handlers (executeQueuedStart is
--     execute_queued_start, and so on), and Container/Worker/Settled/*: what becomes of an operation
--   Container/Resources: the volumes, mounts and images that a container uses
--     (backend/internal/core/repository, container.go, volume.go and image.go)
--   Container/Worker/Create, Container/Worker/Creation: ExecuteQueuedCreate, its helpers and the
--     order of its calls (a deferred function is deferred), and Creation/*: that no create is lost
--   ImageRef: backend/pkg/imageref/imageref.go
--   Container/Outbox, with Step, Leased, Batch and Delivery: the outbox worker
--     (backend/internal/core/service/container_outbox_worker.go, publishBatch is publish_batch)
--   Admission, Admission/Bounds: admission.go, container_admission.go, quota.go, resource_safety.go
--     and disk_usage.go of backend/internal/core/service
--   Tables: tables as lists of rows, and the parts of SQL that are used
--   Sso: the accounts (backend/internal/sso/model/user.go and repository/user.go), and what the
--     service is given; Sso/Access, Sso/Users and Sso/Oidc: backend/internal/sso/service/auth.go
--     (DeactivateUser is deactivate_user, and so on), with backend/pkg/permissions/permissions.go;
--     Sso/Rows, Sso/Users/*, Sso/Oidc/Administered and Sso/Requests: what requests keep of the
--     accounts; Sso/Oidc/States and Single: the states of logins under way
--   Tickets, Tickets/Laws: backend/internal/gateway/service/telemetry_ticket.go
--   DependencyWait, DependencyWait/Laws: backend/internal/core/dependencywait/wait.go
--   Examples, Examples/*: runs on small inputs
--
-- How the code is read. UUIDs are numbers and uuid.Nil is 0. int64 is an integer that each
-- operation wraps to 64 bits. float64 is a parameter, with an interface where it is computed with.
-- Rows are kept in the order of the index that a query reads. Contexts, logging, audit records and
-- the refresh of a project's status are left out. No function runs on fuel: all recursion is on
-- lists and texts.
--
-- Not modelled: images, builds, volumes, projects, compose, and the layers of HTTP, gRPC, SQL text,
-- RabbitMQ, ClickHouse and MinIO. The first of these are state and rules that further modules
-- would model; the last are calls of other packages.
pub mod Prelude
pub mod AppErrors
pub mod Result
pub mod Effect
pub mod Tables
pub mod Sso
pub mod Config
pub mod ImageRef
pub mod Container
pub mod AccessScope
pub mod Tickets
pub mod Admission
pub mod DependencyWait
mod Examples
pub mod Validation
