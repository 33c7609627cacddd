-- ===== src/Lib.antt =====
-- GoreeCloud Drive: a file service that publishes uploaded content only after a security scan has
-- released it. This library models the Go server, from the configuration and the HTTP handlers down
-- to the files and the tables, and proves what it promises.
--
-- The parts, and how they interact. The command (Command, of cmd/server/main.go) reads the
-- configuration (Config, of internal/config/config.go), wires the rest and runs until it is told to
-- stop (Command.Lifecycle). The server (Http, of internal/httpapi/server.go, uploads.go and
-- quarantine.go, and internal/authn/principal.go) finds the account behind a request and hands the
-- request to a handler, which calls one of three services. The node service (Nodes, of
-- internal/nodes/service.go) asks the membership service (SpaceAccess, of
-- internal/spaceaccess/service.go), which asks the capability policy (Authz, of
-- internal/authz/policy.go), and keeps its nodes in a repository, in PostgreSQL that of
-- Nodes.Postgres (internal/postgres/store.go). The upload service (Uploads, of
-- internal/uploads/session.go, memory.go and postgres.go) keeps its sessions in a repository, in
-- memory (Uploads.Memory) or in PostgreSQL (Uploads.Postgres), and their bytes in the local store
-- (Storage, of internal/storage/local.go, session.go and quarantine.go); to complete an upload it
-- asks the scan gate (Wardveil, of internal/wardveil/scan.go), which hashes the staged bytes, asks a
-- scanner about them (Wardveil.HttpScanner, of internal/wardveil/http_scanner.go), judges the answer
-- by `Evaluate` and hashes again, and only then the store links the staged inode under the object's
-- name. The quarantine service (Quarantine, of internal/quarantine/service.go) takes an object out
-- of the active namespace by the store's `ApplyQuarantine`. Quotas (Quota, of
-- internal/quota/quota.go and postgres.go) count the bytes of a Space in a table. The acceptance
-- commands (Acceptance, of cmd/wardveil-acceptance and cmd/wardveil-negative-acceptance) send
-- uploads through the upload service over a store and a repository of their own, and print evidence
-- of what becomes of them.
--
-- How code corresponds to definitions. A function has its name in snake case. Stateful code is an
-- `Action S A`, a function from a state to a result or an error and the new state, written in do
-- blocks (Os); an error is a sentinel, a wrapped error, the security block or a text (Errors), and
-- `errors.Is` walks the chain. A nil interface is `none`, and a call of it is a panic
-- (Http.Message). A text is the list of its bytes (Prelude.Text). The store works on a `World`:
-- names linked to inodes, so that a hard link shares its content, a clock, the random names of
-- temporary files, and a schedule of faults, one for each call that may write and one for each Stat.
-- A table is its rows, an SQL statement a function on them with the constraints of migrations/, and
-- the outcome of each statement is in a schedule too (Sql): it may fail before it takes effect, or
-- after. A theorem about every state is about every failure. An int64 is an integer with the
-- wrap-around written out where it can happen. A scanner is an action that may change the disk; the
-- server's only answers. A route is a constructor (Http.Server) that carries the values of its
-- wildcards.
--
-- Interfaces. Uploads.Interface states as laws what the upload service relies on: a repository is a
-- map from canonical upload IDs to sessions. The service's theorems take the laws, and both
-- repositories meet them.
--
-- Orderings. Uploads.Machine has the calls of the upload service, one after another, as a step
-- relation. Uploads.Overlap is a completion during which another call takes effect between the
-- gate's decision and the publication, where the code holds no lock. Command.Lifecycle has the
-- listening goroutine, its channel, the select of `main`, the signals and the shutdown as steps in
-- any order.
--
-- Termination. Every function is by structural recursion; `trim_space` drops a space per unit of a
-- fuel that is the length of its text, and `digits` a digit per unit of the number itself, so the
-- fuel is enough.
--
-- Not under src/, so parameters: SHA-256 and HMAC, the JSON decoders, the file server, the parsers
-- of URLs, IP addresses, Booleans and durations, the exchange of an HTTP request, the JSON text of a
-- quarantine record (with the round trip that encoding/json documents), the resolvers of principals
-- and memberships, what `ListenAndServe` and `Shutdown` of net/http return, what PostgreSQL reads as
-- a uuid (with its documented laws), orders a listing by and keeps of a time, files outside the
-- store, and the bytes of rand.Read.
--
-- Not modelled: contexts and their cancellation, file modes in the store, directories (each is
-- created before use), the interleaving of two requests at other points than that of
-- Uploads.Overlap, the limits of the HTTP listener and the log, and of the acceptance commands the
-- flags, the temporary directory and the output of JSON.

pub mod Acceptance
pub mod Authz
pub mod Command
pub mod Config
pub mod Errors
pub mod Http
pub mod Ids
pub mod Json
pub mod Nodes
pub mod Os
pub mod Prelude
pub mod Quarantine
pub mod Quota
pub mod SpaceAccess
pub mod Sql
pub mod Storage
pub mod Tests
pub mod Uploads
pub mod Wardveil
