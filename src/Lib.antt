-- ===== src/Lib.antt =====
-- brainapi-go-sdk: a verification of the Go client for the BRAIN API, package pkg/brainapi,
-- and of the tools around it (cmd/brainapi, cmd/brainapi-mcp, pkg/feedback, pkg/captcha/altcha).
--
-- The program. Every endpoint method builds a request and gives it to Client.do
-- (pkg/brainapi/transport.go), which sends it until evaluate calls the result final: it retries
-- errors with a backoff, polls while the server computes, logs in again once after a 401, and counts
-- opaque 403s towards a ban. Around do stand the gates of pkg/brainapi/client.go (ban, cooldown and
-- daily budget), the policy of pkg/brainapi/retry.go, the errors of pkg/brainapi/errors.go, and the
-- alphas of pkg/brainapi/alphas.go and the simulations of pkg/brainapi/simulations.go, whose
-- SubmitAlpha and WaitForSimulation have long polls of their own.
--
-- The model. A call is a function from a World to an outcome and a World (World.antt, World/Monad):
-- the fields of Client that change, a clock that numbers the moments, and what the call did. The
-- server, the context and the clock are an Environment, functions of the moment; JSON, floats,
-- base64, URL encoding and dates are a Library of functions (Runtime.antt). One goroutine runs at a
-- time: a section under a mutex is one function of the state, and sequences of such sections are
-- lists of calls (Client/Budgets/Day).
--
-- The files.
--   Types, Errors, Errors/Classify: types.go, errors.go. Errors/Kinds: the kinds of Classify.
--   Retry: retry.go (parseRetryAfter, parseRateLimit, clamp, isCooldownBody). Retry/Bounds.
--   Client: credentials, preflight, requireNonEmpty. Client/Options: NewClient. Client/Url: joinURL,
--     singleSlash, the query helpers. Client/Budgets: checkBudget, checkBudgetN.
--   Transport/Request: doRequest, buildHeaders. Transport/Decision, Envelope, Evaluate: evaluate, one
--     handler for each case of its switch, and classifyClientError. Transport/Perform: the loop of
--     do. Transport/Login: Login of auth.go. Transport/Do: do and Login together. The other files of
--     Transport are proofs: Cases and Rule are the ways to reason about evaluate and do.
--   Jar: saveJar, loadJar and clearJar of transport.go. Jar/Atomic: what a save leaves. Jar/Wire:
--     newTLSHTTP and tlsHTTP.do. Jar/Sent, Jar/Served: the headers on the wire, a round trip.
--   Endpoint, Alphas: the requests of alphas.go. Alphas/Verdict, Alphas/Submit: parseSubmitVerdict
--     and SubmitAlpha; Alphas/Verified, Alphas/Submitted: their proofs.
--   Auth: Probe, Logout, CompletePersona; Auth/SignIn and Auth/Probed: their proofs.
--   Simulations: creating simulations; Simulations/Wait: the wait loops; the other files of
--     Simulations are proofs, but for Simulations/Slots: the channel behind reserveSimSlot as a step
--     relation. In the create functions the choice of its select is an argument.
--   Account: the endpoints of users.go, messages.go, password.go and email.go. Schema, Performance,
--     Register: schema.go, performance.go, register.go. Register/Form, Posted: what Register sends.
--   Iterators: paginateAll of iterators.go, the *All endpoints on it, and drainAll of
--     cmd/brainapi/handler.go. Iterators/Served: the walk over a server of pages.
--   Decoders: the decoders that types.go writes by hand, and DecodeActivities of users.go.
--     Decoders/Aliases, Points, Columns: their proofs.
--   Profile: browser_profile.go. Profile/Names: names of profiles.
--   Float, Selfcorr: selfcorr.go over the operations of float64. Selfcorr/Aligned, Returns, Ranking,
--     Ranked, Local: alignReturns, PnLToReturns, MaxSelfCorr, SelfCorrLocal.
--   Altcha: pkg/captcha/altcha (solver.go, adapter.go, encode.go). Altcha/Race: the workers of Solve
--     as a step relation. Altcha/Stripes, Invariant, Found, Progress: proofs about the race.
--     Altcha/Adapter: the adapter as the solver that Register takes.
--   Feedback: pkg/feedback/feedback.go. Feedback/Truncated, Feedback/Filed: truncate and File.
--   Cli: cmd/brainapi: the exit codes and options (main.go), helpers. Cli/Shell: newClient, the frame
--     of a command (handler.go), --json. Cli/Account, Alphas, Simulations: the commands of the cmd_*.go
--     files. Cli/Dispatch: all that call the platform as one type. Cli/Answers, Completed: their ends.
--     Cli/Process: the envelopes of internal/jsonout and the exit code. Cli/Told: what they tell.
--     Cli/Patched, Patching: the members and the requests of set-properties. Cli/Exits: the exit
--     codes. Cli/Describe, Tree: the walk of the command tree, the tree itself. Endpoint/Halts, Alphas,
--     Catalog: endpoints end.
--   Mcp: cmd/brainapi-mcp/main.go. Mcp/Reading, Mcp/Writing: its tools. Mcp/Calls: the read tools as
--     one function. Mcp/Report: report_issue. Mcp/Guarded: submit_alpha. Mcp/Readonly, Endpoint/Reads,
--     Transport/Asked: the requests that the read tools send.
--   Prelude: lists, texts as lists of bytes, integers. Fixtures, Examples, Scenarios, Samples,
--     Commands: concrete data.
--
-- Fuel. The loop of do runs on fuel: one round more than the error retries, the long polls and the
-- re-login that are left (Perform.rounds_left), which each retry spends one of. Out of fuel it gives
-- the outcome `diverged`, which is neither a value nor an error. do and Login call each other: the
-- Login that do calls rules a re-login out by its hint, so its own re-login is one that diverges.
-- Login is written over the re-login (login_with), which Transport/Depth varies.
--
-- The walk of paginateAll and the race of Solve have no bound of their own in the code: the walk runs
-- on fuel for its pages, and the race is a relation, so it needs none.
--
-- Numbers. int and time.Duration are integers; where a product could pass int64 or a counter int32
-- the wrap-around is written out. Statuses and lengths are natural numbers. float64 is a type with
-- operations (Float.antt), of which only the comparison of finite numbers is assumed to be an order.
--
-- Concurrency. The workers of Solve, the watcher and the end of the context interleave in any order;
-- an atomic operation is one step, and so is the hash of one number. The goroutine of paginateAll
-- hands each item to its consumer, so it is one sequence; the select of a send is an argument. The
-- callers that wait for a slot of a simulation interleave in any order.
--
-- Not modelled: tls-client (a third-party library) and its options, logging, encoding/json
-- and the structs that it fills without code of the repository (the decoders are parameters), the
-- parsing of arguments, the layout of the JSON on stdout and signals (cmd/brainapi), the logger, the
-- messages of errors, the texts and schemas
-- of the tools, scripts and examples.

pub mod Prelude
pub mod Types
pub mod Errors
pub mod Runtime
pub mod Retry
pub mod World
pub mod Client
pub mod Transport
pub mod Jar
pub mod Endpoint
pub mod Alphas
pub mod Fixtures
pub mod Examples
pub mod Scenarios
pub mod Samples
pub mod Commands
pub mod Auth
pub mod Simulations
pub mod Account
pub mod Iterators
pub mod Schema
pub mod Performance
pub mod Register
pub mod Profile
pub mod Cli
pub mod Mcp
pub mod Feedback
pub mod Float
pub mod Decoders
pub mod Selfcorr
pub mod Altcha
