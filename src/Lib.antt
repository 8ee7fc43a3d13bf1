-- ===== src/Lib.antt =====
-- bluebottle: the policy, identity, signing, throttling and telemetry packages of the repository.
--
-- Parts. pkg/iampolicy decides whether a request is allowed by a set of policy documents: the evaluator
-- goes through the statements, a statement through its actions, resources and conditions, and these
-- through the wildcard patterns, the policy variables, and the readers of numbers, dates and addresses.
-- pkg/auth reads ARNs and resolves them against a store. pkg/sigv4 reads the signature of a request,
-- renders the canonical request, checks the signature, and binds the body to what was signed.
-- pkg/ratelimit keeps one token bucket for each account and action. pkg/masterkey reads the master key
-- and seals texts with it. pkg/otelsetup starts the telemetry, routes and sanitises log records, and
-- measures requests. pkg/safecast has the saturating conversions of integers.
--
-- Files.
--   IamPolicy/Glob: `token`, `matchGlob`, `MatchWildcard` of pkg/iampolicy/match.go; Element is the
--     meaning of a pattern, Scan and Correct compare the scan with it.
--   IamPolicy/Variables: pkg/iampolicy/variables.go, with the texts it accepts in Template.
--   IamPolicy/Patterns: `matchPattern`, `matchesAny`, `SplitARN`, `matchARN` of match.go.
--   IamPolicy/Comparison, Operators, Numbers, Dates, Addresses, Conditions: conditions.go, numbers.go and
--     dates.go of pkg/iampolicy, one function for each of the source.
--   IamPolicy/Documents, IamPolicy/Json: pkg/iampolicy/types.go, and the rewriting of older documents
--     in variables.go.
--   IamPolicy/Evaluator: pkg/iampolicy/evaluator.go.
--   Auth: pkg/auth/arn.go. Safecast: pkg/safecast/safecast.go.
--   Ratelimit: pkg/ratelimit/config.go and ratelimit.go; Interleaving has the concurrent calls.
--   Masterkey: pkg/masterkey/masterkey.go.
--   Sigv4/Requests: pkg/sigv4/sigv4.go, and what the package uses of the standard library and of
--     smithy-go (`Runtime`).
--   Sigv4/Authorization: `getAuthComponents`, `parseTimestamp` and `parseCredential` of
--     pkg/sigv4/parse.go; Windows and Wrapping are about the times that are
--     accepted, Scopes about the credentials.
--   Sigv4/Contents: `resolveContentHash` of parse.go, `payloadMode` and `bindPayload` of payload.go;
--     Bound is about the bodies, Binding has the ways of binding one.
--   Sigv4/Parsing: the rest of parse.go, with `Parse`; Required names the headers that must be signed.
--   Sigv4/Canonical: `canonicalRequest` of verify.go; Ordering, Redaction and Unambiguous are about its
--     text. Sigv4/Verification: the rest of verify.go, with `Verify`; Authentic and
--     Signature are about what it accepts.
--   Sigv4/Payload: `verifiedBody` of pkg/sigv4/payload.go.
--   Otelsetup/Sanitize, Handlers, Startup, Requests: logsanitize.go, slog.go, otelsetup.go, and http.go
--     with metrics.go, of pkg/otelsetup.
--   Prelude and Strings: shared names, and the functions of Go's strings, strconv and hex packages;
--     Prelude/Sorting is a sort for those of Go's slices package, whose result an order determines.
--
-- Correspondence. A Go string is the list of its bytes, and an index into it the rest that is left to
-- read. A map that the code ranges over is the list of its entries in the order of the range, and one
-- that it only looks up is a function. An error is a value of a data type, or `none` where the code
-- asks only whether there is one. A function has the name of the source in snake case; a helper is
-- named after its part of it. Concurrent code is a sequence of its locked sections. A time is an instant
-- in nanoseconds, and a duration has its 64 bits. A body is what it gives and how it ends; what a
-- consumer of a bound body does is a sequence of reads. What `Init` does to the globals of a process is
-- passed on from stage to stage, and a request's handler is the sequence of what it does that the
-- middleware sees.
--
-- Fuel. The scan of `matchGlob` takes a step for every pair of a value position and a pattern position
-- at most, and its fuel is their product; the loops over a text with `${` get its length, and each step
-- shortens the text; a negated operator calls `conditionHolds` with a positive one, so two levels are
-- enough. That the fuel of the scan and of `conditionHolds` is not met is part of the entries below.
-- The digits of an `int64` are 19 at most, and 20 rounds write them. All else is by structure.
--
-- Not modelled. Logging of the packages themselves and error messages. Unicode case folding, the text
-- forms of addresses, `time.Parse` and `Format` are parameters (`Platform`, `Runtime`), as are SHA-256,
-- HMAC and smithy-go's `EscapePath`, net/http and net/url, the token bucket of golang.org/x/time/rate,
-- the ciphers and files of Masterkey, the store behind `ARNLookup`, the handlers of log/slog and of the
-- OpenTelemetry bridge, and the SDK of OpenTelemetry; encoding/json stands between the values of
-- IamPolicy/Json and their text, and what it writes for a string is a parameter (`Encoding`).
-- Of pkg/otelsetup the root sampler, whose ratio is a float, the histogram view, the making of the
-- instruments, and the methods that only delegate; `New` and `Stop` of pkg/ratelimit, which start and
-- end a goroutine; pkg/fipsboot and pkg/tlsconfig, a start-up check of the toolchain and a constant.
pub mod Prelude
pub mod Strings
pub mod IamPolicy
pub mod Auth
pub mod Safecast
pub mod Ratelimit
pub mod Masterkey
pub mod Sigv4
pub mod Otelsetup
