-- ===== src/Lib.antt =====
-- nats-oidc-callout: the authorization service for NATS connections, and its client libraries.
--
-- A NATS server asks the service about every connection. `Authorize` (internal/callout/callout.go)
-- takes the bearer token of the connection, has it verified by the issuer that it names
-- (internal/verifier/verifier.go), flattens its claims (internal/identity/identity.go), looks for the
-- first rule of the policy that the identity satisfies (internal/authz/authz.go and cel.go), and
-- signs a user JWT with the account and the permissions of that rule, and an expiry that is capped.
-- Every outcome is logged, and counted (internal/metrics/metrics.go). The service starts from a
-- configuration file (internal/config/config.go), and reloads it on SIGHUP, when the verifier and the
-- policy are replaced together (cmd/nats-oidc-callout/main.go). A client gets its token from AWS, by
-- way of a cache file (lib/awsauth/awsauth.go), or from a file that the kubelet rotates
-- (lib/k8sauth/k8sauth.go).
--
-- Base            byte strings, lists, results, maps as association lists, integers
-- Regexp          package regexp as an interface; Regexp.Fragment is an instance of it
-- Identity        identity.go: `Parse`, `flatten`; Paths is its specification, Leaves shows that it is
--                 met, Claims and Namespaces are about the claims of an identity
-- Authz.Types     the structs of authz.go
-- Authz.Sub       `compileSub` and `subMatches`; Sub.Glob says what a glob means
-- Authz.Pins      `hasStrongPin` and its helpers, the guardrail against broad rules
-- Authz.Cel       cel.go, with the package cel as an interface
-- Authz.Policy    `Validate`, `matches`, `Evaluate`
-- Base64          encoding/base64's RawURLEncoding, as `unverifiedIssuer` and `Mint` call it
-- Verifier        verifier.go, with go-oidc and encoding/json as interfaces (Verifier.Packages)
-- Metrics         metrics.go: the calls on the collectors, and what a scrape reads of them
-- Callout         callout.go, with jwt and nkeys as an interface; Callout.Interleaving takes calls apart
--                 into steps, between which other calls and reloads run
-- Config          config.go, and `LoadPolicy` of authz.go, with files and YAML as an interface
-- Service         main.go: `run` up to the start, `watchReloads`, `buildVerifier`,
--                 `warnUnreloadable`; Service.Latest says which configuration is served,
--                 Service.Tls has `connectNATS`, `tlsConfig` and `newLogger`,
--                 Service.Process has `main` with its exit codes and the rest of `run`;
--                 Service.Grants and Service.Entitlement put the parts together: what is behind a
--                 JWT of the running service, and which requests it grants
-- AwsAuth         awsauth.go: the configuration and `mint`, `New` in AwsAuth.Construction,
--                 `DefaultCachePath` in AwsAuth.CachePath; AwsAuth.Source has the cache file, `Token`,
--                 the refresh in the background and the handler for NATS
-- K8sAuth         k8sauth.go
-- MetricsServer   internal/metrics/server.go: `Serve` and its goroutine, as a relation of steps
-- TestClient      test/k8s/client/main.go: which outcomes pass the end-to-end test
-- MockOidc        mockoidc.go, the issuer that tests run against
-- Tests           a small service on concrete packages: tests, and instances of the theorems
--
-- Representation. A Go string is the list of its bytes. A map is an association list; where a range
-- over a map can be observed, the list is in the order of the visit. Times and durations are
-- nanoseconds as integers, without Go's bounds at 64 bits, and the conversion to int32 in `mint` is
-- written out; the clock is an argument, one value for each reading. An error is a constructor, with
-- the texts that the message is made of. A method that changes its receiver returns the receiver as
-- it is left, also where it fails. All functions are structural recursions, so every operation gives
-- an answer; only the trimming of white space counts rounds, one for each byte of the text. The fields of
-- jwt.UserPermissionLimits that no policy sets are one value, which `Authorize` overwrites with zero.
--
-- Other packages. Regular expressions, CEL, go-oidc, encoding/json, jwt, nkeys, STS, YAML, TLS, RSA,
-- SHA-256, the NATS client, the callout service and the file system are records of functions, or
-- functions, over which the definitions are parametrised. The laws that theorems take of them are
-- stated with these: of regexp (`IsRegexp`, on ASCII literals, `.*`, `^`, `$` and `|`), of the subject
-- of a new claims object, of the bytes that JSON, signatures and digests are, of an issuer that JSON
-- gives back as it was written from claims with no other key that it takes for `iss`, and of joining a file name onto a directory.
--
-- Concurrency. `authorize` is a call that runs at once, and a run of the service is a list of requests
-- and SIGHUPs. Callout.Interleaving has the calls as threads: one step loads the ruleset, one runs
-- `Verify`, one `Evaluate` with the signing, and each log line and each call of a collector is one
-- more. A system holds any number of threads, and its next step is that of any of them, a new call,
-- or a reload; each of these steps is atomic. Its history lists the requests in the order in which
-- they load the ruleset. The token source of awsauth is a relation of steps: calls, and the actions
-- of the goroutines that refresh its cache.
--
-- Not modelled: HTTP and NATS connections, contexts and timeouts (that `Verify` returns within
-- `verifyTimeout` is taken from go-oidc, in that its calls are functions), the texts of errors, the parsing of
-- flags, the wait for the signal that ends the service, and what the Prometheus client exports of
-- itself. They are calls of other packages with no decision of the program in them.
pub mod Base
pub mod Regexp
pub mod Identity
pub mod Authz
pub mod Base64
pub mod Verifier
pub mod Metrics
pub mod Callout
pub mod Config
pub mod Service
pub mod AwsAuth
pub mod K8sAuth
pub mod MetricsServer
pub mod MockOidc
pub mod TestClient
pub mod Tests
