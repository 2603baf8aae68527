-- ===== src/Lib.antt =====
-- whois-mcp: a server of domain and network registration data (RDAP and WHOIS) for the Model
-- Context Protocol, with its own OAuth authorization server. This library models its authorization
-- core, its cache, its upstream policy, the lookup of a domain over RDAP and WHOIS with the
-- parsers and the reports, its number registries and its network guard, and proves what makes them
-- correct.
--
-- The parts. A client enrols with a secret (internal/auth/enrollment.go), is sent back with an
-- authorization code (authcode.go), and exchanges it for a session with a rotating refresh token
-- (session.go) and short access tokens (token.go) under a ring of signing keys (keys.go). Every
-- request's token passes the verifier, which asks the denylist (verifier.go, denylist.go). Lookups
-- go through the cache (internal/cache/cache.go) and reach an upstream only under the guard
-- (internal/ratelimit/guard.go), which asks the circuit breaker (breaker.go) and then the limiter
-- (ratelimit.go), and reports the answer to both. Which RDAP service answers for an address or an
-- AS number is looked up in the number registries (internal/rdapx/netregistry.go), and a WHOIS
-- lookup follows the registry's referral (internal/whois/client.go). Every connection of either
-- passes the check of internal/netguard/netguard.go.
--
-- A domain is looked up by internal/resolve/resolver.go: the input becomes a query (normalize.go),
-- the cache is asked, then the RDAP servers that the registry of internal/rdapx/bootstrap.go names
-- (internal/rdapx/client.go), and WHOIS where there is no such server or no definite answer. A
-- WHOIS response is classified and parsed by internal/whois/parsers, and either answer becomes the
-- report of internal/normalize. A batch of names (internal/resolve/availability.go) makes one such
-- lookup for each distinct name.
--
--   Prelude: names of the libraries passed on, Boolean tests, byte strings, association maps,
--     results, int64 bounds.
--   Auth.Session: MemoryStore of internal/auth/session.go as a record of two maps; create,
--     issue_refresh, get, rotate, revoke, touch are Create, IssueRefresh, Get, Rotate, Revoke,
--     Touch. Branches has one rule for the cases of each call, Families the invariant, History the
--     theft detection, Rotation one exchange.
--   Auth.Keyring: Keyring of internal/auth/keys.go; rotate, retire, verifier, jwks.
--   Auth.Token: Mint and Verify of internal/auth/token.go. Codec stands for base64, JSON and
--     Ed25519, IsCodec and IsIssuer for what is relied on; mend is what encoding/json makes of a
--     string that is not UTF-8.
--   Auth.Denylist: Add and Denied of internal/auth/denylist.go, the callback of TokenVerifier
--     and HasScope of internal/auth/verifier.go.
--   Auth.Code: CodeStore, VerifyPKCE and ValidateRedirectURI of internal/auth/authcode.go.
--   Auth.Scopes: NormalizeScopes, knownScope, sameResource. Auth.Server: the handlers of
--     internal/auth/oauthsrv.go over all these stores; Authorize has authorizePOST, Gate,
--     Exchange, Reuse and Revocation what the endpoints guarantee together.
--   Auth.Enrollment: NewEnrollment and Verify of internal/auth/enrollment.go.
--   Rdap.NetRegistry: NetRegistry of internal/rdapx/netregistry.go over the documents of
--     Rdap.Bootstrap (preferHTTPS of bootstrap.go); Prefixes and Ranges have the two lookups,
--     Refreshing the loads.
--   Rdap.Registry: Registry of internal/rdapx/bootstrap.go, with load, Lookup and Refresh;
--     Secure has what it answers. Rdap.Client: QueryWithOptions and followRegistrarHop of
--     internal/rdapx/client.go; Answers and Referral are named for what they show.
--   Whois.Parsers: Labels is internal/whois/parsers/synonyms.go, Templates and its Table
--     templates.go, Classify notfound.go, Dates dates.go; Lines, Fields, Contacts and Report are
--     parse.go, from the lines of a response to the typed members. Their children are named for
--     what they prove.
--   Normalize: Report, Epp, FromWhois and FromRdap are the files of these names of
--     internal/normalize; Decoded has the objects of openrdap.
--   Resolve: Ttl, Query, Lookup, Availability and Raw are ttl.go, normalize.go, resolver.go,
--     availability.go and raw.go of internal/resolve. Denials shows what a report that calls a
--     domain free rests on, Reuse what the cache serves, Batch what a batch answers.
--   Whois.Client: the referral loop of Query of internal/whois/client.go, with splitField and
--     sanitizeHost of discover.go; Hops shows how far it goes. Whois.Query is the whole Query over
--     Whois.Discover and Whois.Quirks, the files discover.go and quirks.go of internal/whois;
--     Asked has which servers are asked, Hosts and Remembered what discovery finds and keeps.
--     Whois.Transport: normalizeHost and the read of exchange of internal/whois/transport.go.
--   Auth.ScopeGate: internal/auth/scopegate.go. Mcp.Admin: the privileged tools of
--     internal/mcpsrv/tools_m2.go over the stores of Auth.Session and Auth.Denylist.
--   Netguard: BlockReason and Control of internal/netguard/netguard.go, an address being the
--     number of its 16 bytes; Public names what is refused.
--   Cache: Memory of internal/cache/cache.go.
--   RateLimit.HostKey, RateLimit.RetryAfter and RateLimit.Limiter:
--     internal/ratelimit/ratelimit.go. Buckets stands for golang.org/x/time/rate, Context for the
--     deadline and the wait of a context.
--   RateLimit.Breaker: internal/ratelimit/breaker.go, with the calls on one host's entry as
--     host_allow and host_record.
--   RateLimit.Guard: Do of internal/ratelimit/guard.go.
--
-- A method under a mutex is one step on the state, which is passed and returned. A method with two
-- critical sections is written as two functions, and as a third one that takes the state at each:
-- other calls may come in between. Times are natural numbers of nanoseconds since the epoch; the
-- zero time is 0. A duration that the code computes in an int64 keeps its wrap-around. A Go map is
-- an association list, of which only lookups are observed; a string is the list of its bytes, and
-- case mapping and trimming are those of ASCII. Errors are constructors, without their texts,
-- except where a text becomes a warning of a report. The confidence of a parse is a number of
-- hundredths, computed in exact fractions where the code uses floats. Every loop is recursion on a
-- list or a string, except the binary search for an AS number: its fuel is the number of ranges,
-- which its interval never exceeds, so that it never runs out; and the WHOIS referral loop, which
-- recurses on the hops that are left, at first the two of MaxReferralHops.
--
-- Not modelled: cryptography, encodings and randomness, which are parameters or arguments; the
-- HTTP layer, the metadata and registration endpoints, the connections of the WHOIS transport,
-- network lookups of the resolver and their reports; the sharing of a call by singleflight; logs,
-- metrics, web pages and the MCP tools beside session_list and session_revoke. The Go libraries
-- time, net/url, encoding/json, golang.org/x/net and openrdap are parameters.
pub mod Prelude
pub mod Auth
pub mod Cache
pub mod RateLimit
pub mod Rdap
pub mod Mcp
pub mod Resolve
pub mod Whois
pub mod Normalize
pub mod Netguard
