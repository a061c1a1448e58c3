-- ===== src/Lib.antt =====
-- A model of gh-proxy, a gateway that fetches GitHub URLs for its clients, with the theorems that
-- make it correct.
--
-- A request names a GitHub URL behind the mount prefix and, as a rule, the shared token. The server
-- (internal/server) checks the method, cuts the prefix, asks the authenticator (internal/auth) for
-- the credential and for what remains of the target, has that parsed (internal/ghurl), asks the
-- access lists of the configuration (internal/config), and hands the URL to the proxy
-- (internal/proxy) or answers a bare 404. The proxy strips the request, puts in the token for
-- GitHub, which may come from the gh CLI (internal/ghcli), follows redirects itself, and gives those
-- that it does not follow back under the prefix of the request. A collector (internal/metrics)
-- counts what happened, for the status page (internal/status). The process (cmd/gh-proxy) puts these
-- together.
--
--   Ghurl    internal/ghurl/ghurl.go: the matchers (Matchers), the host list and `match` (Target),
--            `RepairScheme` (Repair), `ParseWithDefaults` (Parse). Shape states the path grammar,
--            Safety what a target is, Fallback what the default hosts do, Accept which targets are
--            parsed at least, in each Spelling.
--            internal/ghurl/rule.go: Rule, with its round trip and what the parser returns.
--   Auth     internal/auth/auth.go: `Check` and `Match`. Credential states what a credential is.
--   Metrics  internal/metrics/metrics.go: the collector and `Finish`; Snapshot what the page reads,
--            Ring the list of recent events, Chart the last hour, Counters and Sorted the
--            tables, Traffic the requests that run side by side, call by call.
--   Config   internal/config/config.go: the record of settings; Normalize the two paths, the token
--            and the default hosts; Env the readers of single variables, with the sizes (Size); Load
--            the whole, with the shape of what it returns (Valid) and the least it asks for (Minimal).
--   Proxy    internal/proxy/proxy.go: `rewrite` (Rewrite), `modifyResponse` (Cleaned, Respond,
--            Delivered) and how a redirect comes back (FollowUp); Reverse is `New` and `ServeHTTP` with the reverse proxy
--            between the hooks, with the header that leaves (Fields), all that is sent (Sent) and what
--            the client gets (Answers, Ends). internal/proxy/redirect.go: Redirect, with the requests
--            that a chain sends (Trace, Chased, RoundTrip).
--   Ghcli    internal/ghcli/ghcli.go: the file of hosts (Hosts, Finds), and the credential under
--            `Load` and `Refresh` (Refresh).
--   Server   internal/server/server.go: `serve`, `ServeHTTP` and the status page's guard. Admitted
--            states which requests pass, Stealth and Redirects what they are answered with, Loaded
--            what holds with a configuration from `Load`, StatusPage who sees that page; Writer is
--            `countingWriter`, Observe the recording around a request.
--   Status   internal/status/status.go: the routes (Routes), and the text for Prometheus (Text) with its
--            labels (Label).
--   Main     cmd/gh-proxy/main.go and the status information of internal/server/server.go: the options
--            of the proxy, the credential that it sends (Sent), the admin listener and the health check
--            (Admin). Handle puts the server, the proxy and the status page together, with what GitHub
--            sees of a request (Guard, Closed). Boot is `run` up to the listeners, with whether it
--            listens and what it says then (Start); Run is `main`, `serve` and the rest of `run`: what
--            holds at every time (Reach), its end (Bound) and the exit code (Exit).
--   GoLib    what the code uses of net/url, strings, strconv, net/http and encoding/base64, as
--            documented.
--   Base     Boolean tests, options, byte texts and lists over the native numbers.
--
-- Texts are lists of bytes. What `strings` does to text with bytes beyond ASCII (case, folding and
-- white space of Unicode) is the parameter `Unicode`; within ASCII it is written out. The writer
-- under `countingWriter` is the parameter `ResponseWriter`, and what the reverse proxy and the
-- status page do to it is a list of calls. The transport under the one that follows redirects is the
-- parameter `Transport`, a step on a state of the world; the environment, the files and the parser of
-- durations are `Environment`; a run of the gh binary, the lookup of it and a file's content are `Gh`,
-- one for each time they are asked; how a listener or a shutdown ends, and when a signal comes, is
-- left open by the relation `Step`; the JSON encoder, the embedded page and the printing of floats
-- are `Render`. A context that a request carries is the field `info`. A Go pointer and an error are an
-- Option or a result type. uint64 counters and the in-flight gauge wrap at 2^64; the product in
-- `envBytes` wraps on int64; the count of recorded events, an int that starts at 0, does not wrap
-- here, nor do the sums of durations. Clock readings are arguments, in nanoseconds and in minutes after
-- 1970. Maps are association lists in the order of insertion, or the list of their keys; a duration in
-- milliseconds is kept in whole microseconds. The loops are over lists or a fixed number of slots or
-- rounds, so that no fuel is needed, but for the digits of a number, where the number itself is fuel
-- enough. A bound on redirects below 0, which `Load` refuses, stands for no round.
--
-- Not modelled: of httputil.ReverseProxy the flushes, trailers, informational responses and what
-- happens when a body breaks off, and the draining of a response before a redirect is followed (a
-- message is one step); what http.Transport does with its settings, which is the parameter `Network`;
-- what http.ServeMux does with a path that no pattern has; what a listener does between its start and
-- its end, and the texts on standard error (cmd/gh-proxy); log lines but for those of the start and
-- what they tell of a target or a credential. Of the locks nothing is left: each operation is one
-- step. The time that a comparison of tokens takes is not modelled.
pub mod Base
pub mod GoLib
pub mod Ghurl
pub mod Auth
pub mod Metrics
pub mod Config
pub mod Proxy
pub mod Ghcli
pub mod Server
pub mod Status
pub mod Main
