-- ===== src/Server/Observe.antt =====
-- internal/server/server.go: `ServeHTTP`, from the start of the recording to its end.
pub mod Outcome
use gh_proxy.Base.{
  ℕ, ◌+◌, ◌%◌, ◌-◌, Bool, true, false, not, ◌&&◌, ◌||◌, Option, some, none, List, [], ◌∷◌, ◌≡◌, ◌⊎◌,
  ◌≢◌, inl, inr, refl, sym, ap, ◌∙◌, arith, if◌then◌else◌, Bytes, codes, Bool-cases, same, is_empty,
  get_or, length,
}
use mathlib.Core.Option
use gh_proxy.GoLib.Strings.{Unicode, cut_prefix}
use gh_proxy.GoLib.Url.{Url}
use gh_proxy.Ghurl.Target.{Target}
use gh_proxy.Ghurl.Matchers.{kind_string}
use gh_proxy.Ghurl.Parse.{parse_with_defaults}
use gh_proxy.Auth
use gh_proxy.Metrics
use gh_proxy.Metrics.{
  Metrics, Recorder, Closing, add64, u64, bump, status_class, start_recording, finish,
  finish_totals, finish_outcome, finish_target, finish_recent, finish_history, event_of, Event,
  zero_event, recent_cap, target, mark_preflight, deny,
}
use gh_proxy.Server.{
  Server, Request, Response, Answer, respond, forward, status_page, Gate, pass, denied, ◌>>=◌, ◌>>◌,
  guard, require, not_found, preflight, repo_name, is_method, lists_allow, authenticate, resolve,
  gate, answer, serve,
}
use gh_proxy.Server.Admitted.{Admits, gate_iff}
use gh_proxy.Server.Writer.{
  ResponseWriter, CountingWriter, counting, int64, Call, header, body, flushed, perform_all,
  perform, write_header, write, flush,
}

-- What an answer written by this package calls; `proxied` are the calls of the reverse proxy, and
-- `page` those of the status page.
abbrev pub calls_of : (Url → Bytes → List Call) → List Call → Answer → List Call
calls_of proxied page (respond a) =
    header a.status ∷ (if is_empty a.body then [] else body a.body ∷ [])
calls_of proxied page (forward u base) = proxied u base
calls_of proxied page status_page = page

-- The clock at the end of a request.
pub record End : Type 0 where
  pub now : ℕ
  pub minute : ℕ

-- The end of `ServeHTTP`: a recorder that is there is finished with what the writer counted.
unfoldable pub close : {W : Type 0} → Metrics → Option Recorder → CountingWriter W → End → Metrics
close m none c end = m
close m (some rec) c end =
    finish m rec
      (record { status = c.status; bytes = int64 c.written; now = end.now; minute = end.minute })

module _ ⦃c : Unicode⦄ {W : Type 0} ⦃i : ResponseWriter W⦄ where
  -- `ServeHTTP` of a server with a collector, off the status page.
  unfoldable pub observe :
      Server
      → Request
      → Metrics
      → ℕ
      → W
      → (Url → Bytes → List Call)
      → End
      → Metrics × CountingWriter W
  unfolding close
  observe s r m now w proxied end =
      let (m1, rec) = start_recording m now r.method in
      let (reply, rec1) = serve s r (some rec) in
      let cw = perform_all (counting w) (calls_of proxied [] reply) in (close m1 rec1 cw end, cw)
