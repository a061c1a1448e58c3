-- ===== src/Server/Observe/Outcome.antt =====
-- internal/server/server.go: what a request leaves in the collector.
use gh_proxy.Base.{ℕ, ◌%◌, false, some, List, ◌≡◌, inl, inr, refl, arith, Bytes, codes, is_empty}
use gh_proxy.GoLib.Strings.{Unicode}
use gh_proxy.GoLib.Url.{Url}
use gh_proxy.Ghurl.Target.{Target}
use gh_proxy.Metrics.{
  Metrics, Closing, add64, u64, bump, status_class, start_recording, finish, finish_totals,
  finish_outcome, finish_target, finish_recent, finish_history, deny,
}
use gh_proxy.Server.{Server, Request, respond, not_found, serve}
use gh_proxy.Server.Admitted.{Admits}
use gh_proxy.Server.Admitted.Stealth.{serve_lem}
use gh_proxy.Server.Writer.{ResponseWriter, Call, perform_all, perform, write_header, write}
use gh_proxy.Server.Observe.{End, close, observe}

-- What a denied request leaves: a denial and a status, and nothing that it asked for.
pub record OnlyDenied (m m' : Metrics) : Type 0 where
  pub denied_more : m'.denied ≡ add64 m.denied 1
  pub total_more : m'.total ≡ add64 m.total 1
  pub status_more : m'.status ≡ bump (codes "4xx") m.status
  pub proxied_kept : m'.proxied ≡ m.proxied
  pub preflight_kept : m'.preflight ≡ m.preflight
  pub kinds_kept : m'.kinds ≡ m.kinds
  pub repos_kept : m'.repos ≡ m.repos
  pub in_flight_kept : m'.in_flight ≡ m.in_flight % u64

finish-OnlyDenied :
    (m : Metrics) (now : ℕ) (method x : Bytes) (c : Closing)
    → is_empty x ≡ false
    → c.status ≡ 404
    → OnlyDenied m
        (finish (start_recording m now method).0 (deny (start_recording m now method).1 x) c)
unfolding finish finish_totals finish_outcome finish_target finish_recent finish_history
    start_recording deny status_class
finish-OnlyDenied m now method x c ne e =
    rw (ne, e)
      (record {
        denied_more = refl;
        total_more = refl;
        status_more = refl;
        proxied_kept = refl;
        preflight_kept = refl;
        kinds_kept = refl;
        repos_kept = refl;
        in_flight_kept = omega arith;
      })

module _ ⦃c : Unicode⦄ {W : Type 0} ⦃i : ResponseWriter W⦄ (w : W)
    (proxied : Url → Bytes → List Call) where
  observe_denied :
      (s : Server) (r : Request) (m : Metrics) (now : ℕ) (end : End) (x : Bytes)
      → is_empty x ≡ false
      → serve s r (some (start_recording m now r.method).1)
        ≡ (respond not_found, some (deny (start_recording m now r.method).1 x))
      → OnlyDenied m (observe s r m now w proxied end).0
  unfolding observe close perform_all perform write_header write
  observe_denied s r m now end x ne e = rw e (finish-OnlyDenied m now r.method x _ ne refl)

  -- A request that is not admitted moves the denials, the total and its status class, and leaves
  -- the kinds, the repositories and the other outcomes of the collector as they were.
  pub observe-OnlyDenied :
      (s : Server) (r : Request) (m : Metrics) (now : ℕ) (end : End)
      → ((t : Target) (rest : Bytes) → ¬ Admits s r t rest)
      → OnlyDenied m (observe s r m now w proxied end).0
  observe-OnlyDenied s r m now end h =
      elim (serve_lem s r (some (start_recording m now r.method).1)) [
        | inl (t, rest, a, e) ↦ absurd (h t rest a)
        | inr (n, (x, ne, e)) ↦ observe_denied s r m now end x ne e
      ]
