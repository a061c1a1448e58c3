-- ===== src/Server/Admitted/Stealth.antt =====
-- internal/server/server.go: what a request is answered with, admitted or not.
use gh_proxy.Base.{
  false, Option, ◌≡◌, ◌⊎◌, inl, inr, refl, sym, ◌∙◌, Bytes, codes, Bool-cases, is_empty,
  if◌then◌else◌, same,
}
use mathlib.Core.Option
use gh_proxy.GoLib.Strings.{Unicode}
use gh_proxy.Ghurl.Target.{Target}
use gh_proxy.Metrics
use gh_proxy.Metrics.{Recorder}
use gh_proxy.Server.{
  Server, Request, Answer, respond, forward, Gate, pass, denied, not_found, preflight, self_base,
  gate, answer, serve,
}
use gh_proxy.Server.Admitted.{Admits, IsAuthentic, gate_iff}
use gh_proxy.Server.Admitted.Reasons.{gate_denied}

-- The answer to an admitted request: the CORS preflight, or the reverse proxy.
unfoldable pub admitted : Server → Request → Target → Bytes → Answer
admitted s r t rest =
    if same r.method (codes "OPTIONS")
    then respond (preflight s.cfg)
    else forward t.url (self_base r.request_uri rest)

Gate-cases {ℓ} :
    {A : Type ℓ} (g : Gate A) → ((x : Bytes) × (g ≡ denied x)) ⊎ ((a : A) × (g ≡ pass a))
Gate-cases (denied x) = inl (x, refl)
Gate-cases (pass a) = inr (a, refl)

module _ ⦃c : Unicode⦄ (s : Server) (r : Request) (rec : Option Recorder) where
  pub serve-pass :
      (t : Target) (rest : Bytes)
      → gate s r ≡ pass (t, rest)
      → (serve s r rec).0 ≡ admitted s r t rest
  unfolding serve answer admitted
  serve-pass t rest h = elim (Bool-cases (same r.method (codes "OPTIONS"))) [
    | inl e ↦ rw (h, e) refl
    | inr e ↦ rw (h, e) refl
  ]

  serve-denied :
      (x : Bytes)
      → gate s r ≡ denied x
      → serve s r rec ≡ (respond not_found, Option.map (λ k. Metrics.deny k x) rec)
  unfolding serve answer
  serve-denied x h = rw h refl

  -- A request is admitted and answered accordingly, or it gets the one bare 404 and the recorder,
  -- where there is one, the reason.
  pub serve_lem :
      ((t : Target) × (rest : Bytes) × Admits s r t rest
        × ((serve s r rec).0 ≡ admitted s r t rest))
      ⊎ (((t : Target) (rest : Bytes) → ¬ Admits s r t rest)
          × ((x : Bytes) × (is_empty x ≡ false)
              × (serve s r rec ≡ (respond not_found, Option.map (λ k. Metrics.deny k x) rec))))
  serve_lem = elim (Gate-cases (gate s r)) [
    | inr ((t, rest), h) ↦ inl (t, rest, (gate_iff s r t rest).0 h, serve-pass t rest h)
    | inl (x, h) ↦ inr (
      λ t rest a. differ (sym h ∙ (gate_iff s r t rest).1 a),
      (x, gate_denied s x r h, serve-denied x h),
    )
  ]
    where
      differ : {x : Bytes} {p : Target × Bytes} → denied x ≡ pass p → ⊥
      differ e = cc

-- Two requests without a credential under the mount prefix are answered alike, and so is a
-- request for anything that the proxy does not serve.
pub serve-unadmitted :
    ⦃c : Unicode⦄ (s : Server) (r r' : Request) (rec rec' : Option Recorder)
    → ((rest : Bytes) → ¬ IsAuthentic s r rest)
    → ((t : Target) (rest : Bytes) → ¬ Admits s r' t rest)
    → (serve s r rec).0 ≡ (serve s r' rec').0
serve-unadmitted s r r' rec rec' h h' = left ∙ sym right
  where
    left : (serve s r rec).0 ≡ respond not_found
    left = elim (serve_lem s r rec) [
      | inl (t, rest, a, e) ↦ absurd (h rest a.authentic)
      | inr (n, (x, k, e)) ↦ λ i. (e i).0
    ]

    right : (serve s r' rec').0 ≡ respond not_found
    right = elim (serve_lem s r' rec') [
      | inl (t, rest, a, e) ↦ absurd (h' t rest a)
      | inr (n, (x, k, e)) ↦ λ i. (e i).0
    ]
