-- ===== src/Proxy/Redirect/Chased.antt =====
-- internal/proxy/redirect.go: what `RoundTrip` sends and returns, for every transport underneath.
use gh_proxy.Base.{
  ℕ, zero, suc, ◌≤◌, List, [], ◌∷◌, ◌++◌, ◌≡◌, ◌⊎◌, inl, inr, refl, sym, ap, ◌∙◌, arith,
  Option-cases, Bytes, length, append_assoc, append-nil,
}
use gh_proxy.GoLib.Strings.{Unicode}
use gh_proxy.GoLib.Url.{Url}
use gh_proxy.Proxy.{Outgoing, Reply}
use gh_proxy.Proxy.{Failure, transport_failed}
use gh_proxy.Proxy.Redirect.{
  Transport, Outcome, replied, failed, Move, stay, refuse, hop, next_move, next_request, chase,
}
use gh_proxy.Proxy.Redirect.Trace.{recording, last, IsHop, Hops, next_move-hop, next_request-IsHop}

pub replied_inj : {p q : Reply} → replied p ≡ replied q → p ≡ q
replied_inj e = cc

pub Move-cases :
    (m : Move) → (m ≡ stay) ⊎ (((f : Failure) × (m ≡ refuse f)) ⊎ ((u : Url) × (m ≡ hop u)))
Move-cases stay = inl refl
Move-cases (refuse f) = inr (inl (f, refl))
Move-cases (hop u) = inr (inr (u, refl))

module _ ⦃c : Unicode⦄ {W : Type 0} (t : Transport W) (hosts : List Bytes) where
  -- The end of a chain of `k` rounds at most that starts with `cur`: what was sent beyond the log,
  -- and why the response is the last one.
  pub record Chased (k : ℕ) (cur : Outgoing) (log : List Outgoing)
      (out : (W × List Outgoing) × Outcome) : Type 0 where
    pub sent : List Outgoing
    pub logged : out.0.1 ≡ log ++ sent
    pub hops : Hops hosts cur sent
    pub bounded : length sent ≤ k
    pub settled :
        (p : Reply)
        → out.1 ≡ replied p
        → (next_move hosts (last cur sent) p ≡ stay) ⊎ (length sent ≡ k)

  one_more :
      {k : ℕ} {log : List Outgoing} (cur r : Outgoing) {out : (W × List Outgoing) × Outcome}
      → IsHop hosts cur r
      → Chased k r (log ++ r ∷ []) out
      → Chased (suc k) cur log out
  one_more {k} {log} cur r h rest = record {
    sent = r ∷ rest.sent;
    logged = rest.logged ∙ append_assoc log (r ∷ []) rest.sent;
    hops = (h, rest.hops);
    bounded = omega (arith, rest.bounded);
    settled = λ q e. elim (rest.settled q e) [ inl f ↦ inl f | inr f ↦ inr (omega (arith, f)) ];
  }

  stopped :
      {k : ℕ} (log : List Outgoing) (cur : Outgoing) (w : W) (o : Outcome)
      → ((p : Reply) → o ≡ replied p → (next_move hosts cur p ≡ stay) ⊎ (0 ≡ k))
      → Chased k cur log ((w, log), o)
  stopped log cur w o settled = record {
    sent = [];
    logged = sym (append-nil log);
    hops = tt;
    bounded = omega arith;
    settled = settled;
  }

  pub chase_lem :
      (k : ℕ) (w : W) (log : List Outgoing) (cur : Outgoing) (p : Reply)
      → Chased k cur log (chase ⦃t = recording t⦄ hosts k (w, log) cur p)
  unfolding chase
  chase_lem zero w log cur p = stopped log cur w (replied p) (λ q e. inr refl)
  chase_lem (suc k) w log cur p = elim (Move-cases (next_move hosts cur p)) [
    | inl e ↦
        rw (e, chase)
          (stopped log cur w (replied p)
            (λ q f. inl (ap (next_move hosts cur) (replied_inj (sym f)) ∙ e)))
    | inr (inl (f, e)) ↦ rw (e, chase) (stopped log cur w (failed f) (λ q g. cc))
    | inr (inr (u, e)) ↦
        let r = next_request cur u in
        let h : IsHop hosts cur r = next_request-IsHop hosts cur u (next_move-hop hosts cur p e) in
        elim (Option-cases (t.send w r).1) [
          | inl g ↦
              rw (e, chase)
                (rw g (
                  one_more cur r h (
                    stopped (log ++ r ∷ []) r (t.send w r).0 (failed transport_failed)
                      (λ q k. cc))))
          | inr (q, g) ↦
              rw (e, chase)
                (rw g (one_more cur r h (chase_lem k (t.send w r).0 (log ++ r ∷ []) r q)))
        ]
  ]
