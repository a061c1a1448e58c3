-- ===== src/Proxy/Redirect.antt =====
-- internal/proxy/redirect.go: `followingTransport`, which follows redirects on the server's side.
-- The transport underneath belongs to net/http: an interface over the state of the world.
pub mod Trace
pub mod Chased
pub mod RoundTrip
use gh_proxy.Base.{
  ℕ, zero, suc, Bool, true, false, not, ◌&&◌, ◌||◌, Option, none, some, List, [], ◌∷◌, ◌++◌, any,
  if◌then◌else◌, Bytes, codes, same, is_empty, pos,
}
use gh_proxy.GoLib.Strings.{Unicode, to_lower, equal_fold}
use gh_proxy.GoLib.Url.{Url, hostname}
use gh_proxy.GoLib.Url.Resolve.{resolve}
use gh_proxy.GoLib.Header.{get, del}
use gh_proxy.Proxy.{
  Outgoing, Reply, is_redirect, Failure, transport_failed, unsupported_scheme, disallowed_host,
}

-- `http.RoundTripper`, with `none` for an error
pub record Transport (W : Type 0) : Type 0 where
  pub send : W → Outgoing → W × Option Reply

pub data Outcome : Type 0 where
  replied : Reply → Outcome
  failed : Failure → Outcome

-- What the loop of `RoundTrip` does with a response.
pub data Move : Type 0 where
  stay : Move
  refuse : Failure → Move
  hop : Url → Move

abbrev pub is_allowed : List Bytes → Bytes → Bool
is_allowed hosts h = any (λ x. same x h) hosts

module _ ⦃c : Unicode⦄ where
  -- The tests on the next URL.
  unfoldable pub judge : List Bytes → Url → Move
  unfolding same to_lower hostname
  judge hosts next =
      if not (same next.scheme (codes "http")) && not (same next.scheme (codes "https"))
      then refuse (unsupported_scheme next.scheme)
      else if not (is_allowed hosts (to_lower (hostname next)))
      then refuse (disallowed_host (hostname next))
      else hop next

  unfoldable pub next_move : List Bytes → Outgoing → Reply → Move
  unfolding is_redirect get resolve judge
  next_move hosts cur p =
      let loc = get p.header (codes "Location") in
      if not (is_redirect p.status) || is_empty loc
      then stay
      else elim (resolve cur.url loc) [ none ↦ stay | some next ↦ judge hosts next ]

  -- `nextRequest`
  unfoldable pub next_request : Outgoing → Url → Outgoing
  unfolding equal_fold hostname del
  next_request prev next = record prev {
    url = next;
    host = [];
    body = none;
    content_length = pos 0;
    header =
        if equal_fold (hostname prev.url) (hostname next)
        then prev.header
        else del prev.header (codes "Authorization");
  }

  module _ {W : Type 0} ⦃t : Transport W⦄ (hosts : List Bytes) where
    -- The loop, with the rounds that are left.
    unfoldable pub chase : ℕ → W → Outgoing → Reply → W × Outcome
    unfolding next_move next_request
    chase zero w cur p = (w, replied p)
    chase (suc k) w cur p = elim (next_move hosts cur p) [
      | stay ↦ (w, replied p)
      | refuse f ↦ (w, failed f)
      | hop next ↦
          let r = next_request cur next in
          let (w', answer) = t.send w r in
          elim answer [ none ↦ (w', failed transport_failed) | some q ↦ chase k w' r q ]
    ]

    -- `RoundTrip`
    unfoldable pub round_trip : ℕ → W → Outgoing → W × Outcome
    unfolding same chase
    round_trip max w req =
        let (w', answer) = t.send w req in
        elim answer [
          | none ↦ (w', failed transport_failed)
          | some p ↦
              if not (same req.method (codes "GET")) && not (same req.method (codes "HEAD"))
              then (w', replied p)
              else chase max w' req p
        ]
