-- ===== src/Config/Normalize/Hosts.antt =====
-- internal/config/config.go: the default hosts.
use gh_proxy.Base.{true, List, [], ◌∷◌, ◌++◌, ◌≡◌, inl, inr, Bool-cases, Bytes, All, All-append}
use gh_proxy.GoLib.Strings.{Unicode, to_lower}
use gh_proxy.Ghurl.Target.{supported_host}
use gh_proxy.Config.Normalize.{clash, set_inj, set_to, known_hosts, split_list, default_hosts}

module _ ⦃c : Unicode⦄ where
  abbrev pub IsSupported : Bytes → Type 0
  IsSupported h = supported_host h ≡ true

  known_hosts-IsSupported :
      (hs out : List Bytes) {r : List Bytes}
      → All IsSupported out
      → known_hosts hs out ≡ set_to r
      → All IsSupported r
  unfolding known_hosts
  known_hosts-IsSupported [] out good h = rw (← set_inj h) good
  known_hosts-IsSupported (x ∷ hs) out good h = elim (Bool-cases (supported_host (to_lower x))) [
    | inl e ↦
        known_hosts-IsSupported hs (out ++ to_lower x ∷ [])
          (All-append IsSupported out (to_lower x ∷ []) good (e, tt)) (rw (e, known_hosts) at h)
    | inr e ↦ absurd (clash (rw (e, known_hosts) at h))
  ]

  -- Every default host that `Load` accepts is a host that the proxy may ask.
  pub default_hosts-IsSupported :
      (v : Bytes) {hs : List Bytes} → default_hosts v ≡ set_to hs → All IsSupported hs
  unfolding default_hosts
  default_hosts-IsSupported v h = known_hosts-IsSupported (split_list v) [] tt h
