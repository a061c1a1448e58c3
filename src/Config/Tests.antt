-- ===== src/Config/Tests.antt =====
-- Runs of internal/config, and its properties at concrete settings.
use gh_proxy.Base.{
  pos, negsuc, ◌^◌, ◌-◌, Bytes, codes, true, false, ◌≡◌, ◌↔◌, ◌⊎◌, ◌++◌, refl, [], ◌∷◌,
}
use gh_proxy.GoLib.Ascii.{plain}
use gh_proxy.GoLib.Strings.{trim_space, to_upper}
use gh_proxy.Auth.{new, check}
use gh_proxy.Config.Env.{getenv, size_of, env_bytes}
use gh_proxy.Config.Env.Size.{IsSize, env_bytes-IsSize}
use gh_proxy.Config.Load.{load}
use gh_proxy.Config.Load.Valid.{IsValid, load-IsValid}
use gh_proxy.Config.Load.Minimal.{only_token, defaults, load-only_token}
use gh_proxy.Config.Sample.{environment, loaded}
use gh_proxy.Config.Normalize.{
  not_a_number, negative, set_to, refused, token_missing, token_unsafe, prefix_empty_segment,
  status_is_root, host_unknown, normalize_prefix, normalize_status_path, check_token, default_hosts,
}
use gh_proxy.Config.Normalize.Token.{IsAccepted, check_token_iff, check-check_token}

abbrev long_token : Bytes
long_token = codes "0123456789abcdef"

setting_tests :
    (normalize_prefix (codes " gh ") ≡ set_to (codes "/gh/"))
    × (normalize_prefix (codes "a//b") ≡ refused (prefix_empty_segment (codes "/a//b/")))
    × (normalize_prefix [] ≡ set_to (codes "/"))
    × (normalize_status_path (codes "status//") ≡ set_to (codes "/status"))
    × (normalize_status_path (codes "//") ≡ refused (status_is_root (codes "//")))
    × (check_token [] false ≡ refused token_missing)
    × (check_token (codes "0123456789abcde/") false ≡ refused token_unsafe)
    × (default_hosts (codes "GitHub.com, raw.github.com")
        ≡ set_to (codes "github.com" ∷ (codes "raw.github.com" ∷ [])))
    × (default_hosts (codes "gitlab.com") ≡ refused (host_unknown (codes "gitlab.com")))
unfolding normalize_prefix normalize_status_path check_token default_hosts
setting_tests = (refl, refl, refl, refl, refl, refl, refl, refl, refl)

check_token_iff_example :
    (check_token long_token false ≡ set_to long_token) ↔ IsAccepted long_token false
check_token_iff_example = check_token_iff long_token false

check-check_token_example :
    check (new long_token false) [] (long_token ++ b'/' ∷ codes "cli/cli") ≡ (codes "cli/cli", true)
unfolding check_token
check-check_token_example = check-check_token long_token (codes "cli/cli") [] refl

load_test : load ≡ set_to loaded
unfolding load
load_test = refl

load-IsValid_example : IsValid loaded
load-IsValid_example = load-IsValid {cfg = loaded} load_test

abbrev size_key : Bytes
size_key = codes "GHP_SIZE_LIMIT"

-- A size of 2^34 GB is read as no limit, and half of it as a negative one.
size_tests :
    (size_of size_key (codes "17179869184GB") ≡ set_to (pos 0))
    × (size_of size_key (codes "8589934592GB") ≡ set_to (negsuc (2 ^ 63 - 1)))
    × (size_of size_key (codes "1.5G") ≡ refused (not_a_number size_key))
    × (size_of size_key (codes "-1") ≡ refused (negative size_key))
unfolding size_of
size_tests = (refl, refl, refl, refl)

env_bytes-IsSize_example :
    let text = trim_space (to_upper (getenv size_key)) in
    ((text ≡ []) × (pos 2048 ≡ pos 0)) ⊎ IsSize text (pos 2048)
unfolding env_bytes
env_bytes-IsSize_example = env_bytes-IsSize size_key {z = pos 2048} refl

load-only_token_example : load ⦃e = only_token long_token⦄ ≡ set_to (defaults long_token)
unfolding check_token trim_space
load-only_token_example =
    load-only_token long_token ((check_token_iff long_token false).0 refl) refl
