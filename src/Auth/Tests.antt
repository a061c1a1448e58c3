-- ===== src/Auth/Tests.antt =====
-- Runs of internal/auth, and its properties at concrete requests.
use gh_proxy.Base.{codes, true, false, ◌≡◌, ◌↔◌, refl, [], ◌∷◌}
use gh_proxy.GoLib.Ascii.{plain}
use gh_proxy.GoLib.Header.{Header}
use gh_proxy.Auth.{Authenticator, new, check, match}
use gh_proxy.Auth.Credential.{Grants}
use gh_proxy.Auth.Credential.Decide.{check_iff}

abbrev gate_key : Authenticator
gate_key = new (codes "s3cret") false

-- `user:s3cret`
abbrev basic : Header
basic = (codes "Authorization", codes "basic dXNlcjpzM2NyZXQ=" ∷ []) ∷ []

check_tests :
    (check gate_key [] (codes "s3cret/cli/cli") ≡ (codes "cli/cli", true))
    × (check gate_key [] (codes "s3%63ret/cli/cli") ≡ (codes "cli/cli", true))
    × (check gate_key basic (codes "cli/cli") ≡ (codes "cli/cli", true))
    × (check gate_key [] (codes "cli/cli") ≡ (codes "cli/cli", false))
    × (check (new [] false) [] (codes "/cli/cli") ≡ (codes "/cli/cli", false))
    × (match gate_key (codes "s3cret") ≡ true)
unfolding check match
check_tests = (refl, refl, refl, refl, refl, refl)

check_iff_example :
    (check gate_key basic (codes "cli/cli") ≡ (codes "cli/cli", true))
    ↔ Grants gate_key basic (codes "cli/cli") (codes "cli/cli")
check_iff_example = check_iff gate_key basic (codes "cli/cli") (codes "cli/cli")
