-- ===== src/Ghcli/Tests.antt =====
-- Runs of internal/ghcli, and its properties at concrete files and reads.
use gh_proxy.Base.{Bool, false, some, List, [], ◌∷◌, ◌≡◌, ◌⊎◌, refl, Bytes, codes, pos, All}
use gh_proxy.GoLib.Ascii.{plain}
use gh_proxy.GoLib.Strings.{split, trim_space, trim_suffix, has_prefix, equal_fold, cut}
use gh_proxy.Ghcli.{
  Gh, printed, run_failed, new_options, Trouble, found, missing, empty_token, bad_token,
  no_oauth_token, gh_failed, Source, kind, scan, clean, from_hosts_file, read_lines, fetch, ticks,
}
use gh_proxy.Ghcli.Sample.{options, hosts_yml, file_only, binary, bare_system}
use gh_proxy.Ghcli.Finds.{from_hosts_file-found}
use gh_proxy.Ghcli.Hosts.{HostToken, from_hosts_file-HostToken}
use gh_proxy.Ghcli.Refresh.{Latest, ticks-Latest}

fetch_tests :
    (fetch file_only options ≡ found (codes "gho_mine"))
    × (fetch file_only (record options { host = codes "GHE.example" }) ≡ found (codes "gho_other"))
    × (fetch file_only (record options { host = codes "other" }) ≡ missing no_oauth_token)
    × (fetch (binary (printed (codes "ghp_a\n"))) options ≡ found (codes "ghp_a"))
    × (fetch (binary (printed (codes " \n"))) options ≡ missing empty_token)
    × (fetch (binary (printed (codes "a\nb"))) options ≡ missing bad_token)
    × (fetch (binary (run_failed (codes "exit 1") (codes "\nno login\nmore"))) options
        ≡ missing (gh_failed (codes "no login")))
    × (kind (codes "gho_mine") ≡ codes "gho")
    × (kind (codes "mine") ≡ codes "opaque")
unfolding fetch kind
fetch_tests = (refl, refl, refl, refl, refl, refl, refl, refl, refl)

abbrev two_accounts : List Bytes
two_accounts =
    codes "github.com:"
    ∷ (codes "  users:"
        ∷ (codes "    old:"
            ∷ (codes "      oauth_token: gho_old"
                ∷ (codes "    me:"
                    ∷ (codes "      oauth_token: gho_me"
                        ∷ (codes "  user: me" ∷ (codes "  oauth_token: gho_me" ∷ [])))))))

-- Of two accounts the first one is taken, not the active one.
two_accounts_test :
    read_lines (codes "github.com") false false two_accounts ≡ found (codes "gho_old")
unfolding read_lines
two_accounts_test = refl

new_options_tests :
    (new_options bare_system (record {
      bin = [];
      host = [];
      config_dir = [];
      refresh = pos 0;
      timeout = pos 0;
    })).config_dir
    ≡ codes "/root/.config/gh"
unfolding new_options
new_options_tests = refl

from_hosts_file-HostToken_example :
    (text : Bytes) × (failed : Bool) × (file_only.read (codes "/gh/hosts.yml")
      ≡ some (text, failed))
    × HostToken (codes "github.com") (scan failed (split b'\n' text)).0 (codes "gho_mine")
unfolding from_hosts_file
from_hosts_file-HostToken_example =
    from_hosts_file-HostToken file_only (codes "github.com") (codes "/gh/hosts.yml")
      {token = codes "gho_mine"} refl

abbrev source : Source
source = record { token = [] }

abbrev reads : List Gh
reads = binary (printed (codes "gho_b")) ∷ (binary (run_failed (codes "exit 1") []) ∷ [])

ticks-Latest_example :
    (All (λ gh. (t : Trouble) × (fetch gh options ≡ missing t)) reads
      × (ticks options source reads ≡ source))
    ⊎ Latest options reads (ticks options source reads).token
ticks-Latest_example = ticks-Latest options source reads

from_hosts_file-found_example :
    from_hosts_file file_only (codes "github.com") (codes "/gh/hosts.yml")
    ≡ found (codes "gho_mine")
unfolding scan split clean trim_space trim_suffix has_prefix equal_fold cut
from_hosts_file-found_example =
    from_hosts_file-found file_only (codes "github.com") (codes "/gh/hosts.yml") hosts_yml false
      (codes "# gh" ∷ (codes "ghe.example:" ∷ (codes "  oauth_token: gho_other" ∷ [])))
      (codes "github.com:") (codes "  user: me" ∷ ([] ∷ [])) (codes "  oauth_token: \"gho_mine\"")
      [] (codes "gho_mine") refl refl refl (refl, (refl, (refl, tt))) (refl, refl, refl)
      (refl, (refl, tt)) refl (refl, codes "oauth_token", codes " \"gho_mine\"", refl, refl, refl)
