-- ===== src/Ghcli/Sample.antt =====
-- Sources of a credential, on which the properties are tried.
use gh_proxy.Base.{false, none, some, [], ◌∷◌, ◌++◌, Bytes, codes, pos, same, if◌then◌else◌}
use gh_proxy.Ghcli.{Options, Gh, Run, printed, System}

abbrev pub options : Options
options = record {
  bin = codes "gh";
  host = codes "github.com";
  config_dir = codes "/gh";
  refresh = pos 300;
  timeout = pos 5;
}

abbrev pub hosts_yml : Bytes
hosts_yml =
    codes "# gh\nghe.example:\n  oauth_token: gho_other\ngithub.com:\n  user: me\n\n"
    ++ codes "  oauth_token: \"gho_mine\"\r\n"

-- No binary, and that file.
abbrev pub file_only : Gh
file_only = record {
  look_path = λ b. none;
  run = λ b h d. printed [];
  join = λ d n. d ++ (b'/' ∷ n);
  read = λ p. if same p (codes "/gh/hosts.yml") then some (hosts_yml, false) else none;
}

-- A binary that ends in a given way.
abbrev pub binary : Run → Gh
binary r = record { look_path = λ b. some b; run = λ b h d. r; join = λ d n. d; read = λ p. none }

abbrev pub bare_system : System
bare_system = record {
  getenv = λ k. [];
  home = some (codes "/root");
  join = λ d n. d ++ (b'/' ∷ n);
}
