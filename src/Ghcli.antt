-- ===== src/Ghcli.antt =====
-- internal/ghcli/ghcli.go: the credential for GitHub, read from the gh CLI. What a read finds, the
-- binary and its run and the file, belongs to the operating system: a value `Gh` for each read.
pub mod Hosts
pub mod Finds
pub mod Refresh
pub mod Sample
mod Tests
use gh_proxy.Base.{
  ℕ, ◌*◌, ◌^◌, Bool, true, false, not, ◌&&◌, ◌||◌, Option, none, some, List, [], ◌∷◌, ◌++◌, any,
  within, leb, ◌==◌, if◌then◌else◌, Bytes, codes, same, is_empty, length, ℤ, pos, negsuc,
}
use mathlib.Core.Option
use gh_proxy.GoLib.Strings.{
  Unicode, trim_space, trim_func, trim_left, trim_right, trim_suffix, has_prefix, equal_fold, cut,
  split,
}

-- `Options`, without the logger; a run of the binary that exceeds `timeout` is one that fails.
pub record Options : Type 0 where
  pub bin : Bytes
  pub host : Bytes
  pub config_dir : Bytes
  pub refresh : ℤ
  pub timeout : ℤ

-- How `cmd.Run` ends: its output, or an error's text and what was written to stderr
pub data Run : Type 0 where
  printed : Bytes → Run
  run_failed : Bytes → Bytes → Run

-- `exec.LookPath`, `cmd.Run`, `filepath.Join` of a directory and a name, and `os.Open` with the
-- reading behind it: a file's bytes, and whether the reading stopped at an error
pub record Gh : Type 0 where
  pub look_path : Bytes → Option Bytes
  pub run : Bytes → Bytes → Bytes → Run
  pub join : Bytes → Bytes → Bytes
  pub read : Bytes → Option (Bytes × Bool)

-- What `New` asks of the system: `os.Getenv`, `os.UserHomeDir` and `filepath.Join`
pub record System : Type 0 where
  pub getenv : Bytes → Bytes
  pub home : Option Bytes
  pub join : Bytes → Bytes → Bytes

-- `DefaultConfigDir`
unfoldable pub default_config_dir : System → Bytes
default_config_dir sys =
    if not (is_empty (sys.getenv (codes "GH_CONFIG_DIR")))
    then sys.getenv (codes "GH_CONFIG_DIR")
    else if not (is_empty (sys.getenv (codes "XDG_CONFIG_HOME")))
    then sys.join (sys.getenv (codes "XDG_CONFIG_HOME")) (codes "gh")
    else elim sys.home [ some h ↦ sys.join (sys.join h (codes ".config")) (codes "gh") | none ↦ [] ]

abbrev or_default : Bytes → Bytes → Bytes
or_default s def = if is_empty s then def else s

abbrev pub is_positive : ℤ → Bool
is_positive (pos n) = not (n == 0)
is_positive (negsuc n) = false

-- `New`: the options that the source reads with
unfoldable pub new_options : System → Options → Options
unfolding default_config_dir
new_options sys o = record {
  bin = or_default o.bin (codes "gh");
  host = or_default o.host (codes "github.com");
  config_dir = or_default o.config_dir (default_config_dir sys);
  refresh = o.refresh;
  timeout = if is_positive o.timeout then o.timeout else pos (5 * 10 ^ 9);
}

-- Why there is no credential.
pub data Trouble : Type 0 where
  empty_token bad_token no_directory not_opened read_failed no_oauth_token : Trouble
  gh_failed : Bytes → Trouble

pub data Found : Type 0 where
  found : Bytes → Found
  missing : Trouble → Found

-- What the loop over the file makes of a line: it goes on, inside a block of the host or not, or it
-- returns.
pub data Reading : Type 0 where
  go_on : Bool → Reading
  done : Found → Reading

-- A byte that may stand in the value of the header: from `!` to `~`. A rune beyond ASCII is none, and
-- neither is a byte of one.
abbrev pub is_visible : ℕ → Bool
is_visible = within b'!' b'~'

abbrev pub is_quote : ℕ → Bool
is_quote b = b == b'"' || b == b'\''

module _ ⦃c : Unicode⦄ where
  unfoldable pub clean : Bytes → Found
  unfolding trim_space
  clean text =
      let token = trim_space text in
      if is_empty token
      then missing empty_token
      else if any (λ b. not (is_visible b)) token
      then missing bad_token
      else found token

  -- `firstLine`
  unfoldable pub first_line : Bytes → Bytes
  unfolding trim_space cut
  first_line s = trim_space (cut b'\n' (trim_space s)).0

  -- The body of the loop of `fromHostsFile`
  unfoldable pub read_line : Bytes → Bool → Bytes → Reading
  unfolding trim_space has_prefix equal_fold trim_suffix cut same clean trim_left trim_right
  read_line host in_host line =
      let trimmed = trim_space line in
      let (key, value, colon) = cut b':' trimmed in
      if is_empty trimmed || has_prefix trimmed (codes "#")
      then go_on in_host
      else if not (has_prefix line (codes " ")) && not (has_prefix line (codes "\t"))
      then go_on (equal_fold (trim_suffix trimmed (codes ":")) host)
      else if not in_host
      then go_on in_host
      else if not colon || not (same (trim_space key) (codes "oauth_token"))
      then go_on in_host
      else done (clean (trim_func is_quote (trim_space value)))

  -- The loop of `fromHostsFile`; `failed` says that the scanner has stopped at an error.
  unfoldable pub read_lines : Bytes → Bool → Bool → List Bytes → Found
  unfolding read_line
  read_lines host failed in_host [] = if failed then missing read_failed else missing no_oauth_token
  read_lines host failed in_host (line ∷ lines) = elim (read_line host in_host line) [
    | go_on inside ↦ read_lines host failed inside lines
    | done r ↦ r
  ]

-- `bufio.Scanner` over lines: the lines and whether it stops at an error. A line of 65536 bytes is too
-- long, the last line may be unfinished, and a carriage return before the end of a line is dropped.
unfoldable pub scan : Bool → List Bytes → List Bytes × Bool
unfolding trim_suffix
scan failed [] = ([], failed)
scan failed (line ∷ []) =
    if is_empty line
    then ([], failed)
    else if leb (length line) 65535
    then (trim_suffix line (codes "\r") ∷ [], failed)
    else ([], true)
scan failed (line ∷ (next ∷ lines)) =
    let rest = scan failed (next ∷ lines) in
    if leb (length line) 65535 then (trim_suffix line (codes "\r") ∷ rest.0, rest.1) else ([], true)

module _ ⦃c : Unicode⦄ where
  -- `fromHostsFile`
  unfoldable pub from_hosts_file : Gh → Bytes → Bytes → Found
  unfolding split scan read_lines
  from_hosts_file gh host path =
      if is_empty path then missing no_directory else elim (gh.read path) [
        | none ↦ missing not_opened
        | some (text, failed) ↦
            let (lines, stopped) = scan failed (split b'\n' text) in
            read_lines host stopped false lines
      ]

  -- `fromBinary`
  unfoldable pub from_binary : Gh → Options → Bytes → Found
  unfolding first_line clean
  from_binary gh o bin = elim (gh.run bin o.host o.config_dir) [
    | printed out ↦ clean out
    | run_failed why stderr ↦
        let detail = first_line stderr in
        missing (gh_failed (if is_empty detail then why else detail))
  ]

  -- `hostsPath`
  unfoldable pub hosts_path : Gh → Options → Bytes
  hosts_path gh o = if is_empty o.config_dir then [] else gh.join o.config_dir (codes "hosts.yml")

  -- `fetch`, without the name of the source, which is only logged
  unfoldable pub fetch : Gh → Options → Found
  unfolding from_binary from_hosts_file hosts_path
  fetch gh o = elim (gh.look_path o.bin) [
    | some bin ↦ from_binary gh o bin
    | none ↦ from_hosts_file gh o.host (hosts_path gh o)
  ]

-- `Source`, with the options apart
pub record Source : Type 0 where
  pub token : Bytes

-- `store`: the source and whether the credential differs from the old one
unfoldable pub store : Source → Bytes → Source × Bool
unfolding same
store s token = (record s { token = token }, not (same s.token token))

-- `kind`, what a log line tells of a credential
unfoldable pub kind : Bytes → Bytes
unfolding cut
kind token =
    let (prefix, rest, underscore) = cut b'_' token in
    if underscore && not (is_empty prefix) then prefix else codes "opaque"

module _ ⦃c : Unicode⦄ where
  -- `Load`: the source, the error, and the kind that it logs
  unfoldable pub load : Options → Source → Gh → Source × (Option Trouble × Option Bytes)
  unfolding fetch store kind
  load o s gh = elim (fetch gh o) [
    | missing t ↦ (s, (some t, none))
    | found token ↦ ((store s token).0, (none, some (kind token)))
  ]

  -- `Refresh` at one tick of its clock: the source, and the kind of a new credential for the log
  unfoldable pub tick : Options → Source → Gh → Source × Option Bytes
  unfolding fetch store kind
  tick o s gh = elim (fetch gh o) [
    | missing t ↦ (s, none)
    | found token ↦
        let (s', changed) = store s token in (s', if changed then some (kind token) else none)
  ]

  -- The loop of `Refresh` over the ticks until its context is done
  unfoldable pub ticks : Options → Source → List Gh → Source
  unfolding tick
  ticks o s [] = s
  ticks o s (gh ∷ ghs) = ticks o (tick o s gh).0 ghs

  -- `Refresh`
  unfoldable pub refresh : Options → Source → List Gh → Source
  unfolding ticks
  refresh o s ghs = if is_positive o.refresh then ticks o s ghs else s
