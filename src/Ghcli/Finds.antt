-- ===== src/Ghcli/Finds.antt =====
-- internal/ghcli/ghcli.go: that `fromHostsFile` returns the credential of a host.
use gh_proxy.Base.{
  Bool, true, false, not, ◌&&◌, ◌||◌, some, List, [], ◌∷◌, ◌++◌, ◌≡◌, refl, ap, ◌∙◌, if◌then◌else◌,
  Bytes, codes, same, same_iff, is_empty, All,
}
use gh_proxy.GoLib.Strings.{Unicode, trim_space, trim_func, trim_suffix, equal_fold, cut, split}
use gh_proxy.Ghcli.{
  Gh, Found, found, clean, is_quote, Reading, go_on, done, read_line, read_lines, scan,
  from_hosts_file,
}
use gh_proxy.Ghcli.Hosts.{is_skipped, at_column_zero, Opens, Holds}

-- A line through the three tests of the loop, outside the block or inside
abbrev through : Bool → Bool → Bool → Bool → Bool → Found → Reading
through skip zero_column other head inside r =
    if skip
    then go_on inside
    else if zero_column
    then go_on head
    else if not inside
    then go_on inside
    else if other
    then go_on inside
    else done r

stays_out :
    (skip zero_column other head : Bool) (r : Found)
    → (not skip && (zero_column && head)) ≡ false
    → through skip zero_column other head false r ≡ go_on false
stays_out true z o h r e = refl
stays_out false true o h r e = ap go_on e
stays_out false false o h r e = refl

goes_in :
    (skip zero_column other head inside : Bool) (r : Found)
    → skip ≡ false
    → zero_column ≡ true
    → head ≡ true
    → through skip zero_column other head inside r ≡ go_on true
goes_in skip zero_column other head inside r e f g = rw (e, f, g) refl

stays_in :
    (skip zero_column other head : Bool) (r : Found)
    → (skip || (not zero_column && other)) ≡ true
    → through skip zero_column other head true r ≡ go_on true
stays_in true z o h r e = refl
stays_in false true o h r e = absurd cc
stays_in false false true h r e = refl
stays_in false false false h r e = absurd cc

returns :
    (skip zero_column other head : Bool) (r : Found)
    → skip ≡ false
    → zero_column ≡ false
    → other ≡ false
    → through skip zero_column other head true r ≡ done r
returns skip zero_column other head r e f g = rw (e, f, g) refl

neither : (a b : Bool) → a ≡ true → b ≡ true → (not a || not b) ≡ false
neither a b e f = rw (e, f) refl

module _ ⦃c : Unicode⦄ where
  abbrev key_of : Bytes → Bytes
  key_of line = (cut b':' (trim_space line)).0

  -- A line without the key of a token
  abbrev pub is_other : Bytes → Bool
  is_other line =
      not ((cut b':' (trim_space line)).2)
      || not (same (trim_space (key_of line)) (codes "oauth_token"))

  abbrev pub names_host : Bytes → Bytes → Bool
  names_host host line = equal_fold (trim_suffix (trim_space line) (codes ":")) host

  value_of : Bytes → Found
  value_of line = clean (trim_func is_quote (trim_space ((cut b':' (trim_space line)).1)))

  read_line_lem :
      (host : Bytes) (inside : Bool) (line : Bytes)
      → read_line host inside line
        ≡ through
            (is_skipped line)
            (at_column_zero line)
            (is_other line)
            (names_host host line)
            inside
            (value_of line)
  unfolding read_line value_of
  read_line_lem host inside line = refl

  -- No line opens a block of the host
  abbrev pub IsBefore : Bytes → List Bytes → Type 0
  IsBefore host = All (λ l. (not (is_skipped l) && (at_column_zero l && names_host host l)) ≡ false)

  -- Lines of one block without the key of a token
  abbrev pub IsWithin : List Bytes → Type 0
  IsWithin = All (λ l. (is_skipped l || (not (at_column_zero l) && is_other l)) ≡ true)

  read_lines-before :
      (host : Bytes) (failed : Bool) (before rest : List Bytes)
      → IsBefore host before
      → read_lines host failed false (before ++ rest) ≡ read_lines host failed false rest
  unfolding read_lines
  read_lines-before host failed [] rest h = refl
  read_lines-before host failed (l ∷ before) rest (h, hs) =
      let e =
        read_line_lem host false l
        ∙ stays_out (is_skipped l) (at_column_zero l) (is_other l) (names_host host l) (value_of l)
            h in
      rw (e, read_lines) (read_lines-before host failed before rest hs)

  read_lines-within :
      (host : Bytes) (failed : Bool) (within rest : List Bytes)
      → IsWithin within
      → read_lines host failed true (within ++ rest) ≡ read_lines host failed true rest
  unfolding read_lines
  read_lines-within host failed [] rest h = refl
  read_lines-within host failed (l ∷ within) rest (h, hs) =
      let e =
        read_line_lem host true l
        ∙ stays_in (is_skipped l) (at_column_zero l) (is_other l) (names_host host l) (value_of l)
            h in
      rw (e, read_lines) (read_lines-within host failed within rest hs)

  hits :
      (host line : Bytes) {token : Bytes}
      → is_skipped line ≡ false
      → Holds line token
      → read_line host true line ≡ done (found token)
  unfolding value_of
  hits host line skip (indented, key, value, pair, is_key, cleaned) =
      let key_lem : same (trim_space (key_of line)) (codes "oauth_token") ≡ true =
        (same_iff (trim_space (key_of line)) (codes "oauth_token")).1
          (ap (λ x. trim_space x.0) pair ∙ is_key) in
      let other = neither ((cut b':' (trim_space line)).2) _ (ap (λ x. x.2) pair) key_lem in
      let token_of = ap (λ x. clean (trim_func is_quote (trim_space x.1))) pair ∙ cleaned in
      read_line_lem host true line
      ∙ returns (is_skipped line) (at_column_zero line) (is_other line) (names_host host line)
          (value_of line) skip indented other
      ∙ ap done token_of

  -- Where the file can be opened and read in whole or in part, and its lines are some that open no
  -- block of the host, one that opens it, some of that block without the key, and one with the key and
  -- a token that is clean, `fromHostsFile` returns that token, whatever follows.
  pub from_hosts_file-found :
      (gh : Gh) (host path text : Bytes) (failed : Bool) (before : List Bytes) (head : Bytes)
      (within : List Bytes) (line : Bytes) (after : List Bytes) (token : Bytes)
      → is_empty path ≡ false
      → gh.read path ≡ some (text, failed)
      → (scan failed (split b'\n' text)).0 ≡ before ++ head ∷ (within ++ line ∷ after)
      → IsBefore host before
      → Opens host head
      → IsWithin within
      → is_skipped line ≡ false
      → Holds line token
      → from_hosts_file gh host path ≡ found token
  unfolding from_hosts_file
  from_hosts_file-found gh host path text failed before head within line after token named opened
        lines none_yet (plain, zero_column, same_host) inside shown held =
      let stopped = (scan failed (split b'\n' text)).1 in
      let rest = within ++ line ∷ after in
      let enters =
        read_line_lem host false head
        ∙ goes_in (is_skipped head) (at_column_zero head) (is_other head) (names_host host head)
            false (value_of head) plain zero_column same_host in
      let in_block : read_lines host stopped false (head ∷ rest)
          ≡ read_lines host stopped true rest =
        rw (enters, read_lines) refl in
      let at_line : read_lines host stopped true (line ∷ after) ≡ found token =
        rw (hits host line shown held, read_lines) refl in
      rw (named, opened, from_hosts_file)
        (ap (λ ls. read_lines host stopped false ls) lines
          ∙ read_lines-before host stopped before (head ∷ rest) none_yet
          ∙ in_block
          ∙ read_lines-within host stopped within (line ∷ after) inside
          ∙ at_line)
