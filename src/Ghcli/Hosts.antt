-- ===== src/Ghcli/Hosts.antt =====
-- internal/ghcli/ghcli.go: whose credential `fromHostsFile` returns.
use gh_proxy.Base.{
  Bool, true, false, not, ◌&&◌, ◌||◌, some, List, [], ◌∷◌, ◌++◌, ◌≡◌, ◌⊎◌, inl, inr, refl, sym, ap,
  if◌then◌else◌, Bool-cases, Option-cases, Bytes, codes, same, same_iff, is_empty, append_assoc,
}
use mathlib.Core.Path.{subst}
use gh_proxy.GoLib.Strings.{
  Unicode, trim_space, trim_func, trim_suffix, has_prefix, equal_fold, cut, split,
}
use gh_proxy.Ghcli.{
  Gh, Trouble, from_hosts_file, scan, Found, found, missing, read_failed, no_oauth_token, clean,
  is_quote, Reading, go_on, done, read_line, read_lines,
}

-- Which way a line goes through the three tests of the loop.
routes :
    (skip zero_column outside other head inside : Bool) (r : Found) (x : Reading)
    → (if skip
        then go_on inside
        else if zero_column
        then go_on head
        else if outside
        then go_on inside
        else if other
        then go_on inside
        else done r)
      ≡ x
    → (((skip || not zero_column) ≡ true) × (x ≡ go_on inside))
      ⊎ (((skip ≡ false) × (zero_column ≡ true) × (x ≡ go_on head))
          ⊎ ((skip ≡ false)
              × (zero_column ≡ false)
              × (outside ≡ false)
              × (other ≡ false)
              × (x ≡ done r)))
routes true z o p head inside r x h = inl (refl, sym h)
routes false true o p head inside r x h = inr (inl (refl, refl, sym h))
routes false false true p head inside r x h = inl (refl, sym h)
routes false false false true head inside r x h = inl (refl, sym h)
routes false false false false head inside r x h = inr (inr (refl, refl, refl, refl, sym h))

end_of_file :
    (b : Bool) {token : Bytes}
    → (if b then missing read_failed else missing no_oauth_token) ≡ found token
    → ⊥
end_of_file true k = cc
end_of_file false k = cc

both_true : (a b : Bool) → (not a || not b) ≡ false → (a ≡ true) × (b ≡ true)
both_true true true h = (refl, refl)
both_true true false h = absurd cc
both_true false b h = absurd cc

is_true : (a : Bool) → not a ≡ false → a ≡ true
is_true true h = refl
is_true false h = absurd cc

module _ ⦃c : Unicode⦄ where
  -- A blank line or a comment
  abbrev pub is_skipped : Bytes → Bool
  is_skipped line = is_empty (trim_space line) || has_prefix (trim_space line) (codes "#")

  abbrev pub at_column_zero : Bytes → Bool
  at_column_zero line = not (has_prefix line (codes " ")) && not (has_prefix line (codes "\t"))

  -- A line that opens the block of a host
  abbrev pub Opens : Bytes → Bytes → Type 0
  Opens host line =
      (is_skipped line ≡ false)
      × (at_column_zero line ≡ true)
      × (equal_fold (trim_suffix (trim_space line) (codes ":")) host ≡ true)

  -- Lines that end inside the block of a host: one that opens it is followed by none at column zero
  -- but blanks and comments.
  pub data InBlock (host : Bytes) : List Bytes → Type 0 where
    opened :
        (before : List Bytes) (line : Bytes) → Opens host line → InBlock host (before ++ line ∷ [])
    goes_on :
        (before : List Bytes) (line : Bytes)
        → InBlock host before
        → (is_skipped line || not (at_column_zero line)) ≡ true
        → InBlock host (before ++ line ∷ [])

  -- An indented line with the key and a token as its value, cleaned
  abbrev pub Holds : Bytes → Bytes → Type 0
  Holds line token =
      (at_column_zero line ≡ false)
      × (key : Bytes) × (value : Bytes) × (cut b':' (trim_space line) ≡ (key, value, true))
      × (trim_space key ≡ codes "oauth_token")
      × (clean (trim_func is_quote (trim_space value)) ≡ found token)

  -- A line of the file that holds the token, and what stands before it.
  pub record HostToken (host : Bytes) (lines : List Bytes) (token : Bytes) : Type 0 where
    pub before : List Bytes
    pub line : Bytes
    pub after : List Bytes
    pub split : lines ≡ before ++ line ∷ after
    pub in_block : InBlock host before
    pub holds : Holds line token

  read_lines_lem :
      (host : Bytes) (failed inside : Bool) (seen lines : List Bytes) {token : Bytes}
      → (inside ≡ true → InBlock host seen)
      → read_lines host failed inside lines ≡ found token
      → HostToken host (seen ++ lines) token
  unfolding read_lines read_line
  read_lines_lem host failed inside seen [] block h = absurd (end_of_file failed h)
  read_lines_lem host failed inside seen (line ∷ lines) {token} block h =
      let line_route =
        routes (is_skipped line) (at_column_zero line) (not inside)
          (not colon || not (same (trim_space key) (codes "oauth_token")))
          (equal_fold (trim_suffix (trim_space line) (codes ":")) host) inside
          (clean (trim_func is_quote (trim_space value))) (read_line host inside line) refl in
      elim line_route [
        | inl (kept, e) ↦
            subst (λ ls. HostToken host ls token) (append_assoc seen (line ∷ []) lines)
              (read_lines_lem host failed inside (seen ++ line ∷ []) lines
                (λ i. goes_on seen line (block i) kept) (rw (e, read_lines) at h))
        | inr (inl (plain, zero_column, e)) ↦
            subst (λ ls. HostToken host ls token) (append_assoc seen (line ∷ []) lines)
              (read_lines_lem host failed
                (equal_fold (trim_suffix (trim_space line) (codes ":")) host) (seen ++ line ∷ [])
                lines (λ i. opened seen line (plain, zero_column, i)) (rw (e, read_lines) at h))
        | inr (inr (plain, indented, within, other, e)) ↦
            let (has_colon, is_key) =
              both_true colon (same (trim_space key) (codes "oauth_token")) other in
            record {
              before = seen;
              line = line;
              after = lines;
              split = refl;
              in_block = block (is_true inside within);
              holds = (
                indented,
                key,
                value,
                ap (λ b. (key, value, b)) has_colon,
                (same_iff (trim_space key) (codes "oauth_token")).0 is_key,
                rw (e, read_lines) at h,
              );
            }
      ]
    where
      key : Bytes
      key = (cut b':' (trim_space line)).0

      value : Bytes
      value = (cut b':' (trim_space line)).1

      colon : Bool
      colon = (cut b':' (trim_space line)).2

  -- A credential that `fromHostsFile` returns stands in the file, in a block of the host asked for:
  -- the file can be opened, its lines hold one with the key and that value, and between it and the
  -- line that opens the block of that host no other line stands at column zero.
  pub from_hosts_file-HostToken :
      (gh : Gh) (host path : Bytes) {token : Bytes}
      → from_hosts_file gh host path ≡ found token
      → (text : Bytes) × (failed : Bool) × (gh.read path ≡ some (text, failed))
        × HostToken host (scan failed (split b'\n' text)).0 token
  unfolding from_hosts_file
  from_hosts_file-HostToken gh host path {token} h = elim (Bool-cases (is_empty path)) [
    | inl e ↦ absurd (nowhere (rw (e, from_hosts_file) at h))
    | inr e ↦ elim (Option-cases (gh.read path)) [
      | inl f ↦ absurd (nowhere (rw (e, f, from_hosts_file) at h))
      | inr (file, f) ↦ (
        file.0,
        file.1,
        f,
        read_lines_lem host (scan file.1 (split b'\n' file.0)).1 false []
            (scan file.1 (split b'\n' file.0)).0 (λ i. absurd cc) (rw (e, f, from_hosts_file) at h),
      )
    ]
  ]
    where
      nowhere : {t : Trouble} → missing t ≡ found token → ⊥
      nowhere k = cc
