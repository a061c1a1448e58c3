-- ===== src/Ghurl/Matchers.antt =====
-- internal/ghurl/ghurl.go: `Kind` and the path matchers. A matcher's result is the list of its
-- captured segments; `[]` is Go's nil.
use gh_proxy.Base.{
  Bool, not, ◌&&◌, ◌||◌, Option, none, some, List, [], ◌∷◌, ◌==◌, if◌then◌else◌, Bytes, codes, same,
  is_empty,
}
use gh_proxy.GoLib.Strings as Strings

pub data Kind : Type 0 where
  invalid release blob git tags raw gist : Kind

-- `Kind.String`
unfoldable pub kind_string : Kind → Bytes
kind_string release = codes "release"
kind_string blob = codes "blob"
kind_string git = codes "git"
kind_string tags = codes "tags"
kind_string raw = codes "raw"
kind_string gist = codes "gist"
kind_string _ = codes "invalid"

-- `cut`: before, after, found
unfoldable pub cut : Bytes → Bytes × Bytes × Bool
unfolding Strings.cut
cut = Strings.cut b'/'

-- What `firstSegment` does behind the leading slash.
unfoldable pub segment_of : Bytes × Bytes × Bool → Option (Bytes × Bytes)
segment_of (seg, rest, has_more) = if is_empty seg || not has_more then none else some (seg, rest)

-- `firstSegment`, with `none` for `ok == false`
unfoldable pub first_segment : Bytes → Option (Bytes × Bytes)
unfolding segment_of cut
first_segment [] = none
first_segment (c ∷ p) = if c == b'/' then segment_of (cut p) else none

-- What `ownerRepo` does behind the owner.
unfoldable pub repo_of : Bytes → Bytes × Bytes × Bool → Option (Bytes × Bytes × Bytes)
repo_of owner (repo, rest, has_more) =
    if is_empty repo || (not has_more || is_empty rest) then none else some (owner, repo, rest)

-- `ownerRepo`: owner, repo, rest
unfoldable pub owner_repo : Bytes → Option (Bytes × Bytes × Bytes)
unfolding first_segment repo_of cut
owner_repo p = elim (first_segment p) [
  | none ↦ none
  | some (owner, after) ↦ repo_of owner (cut after)
]

-- The common head and tail of the matchers: `accept` is the matcher's test on `rest`.
unfoldable pub owner_repo_if : (Bytes → Bool) → Bytes → List Bytes
unfolding owner_repo
owner_repo_if accept p = elim (owner_repo p) [
  | none ↦ []
  | some (o, r, rest) ↦ if accept rest then o ∷ r ∷ [] else []
]

-- `seg` is one of two words, and something follows it.
unfoldable pub word_and_tail : Bytes → Bytes → Bytes × Bytes × Bool → Bool
word_and_tail a b (seg, tail, has_more) =
    (same seg a || same seg b) && (has_more && not (is_empty tail))

unfoldable pub tail_of : Bytes × Bytes × Bool → Bool
tail_of (seg, tail, has_more) = has_more && not (is_empty tail)

unfoldable pub match_release : Bytes → List Bytes
unfolding owner_repo_if word_and_tail cut
match_release =
    owner_repo_if (λ rest. word_and_tail (codes "releases") (codes "archive") (cut rest))

unfoldable pub match_blob : Bytes → List Bytes
unfolding owner_repo_if word_and_tail cut
match_blob = owner_repo_if (λ rest. word_and_tail (codes "blob") (codes "raw") (cut rest))

unfoldable pub match_git : Bytes → List Bytes
unfolding owner_repo_if
match_git = owner_repo_if λ rest.
    same rest (codes "info/refs")
    || (same rest (codes "git-upload-pack") || same rest (codes "git-receive-pack"))

unfoldable pub match_tags : Bytes → List Bytes
unfolding owner_repo_if cut
match_tags = owner_repo_if (λ rest. same (cut rest).0 (codes "tags"))

unfoldable pub match_raw : Bytes → List Bytes
unfolding owner_repo_if tail_of cut
match_raw = owner_repo_if (λ rest. tail_of (cut rest))

unfoldable pub match_gist : Bytes → List Bytes
unfolding first_segment tail_of cut
match_gist p = elim (first_segment p) [
  | none ↦ []
  | some (o, rest) ↦ if tail_of (cut rest) then o ∷ [] else []
]
