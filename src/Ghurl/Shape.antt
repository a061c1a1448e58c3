-- ===== src/Ghurl/Shape.antt =====
-- The path grammar of each kind of URL that internal/ghurl/ghurl.go names, written apart from the
-- matchers.
mod Segments
pub mod Decide
use gh_proxy.Base.{
  ℕ, Bool, true, false, not, ◌&&◌, ◌||◌, Option, none, some, List, [], ◌∷◌, ◌++◌, ◌≡◌, ◌≢◌, refl,
  ap, ap₂, sym, ◌∙◌, arith, ◌==◌, if◌then◌else◌, ◌⊎◌, inl, inr, ◌↔◌, Bool-cases, Option-cases,
  Bytes, Lacks, All, codes, same, same_iff, same_refl, is_empty,
}
use gh_proxy.GoLib.Strings.Cut.{IsCut, IsCut-found, cut-IsCut, cut-append, cut-Lacks}
use gh_proxy.Ghurl.Matchers.{
  Kind, invalid, release, blob, git, tags, raw, gist, cut, first_segment, owner_repo, owner_repo_if,
  segment_of, repo_of, word_and_tail, tail_of, match_release, match_blob, match_git, match_tags,
  match_raw, match_gist,
}

-- One non-empty path segment.
abbrev pub IsSegment : Bytes → Type 0
IsSegment s = (s ≢ []) × Lacks b'/' s

-- `/a/rest`
abbrev pub slash : Bytes → Bytes → Bytes
slash a rest = b'/' ∷ (a ++ rest)

-- `word/tail` with a non-empty tail
abbrev pub Follows : Bytes → Bytes → Type 0
Follows word rest = (tail : Bytes) × (tail ≢ []) × (rest ≡ word ++ b'/' ∷ tail)

-- `any/tail` with a non-empty tail; the segment before it may be empty
abbrev pub HasTail : Bytes → Type 0
HasTail rest = (ref : Bytes) × Lacks b'/' ref × Follows ref rest

-- `tags`, or anything below it
abbrev pub TagsRest : Bytes → Type 0
TagsRest rest = (rest ≡ codes "tags") ⊎ ((tail : Bytes) × (rest ≡ codes "tags" ++ b'/' ∷ tail))

-- What stands behind `/owner/repo/`, by kind.
abbrev pub Rest : Kind → Bytes → Type 0
Rest release rest = Follows (codes "releases") rest ⊎ Follows (codes "archive") rest
Rest blob rest = Follows (codes "blob") rest ⊎ Follows (codes "raw") rest
Rest git rest =
    (rest ≡ codes "info/refs")
    ⊎ ((rest ≡ codes "git-upload-pack") ⊎ (rest ≡ codes "git-receive-pack"))
Rest tags rest = TagsRest rest
Rest raw rest = HasTail rest
Rest _ rest = ⊥

-- The paths of a kind, with the owner and the repository that they name.
abbrev pub Shape : Kind → Bytes → Bytes → Bytes → Type 0
Shape gist p o r = (rest : Bytes) × (p ≡ slash o (b'/' ∷ rest)) × IsSegment o × HasTail rest
Shape k p o r =
    (rest : Bytes) × (p ≡ slash o (slash r (b'/' ∷ rest))) × IsSegment o × IsSegment r × Rest k rest
