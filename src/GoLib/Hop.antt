-- ===== src/GoLib/Hop.antt =====
-- What `net/http/httputil` does to the headers of one connection: the names in `Connection` and the
-- hop-by-hop headers of RFC 7230. A value of `Connection` is a list of tokens between commas.
use gh_proxy.Base.{
  ℕ, Bool, true, false, ◌||◌, List, [], ◌∷◌, ◌++◌, ◌≡◌, refl, ◌∙◌, map, any, all, within, ◌==◌,
  if◌then◌else◌, Bytes, codes, same, is_empty,
}
use gh_proxy.GoLib.Strings.{
  lower_byte, upper_byte, trim_func, trim_left, trim_right, contains_byte, split,
}
use gh_proxy.GoLib.Header.{Header, get, del, values, values-del}

-- A byte of a token in a header
abbrev pub is_token_byte : ℕ → Bool
is_token_byte b =
    within b'a' b'z' b
    || (within b'A' b'Z' b || (within b'0' b'9' b || contains_byte b (codes "!#$%&'*+-.^_`|~")))

-- The loop of `textproto.CanonicalMIMEHeaderKey`; `upper` says that the next letter is a capital.
unfoldable pub canonical_loop : Bool → Bytes → Bytes
unfolding upper_byte lower_byte
canonical_loop upper [] = []
canonical_loop upper (b ∷ name) =
    (if upper then upper_byte b else lower_byte b) ∷ canonical_loop (b == b'-') name

unfoldable pub canonical_key : Bytes → Bytes
unfolding canonical_loop
canonical_key name = if all is_token_byte name then canonical_loop true name else name

-- Tokens are compared without case, within ASCII.
unfoldable pub equal_ascii : Bytes → Bytes → Bool
unfolding same lower_byte
equal_ascii a b = same (map lower_byte a) (map lower_byte b)

-- `httpguts.HeaderValuesContainsToken`
unfoldable pub has_token : List Bytes → Bytes → Bool
unfolding equal_ascii split trim_left trim_right
has_token vs token =
    any
      (λ v.
        any (λ part. equal_ascii (trim_func (λ b. b == b' ' || b == 9) part) token) (split b',' v))
      vs

-- `ascii.IsPrint`
abbrev pub is_print : Bytes → Bool
is_print = all (within 32 126)

-- `upgradeType`
unfoldable pub upgrade_type : Header → Bytes
unfolding has_token values get
upgrade_type h =
    if has_token (values h (codes "Connection")) (codes "Upgrade")
    then get h (codes "Upgrade")
    else []

abbrev pub hop_headers : List Bytes
hop_headers =
    codes "Connection"
    ∷ (codes "Proxy-Connection"
        ∷ (codes "Keep-Alive"
            ∷ (codes "Proxy-Authenticate"
                ∷ (codes "Proxy-Authorization"
                    ∷ (codes "Te"
                        ∷ (codes "Trailer"
                            ∷ (codes "Transfer-Encoding" ∷ (codes "Upgrade" ∷ []))))))))

-- The names among the parts of a value of `Connection`, as `Header.Del` reads them
unfoldable pub named_in : List Bytes → List Bytes
unfolding canonical_key trim_left trim_right
named_in [] = []
named_in (part ∷ parts) =
    let name = trim_func (λ b. b == b' ' || (b == 9 || (b == 10 || b == 13))) part in
    let rest = named_in parts in if is_empty name then rest else canonical_key name ∷ rest

unfoldable pub connection_names : List Bytes → List Bytes
unfolding named_in split
connection_names [] = []
connection_names (v ∷ vs) = named_in (split b',' v) ++ connection_names vs

unfoldable pub del_all : List Bytes → Header → Header
unfolding del
del_all [] h = h
del_all (n ∷ ns) h = del_all ns (del h n)

-- `removeHopByHopHeaders`
unfoldable pub remove_hop_by_hop : Header → Header
unfolding del_all connection_names values
remove_hop_by_hop h =
    del_all hop_headers (del_all (connection_names (values h (codes "Connection"))) h)

or_else :
    (a b : Bool) (vs : List Bytes)
    → (if a then [] else if b then [] else vs) ≡ (if b || a then [] else vs)
or_else true true vs = refl
or_else true false vs = refl
or_else false true vs = refl
or_else false false vs = refl

pub values-del_all :
    (ns : List Bytes) (h : Header) (name : Bytes)
    → values (del_all ns h) name ≡ (if any (λ n. same n name) ns then [] else values h name)
unfolding del_all
values-del_all [] h name = refl
values-del_all (n ∷ ns) h name =
    values-del_all ns (del h n) name
    ∙ rw (values-del h n name) (or_else (any (λ m. same m name) ns) (same n name) (values h name))

-- A name that the hop-by-hop headers take with them
abbrev pub is_hop_by_hop : Header → Bytes → Bool
is_hop_by_hop h name =
    any (λ n. same n name) (connection_names (values h (codes "Connection")))
    || any (λ n. same n name) hop_headers

pub values-remove_hop_by_hop :
    (h : Header) (name : Bytes)
    → values (remove_hop_by_hop h) name ≡ (if is_hop_by_hop h name then [] else values h name)
unfolding remove_hop_by_hop
values-remove_hop_by_hop h name =
    let named = connection_names (values h (codes "Connection")) in
    values-del_all hop_headers (del_all named h) name
    ∙ rw (values-del_all named h name) (
        or_else (any (λ n. same n name) hop_headers) (any (λ n. same n name) named) (values h name))
