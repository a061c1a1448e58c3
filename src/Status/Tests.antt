-- ===== src/Status/Tests.antt =====
-- Runs of internal/status, and its properties at concrete requests and labels.
use gh_proxy.Base.{some, [], ◌∷◌, ◌++◌, ◌≡◌, refl, codes}
use gh_proxy.GoLib.Strconv.{decimal}
use gh_proxy.Status.{serve_http}
use gh_proxy.Status.Text.{quote, lines_of}
use gh_proxy.Status.Sample.{render, handler}
use gh_proxy.Status.Label.{read_label, quote-read_label}
use gh_proxy.Status.Routes.{Routed, serve_http-Routed}

page_tests :
    (decimal 1024 ≡ codes "1024")
    × (quote (codes "a\"b\\c\n") ≡ codes "\"a\\\"b\\\\c\\n\"")
    × (lines_of (codes "n") (codes "l") ((codes "x", 3) ∷ []) ≡ codes "n{l=\"x\"} 3\n")
    × ((serve_http handler (codes "GET") (codes "/json/") 5 0).body ≡ codes "{}")
    × ((serve_http handler (codes "HEAD") [] 5 0).status ≡ 200)
    × ((serve_http handler (codes "POST") [] 5 0).status ≡ 404)
    × ((serve_http handler (codes "GET") (codes "/x") 5 0).status ≡ 404)
unfolding decimal quote lines_of serve_http
page_tests = (refl, refl, refl, refl, refl, refl, refl)

quote-read_label_example :
    read_label (quote (codes "a\"} 1\n") ++ codes "} 2\n") ≡ some (codes "a\"} 1\n", codes "} 2\n")
quote-read_label_example = quote-read_label (codes "a\"} 1\n") (codes "} 2\n")

serve_http-Routed_example :
    Routed handler (codes "GET") (codes "/x") (serve_http handler (codes "GET") (codes "/x") 5 0)
serve_http-Routed_example = serve_http-Routed handler (codes "GET") (codes "/x") 5 0
