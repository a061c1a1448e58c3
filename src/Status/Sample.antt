-- ===== src/Status/Sample.antt =====
-- A handler of the page and a way to print its numbers, on which the properties are tried.
use gh_proxy.Base.{codes, some, [], pos, false}
use gh_proxy.GoLib.Strconv.{decimal}
use gh_proxy.Metrics
use gh_proxy.Status.{Handler, Render}

instance abbrev pub render : Render
render = record {
  marshal = λ s i b. some (codes "{}");
  page = codes "<html>";
  seconds = λ n. decimal n;
  count = λ n. decimal n;
  total_time = λ avg n. decimal avg;
}

abbrev pub handler : Handler
handler = record {
  metrics = Metrics.new (codes "v1") 0;
  info = record {
    prefix = codes "/p/";
    auth = codes "token";
    status_auth = codes "token";
    upstream = codes "none";
    allow_list = [];
    deny_list = [];
    default_hosts = [];
    size_limit = pos 0;
    max_redirects = pos 5;
    cors = false;
  };
  build = record {
    version = codes "v1";
    commit = [];
    branch = [];
    time = [];
    number = [];
    repo = codes "prettyleaf/gh-proxy";
  };
}
