-- ===== src/Metrics/Chart/Record.antt =====
-- internal/metrics/metrics.go: `Finish` keeps the chart in step with the log of requests.
use gh_proxy.Metrics.{Metrics}
