-- ===== src/Prometheus.antt =====
-- prometheus/middleware/metrics.go. What the code uses of the prometheus library are two records.
pub mod Recording
use expedit.Prelude.{ℕ, ◌-◌, String, Option, none, some, Map}
use expedit.Go.Value.{Error, Value}
use expedit.Message.{Message}
use expedit.Handler.{Run, Ret, ok, failed, panicked, Call, Handler}
use expedit.Middleware.Chain.{Middleware}

-- prometheus.Labels
abbrev pub Labels : Type 0
Labels = Map String

abbrev pub PrometheusLabelsProducer : Type 0
PrometheusLabelsProducer = Message → Option Error → Labels

pub record Counter (W : Type 0) : Type 0 where
  pub inc : Run W → Run W

-- `Observe` of the seconds that a duration in nanoseconds is.
pub record Histogram (W : Type 0) : Type 0 where
  pub observe : ℕ → Run W → Run W

-- CounterVec and HistogramVec: `With` panics if the labels are not those of the metric.
pub record Vec (W M : Type 0) : Type 0 where
  pub with_labels : Labels → Call W M

-- The deferred function has run; a panic of its own replaces what was there.
abbrev pub still_failed : {W : Type 0} → Error → Ret W (Unit {0}) → Ret W (Unit {0})
still_failed e (ok a s) = failed e s
still_failed e (failed e' s) = failed e s
still_failed e (panicked v s) = panicked v s

abbrev pub still_panicked : {W : Type 0} → Value → Ret W (Unit {0}) → Ret W (Unit {0})
still_panicked v (ok a s) = panicked v s
still_panicked v (failed e s) = panicked v s
still_panicked v (panicked v' s) = panicked v' s

-- A deferred function that reads the named result `err`, which is nil when the handler panics.
abbrev pub then_defer :
    {W : Type 0} → (Option Error → Handler W) → Ret W (Unit {0}) → Ret W (Unit {0})
then_defer f (ok a s) = f none s
then_defer f (failed e s) = still_failed e (f (some e) s)
then_defer f (panicked v s) = still_panicked v (f none s)

-- `….With(labels).Inc()` and `….With(labels).Observe(…)`.
abbrev pub with_metric : {W M : Type 0} → (M → Run W → Run W) → Ret W M → Ret W (Unit {0})
with_metric use_it (ok m s) = ok tt (use_it m s)
with_metric use_it (failed e s) = failed e s
with_metric use_it (panicked v s) = panicked v s

unfoldable pub prometheus_metrics_count : {W : Type 0} → Counter W → Middleware W
prometheus_metrics_count counter next s = then_defer (λ err t. ok tt (counter.inc t)) (next s)

unfoldable pub prometheus_metrics_count_vec :
    {W : Type 0} → Vec W (Counter W) → PrometheusLabelsProducer → Middleware W
prometheus_metrics_count_vec counter labels_producer next s =
    then_defer
      (λ err t. with_metric (λ c. c.inc) (counter.with_labels (labels_producer t.message err) t))
      (next s)

unfoldable pub prometheus_metrics_duration : {W : Type 0} → Histogram W → Middleware W
prometheus_metrics_duration histogram next s =
    let start = s.now in then_defer (λ err t. ok tt (histogram.observe (t.now - start) t)) (next s)

unfoldable pub prometheus_metrics_duration_vec :
    {W : Type 0} → Vec W (Histogram W) → PrometheusLabelsProducer → Middleware W
prometheus_metrics_duration_vec histogram labels_producer next s =
    let start = s.now in
    then_defer
      (λ err t.
        with_metric (λ h u. h.observe (u.now - start) u)
          (histogram.with_labels (labels_producer t.message err) t))
      (next s)
