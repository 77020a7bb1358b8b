-- ===== src/Tests/Metrics.antt =====
-- Metrics of a handler that panics.
use expedit.Prelude.{◌+◌, ◌≡◌, refl, Option, none, some, List, [], ◌∷◌}
use expedit.Go.Value.{Error, nil, str}
use expedit.Go.Context.{background}
use expedit.Message.{Message}
use expedit.Handler.{Run, ok, panicked, Handler, final}
use expedit.Prometheus.{
  Labels, Counter, Histogram, Vec, prometheus_metrics_count_vec, prometheus_metrics_duration_vec,
}
use expedit.Prometheus.Recording.{
  Sample, counted, observed, Records, outcome, panicking, metrics_recorded,
}

abbrev counter : Labels → Counter (List Sample)
counter l = record { inc = λ s. record s { world = counted l ∷ s.world } }

abbrev histogram : Labels → Histogram (List Sample)
histogram l = record { observe = λ d s. record s { world = observed l d ∷ s.world } }

abbrev counters : Vec (List Sample) (Counter (List Sample))
counters = record { with_labels = λ l s. ok (counter l) s }

abbrev histograms : Vec (List Sample) (Histogram (List Sample))
histograms = record { with_labels = λ l s. ok (histogram l) s }

abbrev labels : Message → Option Error → Labels
labels msg none = ("id", msg.id) ∷ []
labels msg (some e) = ("id", "failed") ∷ []

records : Records (λ w. w) counters histograms
records = record {
  counter = counter;
  histogram = histogram;
  has_counter = λ l s. refl;
  has_histogram = λ l s. refl;
  counts = λ l s. refl;
  observes = λ l d s. refl;
  same_clock = λ l s. refl;
  same_message = λ l s. refl;
}

-- It panics after 3 nanoseconds.
abbrev slow : Handler (List Sample)
slow s = panicked (str "boom") (record s { now = s.now + 3 })

abbrev before : Run (List Sample)
before = record {
  message = record { id = "9"; metadata = none; payload = nil; ctx = background };
  world = [];
  now = 100;
  next_scope = 0;
  cancelled = [];
}

metrics_recorded_example :
    let both =
      prometheus_metrics_duration_vec histograms labels
        (prometheus_metrics_count_vec counters labels slow)
        before in
    (outcome both ≡ panicking (str "boom"))
    × ((final both).world ≡ observed (("id", "9") ∷ []) 3 ∷ counted (("id", "9") ∷ []) ∷ [])
metrics_recorded_example = metrics_recorded (λ w. w) counters histograms labels records slow before
