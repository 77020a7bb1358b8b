-- ===== src/Prometheus/Recording.antt =====
-- What the metrics have recorded when the handler has ended.
use expedit.Prelude.{ℕ, ◌-◌, ◌≡◌, refl, ap, ◌∙◌, Option, none, some, List, ◌∷◌}
use expedit.Go.Value.{Error, Value}
use expedit.Handler.{Run, Ret, ok, failed, panicked, Handler, final, error_of}
use expedit.Prometheus.{
  Labels, PrometheusLabelsProducer, Counter, Histogram, Vec, then_defer, still_failed,
  still_panicked, with_metric, prometheus_metrics_count_vec, prometheus_metrics_duration_vec,
}

-- An increment, or the duration that was observed, with its labels.
pub data Sample : Type 0 where
  counted : Labels → Sample
  observed : Labels → ℕ → Sample

-- The metrics take all labels, keep what they record in a part of the world, and leave the clock.
pub record Records {W : Type 0} (log : W → List Sample) (counters : Vec W (Counter W))
    (histograms : Vec W (Histogram W)) : Type 0 where
  pub counter : Labels → Counter W
  pub histogram : Labels → Histogram W
  pub has_counter : (l : Labels) (s : Run W) → counters.with_labels l s ≡ ok (counter l) s
  pub has_histogram : (l : Labels) (s : Run W) → histograms.with_labels l s ≡ ok (histogram l) s
  pub counts : (l : Labels) (s : Run W) → log ((counter l).inc s).world ≡ counted l ∷ log s.world
  pub observes :
      (l : Labels) (d : ℕ) (s : Run W)
      → log ((histogram l).observe d s).world ≡ observed l d ∷ log s.world
  pub same_clock : (l : Labels) (s : Run W) → ((counter l).inc s).now ≡ s.now
  pub same_message : (l : Labels) (s : Run W) → ((counter l).inc s).message ≡ s.message

-- How a call ends, without its state.
pub data Outcome : Type 0 where
  returned : Option Error → Outcome
  panicking : Value → Outcome

abbrev pub outcome : {W : Type 0} → Ret W (Unit {0}) → Outcome
outcome (ok a s) = returned none
outcome (failed e s) = returned (some e)
outcome (panicked v s) = panicking v

module _ {W : Type 0} where
  -- The same end, in another state.
  abbrev ends_in : (Run W → Run W) → Ret W (Unit {0}) → Ret W (Unit {0})
  ends_in g (ok a s) = ok tt (g s)
  ends_in g (failed e s) = failed e (g s)
  ends_in g (panicked v s) = panicked v (g s)

  -- A deferred function that returns nil runs on the final state, and the call ends as before.
  then_defer-ends :
      (f : Option Error → Handler W) (g : Run W → Run W) (r : Ret W (Unit {0}))
      → f (error_of r) (final r) ≡ ok tt (g (final r))
      → then_defer f r ≡ ends_in g r
  then_defer-ends f g (ok a s) e = e
  then_defer-ends f g (failed x s) e = ap (still_failed x) e
  then_defer-ends f g (panicked v s) e = ap (still_panicked v) e

  error_of-ends : (g : Run W → Run W) (r : Ret W (Unit {0})) → error_of (ends_in g r) ≡ error_of r
  error_of-ends g (ok a s) = refl
  error_of-ends g (failed x s) = refl
  error_of-ends g (panicked v s) = refl

  final-ends : (g : Run W → Run W) (r : Ret W (Unit {0})) → final (ends_in g r) ≡ g (final r)
  final-ends g (ok a s) = refl
  final-ends g (failed x s) = refl
  final-ends g (panicked v s) = refl

  outcome-ends : (g : Run W → Run W) (r : Ret W (Unit {0})) → outcome (ends_in g r) ≡ outcome r
  outcome-ends g (ok a s) = refl
  outcome-ends g (failed x s) = refl
  outcome-ends g (panicked v s) = refl

module _ {W : Type 0} (log : W → List Sample) (counters : Vec W (Counter W))
    (histograms : Vec W (Histogram W)) (labels : PrometheusLabelsProducer)
    (m : Records log counters histograms) where
  -- The deferred functions.
  abbrev observing_from : ℕ → Option Error → Handler W
  observing_from start err t =
      with_metric (λ h u. h.observe (u.now - start) u)
        (histograms.with_labels (labels t.message err) t)

  abbrev counting_under : Option Error → Handler W
  counting_under err t = with_metric (λ c. c.inc) (counters.with_labels (labels t.message err) t)

  observed_behind :
      (start : ℕ) (o : Option Error) (t : Run W)
      → observing_from start o ((m.counter (labels t.message o)).inc t)
        ≡ ok tt (
            (m.histogram (labels t.message o)).observe
              (t.now - start)
              ((m.counter (labels t.message o)).inc t))
  observed_behind start o t =
      let l = labels t.message o in
      let u = (m.counter l).inc t in
      ap
        (λ k.
          with_metric (λ (h : Histogram W) v. h.observe (v.now - start) v)
            (histograms.with_labels (labels k o) u))
        (m.same_message l t)
      ∙ (ap (with_metric (λ h v. h.observe (v.now - start) v)) (m.has_histogram l u)
          ∙ ap (λ k. ok tt ((m.histogram l).observe (k - start) u)) (m.same_clock l t))

  at_the_end :
      (start : ℕ) (r : Ret W (Unit {0}))
      → let inc = (m.counter (labels (final r).message (error_of r))).inc in
        observing_from start (error_of (ends_in inc r)) (final (ends_in inc r))
        ≡ ok tt (
            (m.histogram (labels (final r).message (error_of r))).observe
              ((final r).now - start)
              (final (ends_in inc r)))
  at_the_end start (ok a t) = observed_behind start none t
  at_the_end start (failed e t) = observed_behind start (some e) t
  at_the_end start (panicked v t) = observed_behind start none t

  -- A handler behind a counter and a histogram with labels, where the metrics take all labels: however
  -- it ends, with nil, with an error or with a panic, the call ends in the same way; the counter is
  -- incremented once and the histogram observes once, under the labels of the message that the
  -- handler has left and of its error (nil if it panicked), the time that passed from its start.
  pub metrics_recorded :
      (next : Handler W) (s : Run W)
      → let r = next s in
        let both =
          prometheus_metrics_duration_vec histograms labels
            (prometheus_metrics_count_vec counters labels next)
            s in
        let l = labels (final r).message (error_of r) in
        (outcome both ≡ outcome r)
        × (log (final both).world
            ≡ observed l ((final r).now - s.now) ∷ counted l ∷ log (final r).world)
  unfolding prometheus_metrics_duration_vec prometheus_metrics_count_vec
  metrics_recorded next s =
      let r = next s in
      let l = labels (final r).message (error_of r) in
      let inc = (m.counter l).inc in
      let observe = (m.histogram l).observe ((final r).now - s.now) in
      let counting : prometheus_metrics_count_vec counters labels next s ≡ ends_in inc r =
        then_defer-ends counting_under inc r
          (ap (with_metric (λ c. c.inc)) (m.has_counter l (final r))) in
      let observing : prometheus_metrics_duration_vec histograms labels
            (prometheus_metrics_count_vec counters labels next) s
          ≡ ends_in observe (ends_in inc r) =
        ap (then_defer (observing_from s.now)) counting
        ∙ then_defer-ends (observing_from s.now) observe (ends_in inc r) (at_the_end s.now r) in
      (
        ap outcome observing ∙ (outcome-ends observe (ends_in inc r) ∙ outcome-ends inc r),
        ap (λ x. log (final x).world) observing
            ∙ (ap (λ x. log x.world)
                  (final-ends observe (ends_in inc r) ∙ ap observe (final-ends inc r))
                ∙ (m.observes l ((final r).now - s.now) (inc (final r))
                    ∙ ap (λ x. observed l ((final r).now - s.now) ∷ x) (m.counts l (final r)))),
      )
