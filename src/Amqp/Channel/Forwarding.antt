-- ===== src/Amqp/Channel/Forwarding.antt =====
-- What a consumer forwards, and when it ends.
use expedit.Prelude.{
  suc, ◌+◌, ◌≡◌, refl, true, [], ◌∷◌, ◌++◌, ◌⊎◌, inl, inr, append_assoc, append-nil, sym, ap, ◌∙◌,
}
use expedit.Amqp.Connection.{RetryDelayStrategy, Notice, gone, over}
use expedit.Amqp.Channel.{
  listening, waiting, heard, leaving, retrying, sleeping, opening, exited, idle, System, ends, Step,
  listen, listen_late, leave_over, leave_closed, leave, retry, delay, wake, open_failed, opened,
  flag, close_channel, take, drain, send, drop, end, lost, give_up, go_on, stop, consume,
  consume_failed, consumed, cancel, lose, deliver, cancel_consumer, ctx_cancels, start, Reach, here,
  next,
}
use expedit.Amqp.Channel.Invariant.{
  IsOver, Holds, Inv, Inv-Later, ends-Later, watcher_moves, closer_moves, Holds-deliver,
  Cause-deliver, Holds-at, Cause-at, given_up,
}

module _ {strategy : RetryDelayStrategy} {late : Notice} where
  Step-Inv : {s t : System} → Step strategy late s t → Inv s → Inv t
  -- watchDisconnects and Close
  Step-Inv {s} (listen w o) v = watcher_moves s (waiting s.current) s.attempts s.current s.made v
  Step-Inv {s} (listen_late w o) v = watcher_moves s (heard late) s.attempts s.current s.made v
  Step-Inv {s} (leave_over w) v = watcher_moves s leaving s.attempts s.current s.made v
  Step-Inv {s} (leave_closed n w c) v = watcher_moves s leaving s.attempts s.current s.made v
  Step-Inv {s} (leave w) v =
      let u = ends over s.current s in
      watcher_moves u exited u.attempts u.current u.made
        (Inv-Later s u refl (ends-Later over s.current s) v)
  Step-Inv {s} (retry w c) v = watcher_moves s retrying 0 s.current s.made v
  Step-Inv {s} (delay w) v =
      watcher_moves s (sleeping (strategy s.attempts)) s.attempts s.current s.made v
  Step-Inv {s} (wake d w) v = watcher_moves s opening (s.attempts + 1) s.current s.made v
  Step-Inv {s} (open_failed w) v = watcher_moves s retrying s.attempts s.current s.made v
  Step-Inv {s} (opened w o) v = watcher_moves s listening s.attempts s.made (suc s.made) v
  Step-Inv {s} (flag c) v =
      Inv-Later s _ refl
        (record {
          delivered = refl;
          sent = refl;
          pending = refl;
          d_over = λ o. o;
          is_over = λ o. inr (inl refl);
          over_by = λ h. h;
        })
        v
  Step-Inv {s} (close_channel c) v =
      closer_moves (ends over s.current s) idle
        (Inv-Later s (ends over s.current s) refl (ends-Later over s.current s) v)
  -- Consume
  Step-Inv {s} (take m rest c e) v = record {
    holds = Holds-at s c v ∙ ap (λ p. s.sent ++ p) e;
    cause = Cause-at s c v;
  }
  Step-Inv {s} (drain c e o) v = record {
    holds = (Holds-at s c v ∙ (ap (λ p. s.sent ++ p) e ∙ append-nil s.sent), (e, o));
    cause = Cause-at s c v;
  }
  Step-Inv {s} (send m c) v = record {
    holds = Holds-at s c v ∙ sym (append_assoc s.sent (m ∷ []) s.pending);
    cause = Cause-at s c v;
  }
  Step-Inv {s} (drop m c d) v = record {
    holds = (inl d, (m ∷ s.pending, Holds-at s c v));
    cause = tt;
  }
  Step-Inv {s} (end c o) v =
      let (e, (p, d)) = Holds-at s c v in
      record {
        holds = (cancelled_or_done (Cause-at s c v d), ([], e ∙ sym (append-nil s.sent)));
        cause = tt;
      }
    where
      cancelled_or_done :
          (s.shut s.consuming_on ≡ true) ⊎ ((s.ctx_done ≡ true) ⊎ (s.cancelled ≡ true)) → IsOver s
      cancelled_or_done (inl x) = cc
      cancelled_or_done (inr (inl x)) = inl x
      cancelled_or_done (inr (inr x)) = inr (inr x)
  Step-Inv {s} (lost c o) v = record { holds = Holds-at s c v; cause = tt }
  Step-Inv {s} (give_up c o) v =
      let (e, rest) = Holds-at s c v in
      record { holds = (given_up s o, ([], e ∙ sym (append-nil s.sent))); cause = tt }
  Step-Inv {s} (go_on c o) v = record { holds = Holds-at s c v; cause = tt }
  Step-Inv {s} (stop d c o) v =
      let (e, rest) = Holds-at s c v in
      record { holds = (inl o, ([], e ∙ sym (append-nil s.sent))); cause = tt }
  Step-Inv {s} (consume d c) v = record { holds = Holds-at s c v; cause = tt }
  Step-Inv {s} (consume_failed c) v = record { holds = Holds-at s c v; cause = tt }
  Step-Inv {s} (consumed c o) v =
      let (e, rest) = Holds-at s c v in
      record { holds = e ∙ sym (append-nil s.sent); cause = λ d. cc }
  -- ctx and the broker
  Step-Inv {s} cancel v =
      Inv-Later s _ refl
        (record {
          delivered = refl;
          sent = refl;
          pending = refl;
          d_over = λ o. o;
          is_over = λ o. inl refl;
          over_by = λ h o. inr (inl refl);
        })
        v
  Step-Inv {s} (lose chan b o) v = Inv-Later s _ refl (ends-Later gone chan s) v
  Step-Inv {s} (deliver m o) v = record {
    holds = Holds-deliver s.consumer s m o v.holds;
    cause = Cause-deliver s.consumer s m v.cause;
  }
  Step-Inv {s} cancel_consumer v =
      Inv-Later s _ refl
        (record {
          delivered = refl;
          sent = refl;
          pending = refl;
          d_over = λ o. refl;
          is_over = λ o. inr (inr refl);
          over_by = λ h o. inr (inr refl);
        })
        v
  Step-Inv {s} (ctx_cancels d) v =
      Inv-Later s _ refl
        (record {
          delivered = refl;
          sent = refl;
          pending = refl;
          d_over = λ o. refl;
          is_over = λ o. o;
          over_by = λ h o. inr (inl d);
        })
        v

  Reach-Inv : {s t : System} → Reach strategy late s t → Inv s → Inv t
  Reach-Inv here v = v
  Reach-Inv (next r st) v = Step-Inv st (Reach-Inv r v)

  -- At any time of a Consume that has started: what was sent to its deliveries is what the broker has
  -- delivered so far, in that order, each as often; only the message at hand and those behind it in
  -- the library's channel are still missing, and none at all while the goroutine waits to consume
  -- again, so a reconnection loses nothing that was delivered. Deliveries are closed only if ctx is
  -- done, Close was called or the broker has cancelled a consumer; then what was sent comes first of
  -- what was delivered.
  pub consume_forwards : {s : System} → Reach strategy late start s → Holds s.consumer s
  consume_forwards r = (Reach-Inv r (record { holds = refl; cause = λ o. cc })).holds
