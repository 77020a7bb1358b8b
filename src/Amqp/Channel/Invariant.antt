-- ===== src/Amqp/Channel/Invariant.antt =====
-- What the consumer's goroutine holds, and how the steps of others leave it.
use expedit.Prelude.{
  ℕ, ◌≡◌, refl, Bool, true, false, ◌||◌, List, [], ◌∷◌, ◌++◌, ◌⊎◌, inl, inr, append_assoc, arith,
  subst, sym, ap, ◌∙◌, ◌=?◌,
}
use expedit.Amqp.Connection.{Notice}
use expedit.Amqp.Channel.{
  Watcher, Closer, Consumer, ranging, sending, drained, testing, delaying, consuming, ended, System,
  ends,
}

-- Why deliveries are closed.
abbrev pub IsOver : System → Type 0
IsOver s = (s.ctx_done ≡ true) ⊎ ((s.closed ≡ true) ⊎ (s.cancelled ≡ true))

abbrev pub Rest : System → Type 0
Rest s = (s.delivered ≡ s.sent) × ((s.pending ≡ []) × (s.d_over ≡ true))

-- What the goroutine holds of what the broker delivered.
abbrev pub Holds : Consumer → System → Type 0
Holds ranging s = s.delivered ≡ s.sent ++ s.pending
Holds (sending m) s = s.delivered ≡ s.sent ++ m ∷ s.pending
Holds drained s = Rest s
Holds testing s = Rest s
Holds (delaying t) s = Rest s
Holds consuming s = Rest s
Holds ended s = IsOver s × ((rest : List ℕ) × (s.delivered ≡ s.sent ++ rest))

-- Why d is closed.
abbrev pub OverBy : System → Type 0
OverBy s =
    s.d_over ≡ true → (s.shut s.consuming_on ≡ true) ⊎ ((s.ctx_done ≡ true) ⊎ (s.cancelled ≡ true))

abbrev pub Cause : Consumer → System → Type 0
Cause ranging s = OverBy s
Cause (sending m) s = OverBy s
Cause drained s = OverBy s
Cause testing s = Unit
Cause (delaying t) s = Unit
Cause consuming s = Unit
Cause ended s = Unit

pub record Inv (s : System) : Type 0 where
  pub holds : Holds s.consumer s
  pub cause : Cause s.consumer s

-- Steps of others: nothing of the consumer's moves, and what is over stays over.
pub record Later (s t : System) : Type 0 where
  pub delivered : t.delivered ≡ s.delivered
  pub sent : t.sent ≡ s.sent
  pub pending : t.pending ≡ s.pending
  pub d_over : s.d_over ≡ true → t.d_over ≡ true
  pub is_over : IsOver s → IsOver t
  pub over_by : OverBy s → OverBy t

Rest-Later : (s t : System) → Later s t → Rest s → Rest t
Rest-Later s t l (e, (p, o)) = (l.delivered ∙ (e ∙ sym l.sent), (l.pending ∙ p, l.d_over o))

Holds-Later : (c : Consumer) (s t : System) → Later s t → Holds c s → Holds c t
Holds-Later ranging s t l h = cc (h, l.delivered, l.sent, l.pending)
Holds-Later (sending m) s t l h = cc (h, l.delivered, l.sent, l.pending)
Holds-Later drained s t l h = Rest-Later s t l h
Holds-Later testing s t l h = Rest-Later s t l h
Holds-Later (delaying d) s t l h = Rest-Later s t l h
Holds-Later consuming s t l h = Rest-Later s t l h
Holds-Later ended s t l (o, (rest, e)) =
    (l.is_over o, (rest, l.delivered ∙ (e ∙ ap (λ x. x ++ rest) (sym l.sent))))

Cause-Later : (c : Consumer) (s t : System) → Later s t → Cause c s → Cause c t
Cause-Later ranging s t l h = l.over_by h
Cause-Later (sending m) s t l h = l.over_by h
Cause-Later drained s t l h = l.over_by h
Cause-Later testing s t l h = tt
Cause-Later (delaying d) s t l h = tt
Cause-Later consuming s t l h = tt
Cause-Later ended s t l h = tt

pub Inv-Later : (s t : System) → t.consumer ≡ s.consumer → Later s t → Inv s → Inv t
Inv-Later s t e l v = record {
  holds = subst (λ c. Holds c t) (sym e) (Holds-Later s.consumer s t l v.holds);
  cause = subst (λ c. Cause c t) (sym e) (Cause-Later s.consumer s t l v.cause);
}

ends-OverBy : (n : Notice) (chan : ℕ) (s : System) → OverBy s → OverBy (ends n chan s)
ends-OverBy n chan s h o = tested s.d_over (s.consuming_on =? chan) refl refl o
  where
    shut : (s.shut s.consuming_on ≡ true) → (ends n chan s).shut s.consuming_on ≡ true
    shut e = ground arith

    old :
        (s.shut s.consuming_on ≡ true) ⊎ ((s.ctx_done ≡ true) ⊎ (s.cancelled ≡ true))
        → ((ends n chan s).shut s.consuming_on ≡ true)
          ⊎ ((s.ctx_done ≡ true) ⊎ (s.cancelled ≡ true))
    old (inl e) = inl (shut e)
    old (inr e) = inr e

    tested :
        (a b : Bool)
        → s.d_over ≡ a
        → (s.consuming_on =? chan) ≡ b
        → (a || b) ≡ true
        → ((ends n chan s).shut s.consuming_on ≡ true)
          ⊎ ((s.ctx_done ≡ true) ⊎ (s.cancelled ≡ true))
    tested true b ha hb e = old (h ha)
    tested false true ha hb e = inl (ground arith)
    tested false false ha hb e = cc

pub ends-Later : (n : Notice) (chan : ℕ) (s : System) → Later s (ends n chan s)
ends-Later n chan s = record {
  delivered = refl;
  sent = refl;
  pending = refl;
  d_over = λ o. ground arith;
  is_over = λ o. o;
  over_by = ends-OverBy n chan s;
}

pub watcher_moves :
    (s : System) (w : Watcher) (a c m : ℕ)
    → Inv s
    → Inv (record s { watcher = w; attempts = a; current = c; made = m })
watcher_moves s w a c m v =
    Inv-Later s _ refl
      (record {
        delivered = refl;
        sent = refl;
        pending = refl;
        d_over = λ o. o;
        is_over = λ o. o;
        over_by = λ h. h;
      })
      v

pub closer_moves : (s : System) (c : Closer) → Inv s → Inv (record s { closer = c })
closer_moves s c v =
    Inv-Later s _ refl
      (record {
        delivered = refl;
        sent = refl;
        pending = refl;
        d_over = λ o. o;
        is_over = λ o. o;
        over_by = λ h. h;
      })
      v

-- A delivery needs an open d, which the goroutine has read to its end only if it is closed.
pub Holds-deliver :
    (c : Consumer) (s : System) (m : ℕ)
    → s.d_over ≡ false
    → Holds c s
    → Holds c (record s { pending = s.pending ++ m ∷ []; delivered = s.delivered ++ m ∷ [] })
Holds-deliver ranging s m o h = ap (λ x. x ++ m ∷ []) h ∙ append_assoc s.sent s.pending (m ∷ [])
Holds-deliver (sending k) s m o h =
    ap (λ x. x ++ m ∷ []) h ∙ append_assoc s.sent (k ∷ s.pending) (m ∷ [])
Holds-deliver drained s m o (e, (p, d)) = cc
Holds-deliver testing s m o (e, (p, d)) = cc
Holds-deliver (delaying t) s m o (e, (p, d)) = cc
Holds-deliver consuming s m o (e, (p, d)) = cc
Holds-deliver ended s m o (x, (rest, e)) =
    (x, (rest ++ m ∷ [], ap (λ y. y ++ m ∷ []) e ∙ append_assoc s.sent rest (m ∷ [])))

pub Cause-deliver :
    (c : Consumer) (s : System) (m : ℕ)
    → Cause c s
    → Cause c (record s { pending = s.pending ++ m ∷ []; delivered = s.delivered ++ m ∷ [] })
Cause-deliver ranging s m h = h
Cause-deliver (sending k) s m h = h
Cause-deliver drained s m h = h
Cause-deliver testing s m h = tt
Cause-deliver (delaying t) s m h = tt
Cause-deliver consuming s m h = tt
Cause-deliver ended s m h = tt

pub Holds-at : {c : Consumer} (s : System) → s.consumer ≡ c → Inv s → Holds c s
Holds-at s e v = subst (λ c. Holds c s) e v.holds

pub Cause-at : {c : Consumer} (s : System) → s.consumer ≡ c → Inv s → Cause c s
Cause-at s e v = subst (λ c. Cause c s) e v.cause

pub given_up : (s : System) → (s.ctx_done || s.closed) ≡ true → IsOver s
given_up s h = tested s.ctx_done refl h
  where
    tested : (b : Bool) → s.ctx_done ≡ b → (b || s.closed) ≡ true → IsOver s
    tested true e h' = inl e
    tested false e h' = inr (inl h')
