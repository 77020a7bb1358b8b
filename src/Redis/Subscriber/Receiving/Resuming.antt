-- ===== src/Redis/Subscriber/Receiving/Resuming.antt =====
-- Where each read of a redis subscriber without a consumer group goes on.
use expedit.Prelude.{
  ℕ, zero, suc, ◌+◌, String, true, Option, none, some, List, [], ◌∷◌, ◌++◌, ◌≡◌, sym, ap, ◌∙◌,
  arith, Bool-cases, inl, inr, ◌==◌, append_assoc, append-nil, some_inj,
}
use expedit.Go.Value.{Error}
use expedit.Go.Context.{Context}
use expedit.Message.{Message}
use expedit.Handler.{Run, Ret, ok, failed, panicked, final, err_of}
use expedit.Subscriber.Dispatcher.{Delivery}
use expedit.Redis.Values.{XMessage}
use expedit.Redis.Subscriber.{RedisSubscriber}
use expedit.Redis.Subscriber.Receiving.{
  Client, ReadArgs, dispatch_all, dispatch_streams, delivery, after_read, Cursor, cycle, loop,
  while_live, then_turn, last_of,
}

-- A stream with all the entries that are ever added to it, and the ID that it is read from.
pub record Stream : Type 0 where
  pub first : String
  pub entry : ℕ → XMessage

-- The ID that the entry of a number follows.
abbrev pub id_before : Stream → ℕ → String
id_before stream zero = stream.first
id_before stream (suc k) = (stream.entry k).id

-- So many entries from one on.
abbrev pub segment : Stream → ℕ → ℕ → List XMessage
segment stream k zero = []
segment stream k (suc n) = stream.entry k ∷ segment stream (suc k) n

-- A read from an ID returns some of the entries that follow it, the next first; the log stays.
abbrev pub IsRead :
    {W : Type 0}
    → Stream
    → (W → List Message)
    → ℕ
    → List Message
    → Ret W (List (List XMessage))
    → Type 0
IsRead stream log k before (ok streams s) =
    ((n : ℕ) × (streams ≡ segment stream k n ∷ [])) × (log s.world ≡ before)
IsRead stream log k before (failed e s) = log s.world ≡ before
IsRead stream log k before (panicked v s) = log s.world ≡ before

-- The client reads the stream, and the log holds the messages that were dispatched.
pub record Serves {W : Type 0} (stream : Stream) (log : W → List Message) (client : Client W)
    (dispatch : Delivery W → Run W → Run W) : Type 0 where
  pub by_read :
      (c : Context) (a : ReadArgs) (k : ℕ) (s : Run W)
      → a.start ≡ id_before stream k
      → IsRead stream log k (log s.world) (client.read c a s)
  pub by_dispatch :
      (d : Delivery W) (s : Run W) → log (dispatch d s).world ≡ log s.world ++ d.message ∷ []

module _ {W : Type 0} (stream : Stream) (log : W → List Message) (client : Client W)
    (sub : RedisSubscriber W) (consumer : String) (dispatch : Delivery W → Run W → Run W)
    (wait : Run W → Run W) (ctx : Context) (serves : Serves stream log client dispatch) where
  -- The messages of so many entries from one on.
  abbrev pub messages : ℕ → ℕ → List Message
  messages k zero = []
  messages k (suc n) = (delivery client sub ctx (stream.entry k)).message ∷ messages (suc k) n

  messages-append : (k m n : ℕ) → messages k m ++ messages (k + m) n ≡ messages k (m + n)
  messages-append k zero n =
      let here : k + 0 ≡ k = omega arith in
      let none_more : n ≡ 0 + n = omega arith in
      ap (λ i. messages i n) here ∙ ap (messages k) none_more
  messages-append k (suc m) n =
      let later : k + suc m ≡ suc k + m = omega arith in
      let one_more : suc (m + n) ≡ suc m + n = omega arith in
      ap (λ i. messages k (suc m) ++ messages i n) later
      ∙ (ap (λ l. (delivery client sub ctx (stream.entry k)).message ∷ l)
            (messages-append (suc k) m n)
          ∙ ap (messages k) one_more)

  dispatch_all-log :
      (k n : ℕ) (s : Run W)
      → log (dispatch_all client sub consumer dispatch wait ctx (segment stream k n) s).world
        ≡ log s.world ++ messages k n
  unfolding dispatch_all
  dispatch_all-log k zero s = sym (append-nil (log s.world))
  dispatch_all-log k (suc n) s =
      let d = delivery client sub ctx (stream.entry k) in
      dispatch_all-log (suc k) n (dispatch d s)
      ∙ (ap (λ l. l ++ messages (suc k) n) (serves.by_dispatch d s)
          ∙ append_assoc (log s.world) (d.message ∷ []) (messages (suc k) n))

  last_of-segment :
      (k n : ℕ)
      → last_of client sub consumer dispatch wait ctx (segment stream k n) (id_before stream k)
        ≡ id_before stream (k + n)
  last_of-segment k zero = ap (id_before stream) (omega arith)
  last_of-segment k (suc n) = last_of-segment (suc k) n ∙ ap (id_before stream) (omega arith)

  -- The entries up to a number were dispatched behind what the log held before.
  abbrev Reached : List Message → ℕ → Run W → Type 0
  Reached before k s = log s.world ≡ before ++ messages 0 k

  -- And the next read goes on from there.
  abbrev Resumes : List Message → Ret W Cursor → Type 0
  Resumes before (ok at s) = (k : ℕ) × (at.start_id ≡ id_before stream k) × Reached before k s
  Resumes before (failed e s) = (k : ℕ) × Reached before k s
  Resumes before (panicked v s) = (k : ℕ) × Reached before k s

  after_read-Resumes :
      (before : List Message) (k : ℕ) (at : Cursor) (r : Ret W (List (List XMessage)))
      (held : List Message)
      → at.start_id ≡ id_before stream k
      → held ≡ before ++ messages 0 k
      → IsRead stream log k held r
      → Resumes before (after_read client sub consumer dispatch wait ctx at r)
  unfolding dispatch_streams
  after_read-Resumes before k at (ok streams s) held from reached ((n, read), same) = rw read (
    k + n,
    ap (λ i. last_of client sub consumer dispatch wait ctx (segment stream k n) i) from
        ∙ last_of-segment k n,
    dispatch_all-log k n s
        ∙ (ap (λ l. l ++ messages k n) (same ∙ reached)
            ∙ (append_assoc before (messages 0 k) (messages k n)
                ∙ ap (λ l. before ++ l) (behind k n))),
  )
    where
      behind : (k n : ℕ) → messages 0 k ++ messages k n ≡ messages 0 (k + n)
      behind k n =
          let there : k ≡ 0 + k = omega arith in
          ap (λ i. messages 0 k ++ messages i n) there ∙ messages-append 0 k n
  after_read-Resumes before k at (failed e s) held from reached same =
      elim (Bool-cases (client.is_nil e)) [
        | inl y ↦ rw y (k, from, same ∙ reached)
        | inr n ↦ rw n (k, same ∙ reached)
      ]
  after_read-Resumes before k at (panicked v s) held from reached same = (k, same ∙ reached)

  cycle-Resumes :
      (before : List Message) (k : ℕ) (at : Cursor) (s : Run W)
      → (sub.options.consumer_group == "") ≡ true
      → at.start_id ≡ id_before stream k
      → Reached before k s
      → Resumes before (cycle client sub consumer dispatch wait ctx at s)
  unfolding cycle
  cycle-Resumes before k at s alone from reached =
      rw alone (
        after_read-Resumes before k at _ (log s.world) from reached (serves.by_read ctx _ k s from))

  -- What the loop has dispatched when it returns, if the turns do.
  then_turn-Reached :
      (before : List Message) (next : Cursor → Run W → Option (Ret W (Unit {0}))) (r : Ret W Cursor)
      (x : Ret W (Unit {0}))
      → Resumes before r
      → ((k : ℕ) (at : Cursor) (s : Run W)
          → at.start_id ≡ id_before stream k
          → Reached before k s
          → next at s ≡ some x
          → (j : ℕ) × Reached before j (final x))
      → then_turn client sub consumer dispatch wait ctx next r ≡ some x
      → (j : ℕ) × Reached before j (final x)
  then_turn-Reached before next (ok at s) x (k, from, reached) go h = go k at s from reached h
  then_turn-Reached before next (failed e s) x (k, reached) go h =
      (k, ap (λ y. log (final y).world) (sym (some_inj h)) ∙ reached)
  then_turn-Reached before next (panicked v s) x (k, reached) go h =
      (k, ap (λ y. log (final y).world) (sym (some_inj h)) ∙ reached)

  while_live-Reached :
      (before : List Message) (k : ℕ) (o : Option Error) (s : Run W)
      (turn : Run W → Option (Ret W (Unit {0}))) (x : Ret W (Unit {0}))
      → Reached before k s
      → (turn s ≡ some x → (j : ℕ) × Reached before j (final x))
      → while_live client sub consumer dispatch wait ctx o s turn ≡ some x
      → (j : ℕ) × Reached before j (final x)
  while_live-Reached before k none s turn x reached go h = go h
  while_live-Reached before k (some e) s turn x reached go h =
      (k, ap (λ y. log (final y).world) (sym (some_inj h)) ∙ reached)

  loop-Reached :
      (before : List Message) (turns k : ℕ) (at : Cursor) (s : Run W) (x : Ret W (Unit {0}))
      → (sub.options.consumer_group == "") ≡ true
      → at.start_id ≡ id_before stream k
      → Reached before k s
      → loop client sub consumer dispatch wait ctx turns at s ≡ some x
      → (j : ℕ) × Reached before j (final x)
  unfolding loop
  loop-Reached before zero k at s x alone from reached h = cc
  loop-Reached before (suc turns) k at s x alone from reached h =
      while_live-Reached before k (err_of s ctx) s _ x reached
        (then_turn-Reached before _ _ x (cycle-Resumes before k at s alone from reached)
          (λ j at' s' from' reached' h'.
            loop-Reached before turns j at' s' x alone from' reached' h'))
        h

  -- The loop of a redis subscriber without a consumer group, which begins to read a stream at its
  -- first ID, where the client returns some of the entries that follow the ID of a read, or fails:
  -- whenever and however the loop ends, it has dispatched the entries from the first one to some
  -- last one, in the order of the stream, each once and none left out.
  pub loop_dispatches :
      (turns : ℕ) (at : Cursor) (s : Run W) (x : Ret W (Unit {0}))
      → (sub.options.consumer_group == "") ≡ true
      → at.start_id ≡ stream.first
      → loop client sub consumer dispatch wait ctx turns at s ≡ some x
      → (n : ℕ) × (log (final x).world ≡ log s.world ++ messages 0 n)
  loop_dispatches turns at s x alone from h =
      loop-Reached (log s.world) turns 0 at s x alone from (sym (append-nil (log s.world))) h
