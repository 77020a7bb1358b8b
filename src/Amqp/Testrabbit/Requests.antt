-- ===== src/Amqp/Testrabbit/Requests.antt =====
-- What is asked of a channel: its declarations and deletions, noted in the order of the calls. Not
-- part of the program.
pub mod Logging
pub mod Giving
pub mod Deleting
use expedit.Prelude.{ℕ, String, List, [], ◌∷◌, ◌++◌}
use expedit.Amqp.Testrabbit.{Env, Outcome, Reply, Op, Channel, left}

pub data Request : Type 0 where
  declared : String → Request  -- QueueDeclare
  deleted : String → Request  -- QueueDelete
  exchange_declared : String → Request
  exchange_deleted : String → Request

module _ {W : Type 0} where
  -- The same call, noted.
  abbrev pub noted : {A : Type 0} → List Request → Op W A → Op (W × List Request) A
  noted requests op now (w, log) =
      let r = op now w in
      record { result = r.result; world = (r.world, log ++ requests); took = r.took }

  -- The requests behind an action.
  abbrev pub log_of : Env (W × List Request) → List Request
  log_of e = e.world.1

unfoldable pub noting : {W D : Type 0} → Channel W D → Channel (W × List Request) D
noting channel = record {
  queue_declare = λ q a b c d. noted (declared q ∷ []) (channel.queue_declare q a b c d);
  queue_declare_passive = λ q a b c d. noted [] (channel.queue_declare_passive q a b c d);
  queue_bind = λ q k x a args. noted [] (channel.queue_bind q k x a args);
  queue_delete = λ q a b c. noted (deleted q ∷ []) (channel.queue_delete q a b c);
  exchange_declare =
      λ x k a b c d. noted (exchange_declared x ∷ []) (channel.exchange_declare x k a b c d);
  exchange_delete = λ x a b. noted (exchange_deleted x ∷ []) (channel.exchange_delete x a b);
  publish = λ x k a b p. noted [] (channel.publish x k a b p);
  consume = λ ctx q c a b d n. noted [] (channel.consume ctx q c a b d n);
}
