-- ===== src/Tests/Connections.antt =====
-- A connection that is lost twice.
use expedit.Prelude.{◌≡◌, refl, true, arith}
use expedit.Amqp.Connection.{
  default_retry_strategy, gone, over, System, told, listen, listen_late, delay, wake, dial_failed,
  dialled, lose, start, Reach, here, next, listening, waiting, exited,
}
use expedit.Amqp.Connection.Once.{never_restored}

-- The first connection is lost, the second attempt to dial succeeds, and that connection is lost.
abbrev lost_once : System
lost_once = told gone 0 (record start { watcher = waiting })

abbrev restored : System
restored = record lost_once { attempts = 2; watcher = listening; connection = 1; made = 2 }

abbrev lost_again : System
lost_again = told gone 1 restored

loses_twice : Reach default_retry_strategy over start lost_again
loses_twice =
    next
      (next
        (next
          (next
            (next
              (next
                (next (next (next here (listen refl refl)) (lose 0 (omega arith) refl))
                  (delay refl))
                (wake (default_retry_strategy 0) refl))
              (dial_failed refl))
            (delay refl))
          (wake (default_retry_strategy 1) refl))
        (dialled refl))
      (lose 1 (omega arith) refl)

abbrev for_ever : System
for_ever = record lost_again { watcher = exited }

never_restored_example :
    (for_ever.connection ≡ lost_again.connection) × (for_ever.shut for_ever.connection ≡ true)
never_restored_example =
    never_restored {s = lost_again} {t = for_ever} loses_twice (λ h. omega (arith, h)) refl
      (next here (listen_late refl refl))
