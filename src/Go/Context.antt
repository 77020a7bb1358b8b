-- ===== src/Go/Context.antt =====
-- context.Context. A context carries the values of its parents, the cancellation scopes it was
-- derived under (one for each WithCancel or WithTimeout) and the earliest deadline of them.
use expedit.Prelude.{
  ℕ, ◌+◌, Bool, false, ◌||◌, Option, none, some, List, [], ◌∷◌, ◌=?◌, leb, if◌then◌else◌,
}
use expedit.Go.Value.{Value, nil, Error, sentinel}

pub record Context : Type 0 where
  pub value : Value → Value
  pub scopes : List ℕ
  pub deadline : Option ℕ

abbrev pub background : Context
background = record { value = λ _. nil; scopes = []; deadline = none }

abbrev pub canceled : Error
canceled = sentinel "context canceled"

abbrev pub deadline_exceeded : Error
deadline_exceeded = sentinel "context deadline exceeded"

-- context.WithoutCancel: the values stay, the scopes and the deadline do not.
abbrev pub without_cancel : Context → Context
without_cancel c = record c { scopes = []; deadline = none }

abbrev pub earlier : Option ℕ → ℕ → ℕ
earlier none d = d
earlier (some e) d = if leb e d then e else d

-- context.WithTimeout at the time `now`, under the fresh scope `scope`.
abbrev pub with_timeout : Context → ℕ → ℕ → ℕ → Context
with_timeout c scope now timeout = record c {
  scopes = scope ∷ c.scopes;
  deadline = some (earlier c.deadline (now + timeout));
}

abbrev pub elem : ℕ → List ℕ → Bool
elem n [] = false
elem n (m ∷ ms) = (n =? m) || elem n ms

abbrev pub any_in : List ℕ → List ℕ → Bool
any_in [] done = false
any_in (n ∷ ns) done = elem n done || any_in ns done

abbrev pub expired : Option ℕ → ℕ → Bool
expired none now = false
expired (some d) now = leb d now

-- `ctx.Err()`, where `done` are the scopes cancelled so far.
abbrev pub context_err : List ℕ → ℕ → Context → Option Error
context_err done now c =
    if any_in c.scopes done
    then some canceled
    else if expired c.deadline now
    then some deadline_exceeded
    else none
