-- ===== src/Command/Stream.antt =====
-- The streaming branch of `DnsQuery::run_impl` in src/dns/commands/query.rs: the threads of
-- `stream_requests`, `coordinate_queries`, its spawned queries, `watch_sigterm` and the consumer of
-- the output, between two bounded channels. One step of the relation is one step of one of them.
-- A stream item `v` is answered by `answer v`: the replies of `DnsQuery::query`, or its panic.
pub mod Conserved
pub mod Order
pub mod Reserved
pub mod Given
pub mod Bounds
pub mod Ends
use nu_plugin_dns.Prelude.{ℕ, suc, ◌<◌, Bool, true, false, String, List, [], ◌∷◌, ◌++◌, map, length}
use nu_plugin_dns.Prelude.{ok, panic, ◌≡◌, ◌<>◌}
use nu_plugin_dns.Prelude.Outcome.{Res}
use nu_plugin_dns.Nu.{LabeledError, new_error, labeled, Span}

-- `stream_requests`: about to look at the stream, blocked in `blocking_send`, or returned.
pub data Sender (In : Type 0) : Type 0 where
  ready : Sender In
  sending : In → Sender In
  exhausted : Sender In
  failed : LabeledError → Sender In

-- A spawned query and its join handle.
pub data Task (In Out : Type 0) : Type 0 where
  running : In → Task In Out
  finished : List Out → Task In Out
  panicked : String → Task In Out

-- `coordinate_queries`: about to reserve its buffer, with what `Vec::with_capacity` does of the number
-- of tasks; in `recv_many`; with replies still to send and handles still to await, the oldest first;
-- returned with `Ok` or with `Err`; ended by the panic of `Vec::with_capacity`.
pub data Coordinator (In Out : Type 0) : Type 0 where
  starting : Res ⊥ (Unit {0}) → Coordinator In Out
  receiving : Coordinator In Out
  working : List Out → List (Task In Out) → Coordinator In Out
  exited : Coordinator In Out
  aborted : LabeledError → Coordinator In Out
  crashed : String → Coordinator In Out

pub record State (In Out : Type 0) : Type 0 where
  -- What the input stream still holds.
  pub source : List In
  pub sender : Sender In
  -- The two channels' buffers.
  pub requests : List In
  pub coordinator : Coordinator In Out
  pub responses : List Out
  -- What the consumer has taken, and whether it still holds the output stream.
  pub shown : List Out
  pub listening : Bool
  pub cancelled : Bool

abbrev pub IsReturned : {In : Type 0} → Sender In → Type 0
IsReturned (Sender.exhausted) = Unit
IsReturned (Sender.failed _) = Unit
IsReturned _ = ⊥

abbrev pub IsStopped : {In Out : Type 0} → Coordinator In Out → Type 0
IsStopped (Coordinator.exited) = Unit
IsStopped (Coordinator.aborted _) = Unit
IsStopped (Coordinator.crashed _) = Unit
IsStopped _ = ⊥

-- `LabeledError::new("canceled")`
abbrev pub canceled : LabeledError
canceled = new_error "canceled"

-- The text of a `SendError` is tokio's, that of a join error names the panic: parameters.
module _ {In Out : Type 0} (cap : ℕ) (answer : In → Res ⊥ (List Out)) (stopped : Out)
    (send_error : String) (join_error : String → String) where
  -- A send on a channel whose receiver is gone.
  abbrev pub send_failed : LabeledError
  send_failed =
      labeled "internal error" ("failed to send dns query result: " <> send_error) Span.unknown

  abbrev pub task_panicked : String → LabeledError
  task_panicked m = labeled "internal error" ("task panicked: " <> join_error m) Span.unknown

  pub data Step : State In Out → State In Out → Type 0 where
    -- `stream_requests`
    take :
        (s : State In Out) (v : In) (rest : List In)
        → s.source ≡ v ∷ rest
        → s.sender ≡ Sender.ready
        → s.cancelled ≡ false
        → Step s (record s { source = rest; sender = Sender.sending v })
    refuse :
        (s : State In Out) (v : In) (rest : List In)
        → s.source ≡ v ∷ rest
        → s.sender ≡ Sender.ready
        → s.cancelled ≡ true
        → Step s (record s { source = rest; sender = Sender.failed canceled })
    finish_stream :
        (s : State In Out)
        → s.source ≡ []
        → s.sender ≡ Sender.ready
        → Step s (record s { sender = Sender.exhausted })
    send :
        (s : State In Out) (v : In)
        → s.sender ≡ Sender.sending v
        → ¬ IsStopped s.coordinator
        → length s.requests < cap
        → Step s (record s { sender = Sender.ready; requests = s.requests ++ v ∷ [] })
    send_closed :
        (s : State In Out) (v : In)
        → s.sender ≡ Sender.sending v
        → IsStopped s.coordinator
        → Step s (record s { sender = Sender.failed send_failed })
    -- `coordinate_queries`: its buffer has room for as many requests as there may be tasks.
    reserve :
        (s : State In Out)
        → s.coordinator ≡ Coordinator.starting (ok tt)
        → Step s (record s { coordinator = Coordinator.receiving })
    overflow :
        (s : State In Out) (m : String)
        → s.coordinator ≡ Coordinator.starting (panic m)
        → Step s (record s { coordinator = Coordinator.crashed m })
    -- `recv_many` takes at least one request, at most as many as there may be
    -- tasks, and each is spawned.
    receive :
        (s : State In Out) (v : In) (more rest : List In)
        → s.coordinator ≡ Coordinator.receiving
        → s.requests ≡ v ∷ more ++ rest
        → length more < cap
        → Step s (record s {
          requests = rest;
          coordinator = Coordinator.working [] (map Task.running (v ∷ more));
        })
    quit :
        (s : State In Out)
        → s.coordinator ≡ Coordinator.receiving
        → s.requests ≡ []
        → IsReturned s.sender
        → Step s (record s { coordinator = Coordinator.exited })
    next :
        (s : State In Out) (rs : List Out) (ts : List (Task In Out))
        → s.coordinator ≡ Coordinator.working [] (Task.finished rs ∷ ts)
        → Step s (record s { coordinator = Coordinator.working rs ts })
    abort :
        (s : State In Out) (m : String) (ts : List (Task In Out))
        → s.coordinator ≡ Coordinator.working [] (Task.panicked m ∷ ts)
        → Step s (record s { coordinator = Coordinator.aborted (task_panicked m) })
    deliver :
        (s : State In Out) (y : Out) (ys : List Out) (ts : List (Task In Out))
        → s.coordinator ≡ Coordinator.working (y ∷ ys) ts
        → s.listening ≡ true
        → length s.responses < cap
        → Step s (record s {
          coordinator = Coordinator.working ys ts;
          responses = s.responses ++ y ∷ [];
        })
    deliver_closed :
        (s : State In Out) (y : Out) (ys : List Out) (ts : List (Task In Out))
        → s.coordinator ≡ Coordinator.working (y ∷ ys) ts
        → s.listening ≡ false
        → Step s (record s { coordinator = Coordinator.aborted send_failed })
    again :
        (s : State In Out)
        → s.coordinator ≡ Coordinator.working [] []
        → Step s (record s { coordinator = Coordinator.receiving })
    -- A spawned query: the `select!` of the query and the cancellation.
    reply :
        (s : State In Out) (ys : List Out) (before after : List (Task In Out)) (v : In)
        (rs : List Out)
        → s.coordinator ≡ Coordinator.working ys (before ++ Task.running v ∷ after)
        → answer v ≡ ok rs
        → Step s
            (record s { coordinator = Coordinator.working ys (before ++ Task.finished rs ∷ after) })
    crash :
        (s : State In Out) (ys : List Out) (before after : List (Task In Out)) (v : In) (m : String)
        → s.coordinator ≡ Coordinator.working ys (before ++ Task.running v ∷ after)
        → answer v ≡ panic m
        → Step s
            (record s { coordinator = Coordinator.working ys (before ++ Task.panicked m ∷ after) })
    stop :
        (s : State In Out) (ys : List Out) (before after : List (Task In Out)) (v : In)
        → s.coordinator ≡ Coordinator.working ys (before ++ Task.running v ∷ after)
        → s.cancelled ≡ true
        → Step s (record s {
          coordinator = Coordinator.working ys (before ++ Task.finished (stopped ∷ []) ∷ after);
        })
    -- The consumer takes a response, or drops the output stream.
    show :
        (s : State In Out) (y : Out) (ys : List Out)
        → s.responses ≡ y ∷ ys
        → s.listening ≡ true
        → Step s (record s { responses = ys; shown = s.shown ++ y ∷ [] })
    drop : (s : State In Out) → s.listening ≡ true → Step s (record s { listening = false })
    -- `watch_sigterm` sees the interrupt.
    interrupt : (s : State In Out) → s.cancelled ≡ false → Step s (record s { cancelled = true })

  -- Runs of so many steps.
  pub data Run (s : State In Out) : ℕ → State In Out → Type 0 where
    here : Run s 0 s
    then : {n : ℕ} {t u : State In Out} → Run s n t → Step t u → Run s (suc n) u

-- What `run_impl` sets up: the plugin's cancellation token may be spent already.
unfoldable pub start : {In Out : Type 0} → Res ⊥ (Unit {0}) → Bool → List In → State In Out
start reserved cancelled inputs = record {
  source = inputs;
  sender = Sender.ready;
  requests = [];
  coordinator = Coordinator.starting reserved;
  responses = [];
  shown = [];
  listening = true;
  cancelled = cancelled;
}
