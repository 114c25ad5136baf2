-- ===== src/Command/Stream/Ends.antt =====
-- The threads of the streaming branch of src/dns/commands/query.rs do not run for ever, and do not
-- block one another.
pub mod Progress
use nu_plugin_dns.Prelude.{
  ℕ, suc, ◌+◌, ◌*◌, ◌≤◌, ◌<◌, Bool, true, false, String, List, [], ◌∷◌, ◌++◌, map, length,
  length-append,
}
use nu_plugin_dns.Prelude.{ok, err, panic, ◌≡◌, refl, ap, arith, ◌⊎◌, inl, inr}
use nu_plugin_dns.Prelude.Outcome.{Res}
use nu_plugin_dns.Command.Stream.{
  State, Sender, Task, Coordinator, Step, Run, start, IsStopped, IsReturned,
}
use nu_plugin_dns.Command.Stream.Conserved.{replies, all_replies}

module _ {In Out : Type 0} (answer : In → Res ⊥ (List Out)) where
  -- The steps that a spawned query can still cause.
  abbrev pub load : In → ℕ
  load v = 4 + 2 * length (replies answer v)

  -- The same of several, each with the steps before it is spawned.
  abbrev pub loads : ℕ → List In → ℕ
  loads k [] = 0
  loads k (v ∷ vs) = (k + load v) + loads k vs

  abbrev pub task_weight : Task In Out → ℕ
  task_weight (Task.running v) = load v
  task_weight (Task.finished rs) = 1 + 2 * length rs
  task_weight (Task.panicked _) = 1

  abbrev pub queue_weight : List (Task In Out) → ℕ
  queue_weight [] = 0
  queue_weight (t ∷ ts) = task_weight t + queue_weight ts

  abbrev pub sender_weight : Sender In → ℕ
  sender_weight (Sender.ready) = 1
  sender_weight (Sender.sending v) = 4 + load v
  sender_weight _ = 0

  abbrev pub coordinator_weight : Coordinator In Out → ℕ
  coordinator_weight (Coordinator.starting _) = 2
  coordinator_weight (Coordinator.receiving) = 1
  coordinator_weight (Coordinator.working ys ts) = 2 + 2 * length ys + queue_weight ts
  coordinator_weight _ = 0

  -- 1 for a thing that can happen once more.
  abbrev pub once : Bool → ℕ
  once true = 1
  once false = 0

  abbrev pub not_yet : Bool → ℕ
  not_yet true = 0
  not_yet false = 1

  -- No more steps than this are left.
  abbrev pub weight : State In Out → ℕ
  weight s =
      loads 4 s.source
      + sender_weight s.sender
      + loads 2 s.requests
      + coordinator_weight s.coordinator
      + length s.responses
      + once s.listening
      + not_yet s.cancelled

  loads-append : (k : ℕ) (vs ws : List In) → loads k (vs ++ ws) ≡ loads k vs + loads k ws
  loads-append k [] ws = omega arith
  loads-append k (v ∷ vs) ws = omega (arith, loads-append k vs ws)

  queue_weight-append :
      (ts us : List (Task In Out)) → queue_weight (ts ++ us) ≡ queue_weight ts + queue_weight us
  queue_weight-append [] us = omega arith
  queue_weight-append (t ∷ ts) us = omega (arith, queue_weight-append ts us)

  queue_weight-map-le :
      (vs : List In) → queue_weight (map Task.running vs) + 2 * length vs ≤ loads 2 vs
  queue_weight-map-le [] = omega arith
  queue_weight-map-le (v ∷ vs) = omega (arith, queue_weight-map-le vs)

  replaced_weight :
      (s : State In Out) (ys : List Out) (before after : List (Task In Out)) (t u : Task In Out)
      → s.coordinator ≡ Coordinator.working ys (before ++ t ∷ after)
      → task_weight u < task_weight t
      → coordinator_weight (Coordinator.working ys (before ++ u ∷ after))
        < coordinator_weight s.coordinator
  replaced_weight s ys before after t u e h = omega (
    arith,
    ap coordinator_weight e,
    queue_weight-append before (t ∷ after),
    queue_weight-append before (u ∷ after),
  )

  length-replies :
      (v : In) (rs : List Out) → answer v ≡ ok rs → length (replies answer v) ≡ length rs
  length-replies v rs e = rw (e, replies)

module _ {In Out : Type 0} (cap : ℕ) (answer : In → Res ⊥ (List Out)) (stopped : Out)
    (send_error : String) (join_error : String → String) where
  Step-weight :
      {s t : State In Out}
      → Step cap answer stopped send_error join_error s t
      → weight answer t < weight answer s
  Step-weight (Step.take s v rest e sender live) =
      omega (arith, ap (loads answer 4) e, ap (sender_weight answer) sender)
  Step-weight (Step.refuse s v rest e sender cancelled) =
      omega (arith, ap (loads answer 4) e, ap (sender_weight answer) sender)
  Step-weight (Step.finish_stream s e sender) = omega (arith, ap (sender_weight answer) sender)
  Step-weight (Step.send s v sender up room) =
      omega (arith, ap (sender_weight answer) sender, loads-append answer 2 s.requests (v ∷ []))
  Step-weight (Step.send_closed s v sender down) = omega (arith, ap (sender_weight answer) sender)
  Step-weight (Step.reserve s e) = omega (arith, ap (coordinator_weight answer) e)
  Step-weight (Step.overflow s m e) = omega (arith, ap (coordinator_weight answer) e)
  Step-weight (Step.receive s v more rest e r fits) = omega (
    arith,
    ap (coordinator_weight answer) e,
    ap (loads answer 2) r,
    loads-append answer 2 (v ∷ more) rest,
    queue_weight-map-le answer (v ∷ more),
  )
  Step-weight (Step.quit s e empty returned) = omega (arith, ap (coordinator_weight answer) e)
  Step-weight (Step.next s rs ts e) = omega (arith, ap (coordinator_weight answer) e)
  Step-weight (Step.abort s m ts e) = omega (arith, ap (coordinator_weight answer) e)
  Step-weight (Step.deliver s y ys ts e live room) =
      omega (arith, ap (coordinator_weight answer) e, length-append s.responses (y ∷ []))
  Step-weight (Step.deliver_closed s y ys ts e gone) =
      omega (arith, ap (coordinator_weight answer) e)
  Step-weight (Step.again s e) = omega (arith, ap (coordinator_weight answer) e)
  Step-weight (Step.reply s ys before after v rs e a) = omega (
    arith,
    replaced_weight answer s ys before after _ (Task.finished rs) e
        (omega (arith, length-replies answer v rs a)),
  )
  Step-weight (Step.crash s ys before after v m e a) =
      omega (arith, replaced_weight answer s ys before after _ (Task.panicked m) e (omega arith))
  Step-weight (Step.stop s ys before after v e cancelled) = omega (
    arith,
    replaced_weight answer s ys before after _ (Task.finished (stopped ∷ [])) e (omega arith),
  )
  Step-weight (Step.show s y ys e live) = omega (arith, ap length e)
  Step-weight (Step.drop s live) = omega (arith, ap (once answer) live)
  Step-weight (Step.interrupt s live) = omega (arith, ap (not_yet answer) live)

  Run-weight :
      {s : State In Out} {n : ℕ} {t : State In Out}
      → Run cap answer stopped send_error join_error s n t
      → n + weight answer t ≤ weight answer s
  Run-weight Run.here = omega arith
  Run-weight (Run.then r st) = omega (arith, Run-weight r, Step-weight st)

  loads_lem :
      (vs : List In) → loads answer 4 vs ≡ 8 * length vs + 2 * length (all_replies answer vs)
  loads_lem [] = omega arith
  loads_lem (v ∷ vs) =
      omega (arith, loads_lem vs, length-append (replies answer v) (all_replies answer vs))

  -- Every run ends: it has at most eight steps for each input, two for each reply, and five more.
  pub Run-bounds :
      (b : Res ⊥ (Unit {0})) (c : Bool) (inputs : List In) {n : ℕ} {s : State In Out}
      → Run cap answer stopped send_error join_error (start b c inputs) n s
      → n ≤ 8 * length inputs + 2 * length (all_replies answer inputs) + 5
  unfolding start
  Run-bounds b c inputs r = omega (arith, Run-weight r, loads_lem inputs, once_le c)
    where
      once_le : (c : Bool) → not_yet answer c ≤ 1
      once_le true = omega arith
      once_le false = omega arith
