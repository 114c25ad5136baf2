-- ===== src/Command/Stream/Bounds.antt =====
-- The bound that `--tasks` sets in src/dns/commands/query.rs: on both channels, and on the queries
-- that run at once.
use nu_plugin_dns.Prelude.{ℕ, ◌≤◌, String, List, [], ◌∷◌, ◌++◌, length, length-append, length-map}
use nu_plugin_dns.Prelude.{◌≡◌, ap, arith, Bool}
use nu_plugin_dns.Prelude.Outcome.{Res}
use nu_plugin_dns.Command.Stream.{State, Task, Coordinator, Step, Run, start}

module _ {In Out : Type 0} where
  -- The queries that the coordinator has spawned and not yet taken the replies of.
  abbrev pub tasks_of : Coordinator In Out → ℕ
  tasks_of (Coordinator.working _ ts) = length ts
  tasks_of _ = 0

  -- The requests, the responses and the spawned queries are at most so many.
  abbrev pub IsBounded : ℕ → State In Out → Type 0
  IsBounded cap s =
      (length s.requests ≤ cap) × (length s.responses ≤ cap) × (tasks_of s.coordinator ≤ cap)

  -- Replacing one handle leaves their number.
  length-replace :
      (before after : List (Task In Out)) (t u : Task In Out)
      → length (before ++ t ∷ after) ≡ length (before ++ u ∷ after)
  length-replace before after t u =
      omega (arith, length-append before (t ∷ after), length-append before (u ∷ after))

module _ {In Out : Type 0} (cap : ℕ) (answer : In → Res ⊥ (List Out)) (stopped : Out)
    (send_error : String) (join_error : String → String) where
  replaced-IsBounded :
      (s : State In Out) (ys : List Out) (before after : List (Task In Out)) (t u : Task In Out)
      → s.coordinator ≡ Coordinator.working ys (before ++ t ∷ after)
      → IsBounded cap s
      → IsBounded cap (record s { coordinator = Coordinator.working ys (before ++ u ∷ after) })
  replaced-IsBounded s ys before after t u e b =
      (b.0, b.1, omega (arith, ap tasks_of e, b.2, length-replace before after t u))

  Step-IsBounded :
      {s t : State In Out}
      → Step cap answer stopped send_error join_error s t
      → IsBounded cap s
      → IsBounded cap t
  Step-IsBounded (Step.take s v rest _ _ _) b = b
  Step-IsBounded (Step.refuse s v rest _ _ _) b = b
  Step-IsBounded (Step.finish_stream s _ _) b = b
  Step-IsBounded (Step.send s v _ _ room) b =
      (omega (arith, length-append s.requests (v ∷ [])), b.1, b.2)
  Step-IsBounded (Step.send_closed s v _ _) b = b
  Step-IsBounded (Step.reserve s _) b = (b.0, b.1, omega arith)
  Step-IsBounded (Step.overflow s _ _) b = (b.0, b.1, omega arith)
  Step-IsBounded (Step.receive s v more rest e r fits) b = (
    omega (arith, b.0, ap length r, length-append more rest),
    b.1,
    omega (arith, length-map {B = Task In Out} more Task.running),
  )
  Step-IsBounded (Step.quit s _ _ _) b = (b.0, b.1, omega arith)
  Step-IsBounded (Step.next s rs ts e) b = (b.0, b.1, omega (arith, ap tasks_of e, b.2))
  Step-IsBounded (Step.abort s m ts _) b = (b.0, b.1, omega arith)
  Step-IsBounded (Step.deliver s y ys ts e _ room) b =
      (b.0, omega (arith, length-append s.responses (y ∷ [])), omega (arith, ap tasks_of e, b.2))
  Step-IsBounded (Step.deliver_closed s y ys ts _ _) b = (b.0, b.1, omega arith)
  Step-IsBounded (Step.again s _) b = (b.0, b.1, omega arith)
  Step-IsBounded (Step.reply s ys before after v rs e _) b =
      replaced-IsBounded s ys before after _ _ e b
  Step-IsBounded (Step.crash s ys before after v m e _) b =
      replaced-IsBounded s ys before after _ _ e b
  Step-IsBounded (Step.stop s ys before after v e _) b =
      replaced-IsBounded s ys before after _ _ e b
  Step-IsBounded (Step.show s y ys e _) b = (b.0, omega (arith, b.1, ap length e), b.2)
  Step-IsBounded (Step.drop s _) b = b
  Step-IsBounded (Step.interrupt s _) b = b

  start-IsBounded :
      (b : Res ⊥ (Unit {0})) (c : Bool) (inputs : List In)
      → IsBounded {Out = Out} cap (start b c inputs)
  unfolding start
  start-IsBounded b c inputs = omega arith

  -- At each point of a run neither channel holds more than `--tasks` values, and no more than
  -- `--tasks` queries are spawned and not yet done with.
  pub Run-IsBounded :
      (b : Res ⊥ (Unit {0})) (c : Bool) (inputs : List In) {n : ℕ} {s : State In Out}
      → Run cap answer stopped send_error join_error (start b c inputs) n s
      → IsBounded cap s
  Run-IsBounded b c inputs Run.here = start-IsBounded b c inputs
  Run-IsBounded b c inputs (Run.then r st) = Step-IsBounded st (Run-IsBounded b c inputs r)
