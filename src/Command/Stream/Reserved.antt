-- ===== src/Command/Stream/Reserved.antt =====
-- The buffer that `coordinate_queries` of src/dns/commands/query.rs reserves first: the runs in which
-- there is one, and those in which `Vec::with_capacity` panics.
use mathlib.Core.Path.{subst}
use nu_plugin_dns.Prelude.{ℕ, Bool, String, List, [], ok, panic, ◌≡◌, refl, ap, sym, ◌∙◌, length}
use nu_plugin_dns.Prelude.{arith}
use nu_plugin_dns.Prelude.Outcome.{Res}
use nu_plugin_dns.Command.Stream.{State, Coordinator, Step, Run, start}

module _ {In Out : Type 0} where
  -- The buffer was reserved, or can be.
  abbrev pub IsReserved : Coordinator In Out → Type 0
  IsReserved (Coordinator.starting (panic _)) = ⊥
  IsReserved (Coordinator.crashed _) = ⊥
  IsReserved _ = Unit

  -- The buffer was not reserved, and cannot be.
  abbrev IsLost : Coordinator In Out → Type 0
  IsLost (Coordinator.starting (panic _)) = Unit
  IsLost (Coordinator.crashed _) = Unit
  IsLost _ = ⊥

  -- Nothing was sent to the consumer.
  abbrev pub IsEmpty : State In Out → Type 0
  IsEmpty s = (s.responses ≡ []) × (s.shown ≡ [])

module _ {In Out : Type 0} (cap : ℕ) (answer : In → Res ⊥ (List Out)) (stopped : Out)
    (send_error : String) (join_error : String → String) where
  Step-IsReserved :
      {s t : State In Out}
      → Step cap answer stopped send_error join_error s t
      → IsReserved s.coordinator
      → IsReserved t.coordinator
  Step-IsReserved (Step.take s v rest _ _ _) h = h
  Step-IsReserved (Step.refuse s v rest _ _ _) h = h
  Step-IsReserved (Step.finish_stream s _ _) h = h
  Step-IsReserved (Step.send s v _ _ _) h = h
  Step-IsReserved (Step.send_closed s v _ _) h = h
  Step-IsReserved (Step.reserve s _) h = tt
  Step-IsReserved (Step.overflow s m e) h = absurd (subst IsReserved e h)
  Step-IsReserved (Step.receive s v more rest _ _ _) h = tt
  Step-IsReserved (Step.quit s _ _ _) h = tt
  Step-IsReserved (Step.next s rs ts _) h = tt
  Step-IsReserved (Step.abort s m ts _) h = tt
  Step-IsReserved (Step.deliver s y ys ts _ _ _) h = tt
  Step-IsReserved (Step.deliver_closed s y ys ts _ _) h = tt
  Step-IsReserved (Step.again s _) h = tt
  Step-IsReserved (Step.reply s ys before after v rs _ _) h = tt
  Step-IsReserved (Step.crash s ys before after v n _ _) h = tt
  Step-IsReserved (Step.stop s ys before after v _ _) h = tt
  Step-IsReserved (Step.show s y ys _ _) h = h
  Step-IsReserved (Step.drop s _) h = h
  Step-IsReserved (Step.interrupt s _) h = h

  Step-IsLost :
      {s t : State In Out}
      → Step cap answer stopped send_error join_error s t
      → IsLost s.coordinator
      → IsEmpty s
      → IsLost t.coordinator × IsEmpty t
  Step-IsLost (Step.take s v rest _ _ _) h b = (h, b)
  Step-IsLost (Step.refuse s v rest _ _ _) h b = (h, b)
  Step-IsLost (Step.finish_stream s _ _) h b = (h, b)
  Step-IsLost (Step.send s v _ _ _) h b = (h, b)
  Step-IsLost (Step.send_closed s v _ _) h b = (h, b)
  Step-IsLost (Step.reserve s e) h b = absurd (subst IsLost e h)
  Step-IsLost (Step.overflow s m _) h b = (tt, b)
  Step-IsLost (Step.receive s v more rest e _ _) h b = absurd (subst IsLost e h)
  Step-IsLost (Step.quit s e _ _) h b = absurd (subst IsLost e h)
  Step-IsLost (Step.next s rs ts e) h b = absurd (subst IsLost e h)
  Step-IsLost (Step.abort s m ts e) h b = absurd (subst IsLost e h)
  Step-IsLost (Step.deliver s y ys ts e _ _) h b = absurd (subst IsLost e h)
  Step-IsLost (Step.deliver_closed s y ys ts e _) h b = absurd (subst IsLost e h)
  Step-IsLost (Step.again s e) h b = absurd (subst IsLost e h)
  Step-IsLost (Step.reply s ys before after v rs e _) h b = absurd (subst IsLost e h)
  Step-IsLost (Step.crash s ys before after v n e _) h b = absurd (subst IsLost e h)
  Step-IsLost (Step.stop s ys before after v e _) h b = absurd (subst IsLost e h)
  Step-IsLost (Step.show s y ys e _) h b = absurd (omega (arith, ap length (sym (b.0) ∙ e)))
  Step-IsLost (Step.drop s _) h b = (h, b)
  Step-IsLost (Step.interrupt s _) h b = (h, b)

  module _ (c : Bool) (inputs : List In) where
    pub Run-IsReserved :
        {n : ℕ} {s : State In Out}
        → Run cap answer stopped send_error join_error (start (ok tt) c inputs) n s
        → IsReserved s.coordinator
    unfolding start
    Run-IsReserved Run.here = tt
    Run-IsReserved (Run.then r st) = Step-IsReserved st (Run-IsReserved r)

    Run-IsLost :
        (m : String) {n : ℕ} {s : State In Out}
        → Run cap answer stopped send_error join_error (start (panic m) c inputs) n s
        → IsLost s.coordinator × IsEmpty s
    unfolding start
    Run-IsLost m Run.here = (tt, (refl, refl))
    Run-IsLost m (Run.then r st) = let (lost, b) = Run-IsLost m r in Step-IsLost st lost b

    -- When the buffer of the requests cannot be reserved, nothing ever reaches the consumer, no reply
    -- and no error: at each point of a run, cancelled or not, it has taken nothing and nothing waits
    -- for it.
    pub Run-IsEmpty :
        (m : String) {n : ℕ} {s : State In Out}
        → Run cap answer stopped send_error join_error (start (panic m) c inputs) n s
        → IsEmpty s
    Run-IsEmpty m r = (Run-IsLost m r).1
