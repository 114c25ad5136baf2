-- ===== src/Command/Stream/Given/Runs.antt =====
-- The runs of the streaming branch of src/dns/commands/query.rs, cancelled or not: what they have
-- shown at any point.
use mathlib.Core.List.{append_assoc, append-nil}
use nu_plugin_dns.Prelude.{ℕ, Bool, String, List, [], ◌∷◌, ◌++◌}
use nu_plugin_dns.Prelude.{refl, sym, ap, ◌∙◌, inl, inr}
use nu_plugin_dns.Prelude.Outcome.{Res}
use nu_plugin_dns.Command.Stream.{State, Task, Coordinator, Step, Run, start}
use nu_plugin_dns.Command.Stream.Given.{Given, IsFirstPart, running-QueueFits, coming, StateHolds}
use nu_plugin_dns.Command.Stream.Given.Kept.{
  shorter, regrouped, Holds-moved, Holds-mono, gave, awaited, waiting, at_coordinator, replaced,
  failed_lem,
}

module _ {In Out : Type 0} (answer : In → Res ⊥ (List Out)) (stopped : Out) (inputs : List In)
    (cap : ℕ) (send_error : String) (join_error : String → String) where
  Step-StateHolds :
      {s t : State In Out}
      → Step cap answer stopped send_error join_error s t
      → StateHolds answer stopped inputs s.coordinator s
      → StateHolds answer stopped inputs t.coordinator t
  Step-StateHolds (Step.take s v rest e sender live) h =
      Holds-moved answer stopped inputs s.coordinator s.cancelled refl
        (ap (λ l. s.requests ++ l) (ap (λ x. coming answer stopped x s.source) sender ∙ e)) h
  Step-StateHolds (Step.refuse s v rest e sender cancelled) h = failed_lem answer stopped inputs s h
  Step-StateHolds (Step.finish_stream s e sender) h =
      Holds-moved answer stopped inputs s.coordinator s.cancelled refl
        (ap (λ l. s.requests ++ l) (ap (λ x. coming answer stopped x s.source) sender ∙ e)) h
  Step-StateHolds (Step.send s v sender up room) h =
      Holds-moved answer stopped inputs s.coordinator s.cancelled refl
        (ap (λ x. s.requests ++ coming answer stopped x s.source) sender
          ∙ sym (append_assoc s.requests (v ∷ []) s.source))
        h
  Step-StateHolds (Step.send_closed s v sender down) h = failed_lem answer stopped inputs s h
  Step-StateHolds (Step.reserve s e) h = at_coordinator answer stopped inputs s e h
  Step-StateHolds (Step.overflow s m e) h =
      let (vs, f, g) = at_coordinator answer stopped inputs s e h in
      (
        vs,
        [],
        shorter answer stopped inputs vs _ f,
        gave answer stopped inputs s.cancelled (sym (append-nil (s.shown ++ s.responses))) g,
      )
  Step-StateHolds (Step.receive s v more rest e r fits) h =
      let (vs, f, g) = at_coordinator answer stopped inputs s e h in
      let later = coming answer stopped s.sender s.source in
      (
        vs,
        v ∷ more,
        regrouped answer stopped inputs vs
            (ap (λ l. l ++ later) r ∙ append_assoc (v ∷ more) rest later) f,
        gave answer stopped inputs s.cancelled (sym (append-nil (s.shown ++ s.responses))) g,
        running-QueueFits answer stopped s.cancelled (v ∷ more),
      )
  Step-StateHolds (Step.quit s e empty returned) h =
      let (vs, f, g) = at_coordinator answer stopped inputs s e h in
      (
        vs,
        [],
        shorter answer stopped inputs vs _ f,
        gave answer stopped inputs s.cancelled (sym (append-nil (s.shown ++ s.responses))) g,
      )
  Step-StateHolds (Step.next s rs ts e) h =
      awaited answer stopped inputs s.cancelled _ rs ts _
        (at_coordinator answer stopped inputs s e h)
  Step-StateHolds (Step.abort s m ts e) h =
      let (vs, qs, f, g, q) = at_coordinator answer stopped inputs s e h in
      (vs, [], shorter answer stopped inputs vs _ f, g)
  Step-StateHolds (Step.deliver s y ys ts e live room) h =
      let (vs, qs, f, g, q) = at_coordinator answer stopped inputs s e h in
      let moved =
        sym (append_assoc (s.shown ++ s.responses) (y ∷ []) ys)
        ∙ ap (λ l. l ++ ys) (append_assoc s.shown s.responses (y ∷ [])) in
      (vs, qs, f, gave answer stopped inputs s.cancelled moved g, q)
  Step-StateHolds (Step.deliver_closed s y ys ts e gone) h =
      let (vs, qs, f, g, q) = at_coordinator answer stopped inputs s e h in
      (vs, y ∷ ys, shorter answer stopped inputs vs _ f, g)
  Step-StateHolds (Step.again s e) h =
      waiting answer stopped inputs s.cancelled _ _ (at_coordinator answer stopped inputs s e h)
  Step-StateHolds (Step.reply s ys before after v rs e a) h =
      replaced answer stopped inputs s ys before after v (Task.finished rs) (inl a) e h
  Step-StateHolds (Step.crash s ys before after v m e a) h =
      replaced answer stopped inputs s ys before after v (Task.panicked m) a e h
  Step-StateHolds (Step.stop s ys before after v e cancelled) h =
      replaced answer stopped inputs s ys before after v (Task.finished (stopped ∷ []))
        (inr (cancelled, refl)) e h
  Step-StateHolds (Step.show s y ys e live) h =
      Holds-moved answer stopped inputs s.coordinator s.cancelled
        (ap (λ l. s.shown ++ l) e ∙ sym (append_assoc s.shown (y ∷ []) ys)) refl h
  Step-StateHolds (Step.drop s live) h = h
  Step-StateHolds (Step.interrupt s live) h =
      Holds-mono answer stopped inputs s.coordinator s.cancelled _ _ h

  start-StateHolds :
      (b : Res ⊥ (Unit {0})) (c : Bool)
      → StateHolds answer stopped inputs (State.coordinator (start b c inputs)) (start b c inputs)
  unfolding start
  start-StateHolds b c = ([], ([], append-nil inputs), Given.nothing)

  Run-StateHolds :
      (b : Res ⊥ (Unit {0})) (c : Bool) {n : ℕ} {s : State In Out}
      → Run cap answer stopped send_error join_error (start b c inputs) n s
      → StateHolds answer stopped inputs s.coordinator s
  Run-StateHolds b c Run.here = start-StateHolds b c
  Run-StateHolds b c (Run.then r st) = Step-StateHolds st (Run-StateHolds b c r)

  -- What was delivered, and what is held, were given to some first inputs.
  shown-Given :
      (k : Coordinator In Out) (s : State In Out)
      → StateHolds answer stopped inputs k s
      → (vs : List In) × (rest : List Out) × IsFirstPart vs inputs
        × Given answer stopped s.cancelled vs (s.shown ++ rest)
  shown-Given (Coordinator.starting _) s (vs, f, g) =
      (vs, s.responses, shorter answer stopped inputs vs _ f, g)
  shown-Given (Coordinator.receiving) s (vs, f, g) =
      (vs, s.responses, shorter answer stopped inputs vs _ f, g)
  shown-Given (Coordinator.working ys ts) s (vs, qs, f, g, q) = (
    vs,
    s.responses ++ ys,
    shorter answer stopped inputs vs _ f,
    gave answer stopped inputs s.cancelled (append_assoc s.shown s.responses ys) g,
  )
  shown-Given (Coordinator.exited) s (vs, rest, f, g) = (
    vs,
    s.responses ++ rest,
    f,
    gave answer stopped inputs s.cancelled (append_assoc s.shown s.responses rest) g,
  )
  shown-Given (Coordinator.aborted _) s (vs, rest, f, g) = (
    vs,
    s.responses ++ rest,
    f,
    gave answer stopped inputs s.cancelled (append_assoc s.shown s.responses rest) g,
  )
  shown-Given (Coordinator.crashed _) s (vs, rest, f, g) = (
    vs,
    s.responses ++ rest,
    f,
    gave answer stopped inputs s.cancelled (append_assoc s.shown s.responses rest) g,
  )

  -- At each point of a run, cancelled or not, there are some first inputs so that what the
  -- consumer has taken is a first part of replies to them in their order: each is given the
  -- replies of its query or, when the run is cancelled, possibly the one that says so.
  pub Run-IsGiven :
      (b : Res ⊥ (Unit {0})) (c : Bool) {n : ℕ} {s : State In Out}
      → Run cap answer stopped send_error join_error (start b c inputs) n s
      → (vs : List In) × (rest : List Out) × IsFirstPart vs inputs
        × Given answer stopped s.cancelled vs (s.shown ++ rest)
  Run-IsGiven b c {s} r = shown-Given s.coordinator s (Run-StateHolds b c r)
