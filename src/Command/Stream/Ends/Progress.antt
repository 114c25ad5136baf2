-- ===== src/Command/Stream/Ends/Progress.antt =====
-- The ends of the threads of the streaming branch of src/dns/commands/query.rs when `--tasks` is not 0:
-- whether they wait for one another, and where a run goes on to.
use mathlib.Core.Path.{subst}
use nu_plugin_dns.Prelude.{ℕ, zero, suc, ◌<◌, Bool, true, false, String, List, [], ◌∷◌, length}
use nu_plugin_dns.Prelude.{
  ok, err, panic, ◌≡◌, refl, ap, sym, ◌∙◌, arith, ◌⊎◌, inl, inr, Bool-cases,
}
use nu_plugin_dns.Prelude.Outcome.{Res}
use nu_plugin_dns.Command.Stream.{
  State, Sender, Task, Coordinator, Step, Run, start, IsStopped, IsReturned,
}
use nu_plugin_dns.Command.Stream.Conserved.{all_replies, Panics}
use nu_plugin_dns.Command.Stream.Order.{Run-shown}
use nu_plugin_dns.Command.Stream.Ends.{weight, Step-weight}

List-cases : {A : Type 0} (l : List A) → (l ≡ []) ⊎ ((x : A) × (xs : List A) × (l ≡ x ∷ xs))
List-cases [] = inl refl
List-cases (x ∷ xs) = inr (x, xs, refl)

module _ {In Out : Type 0} (cap : ℕ) (answer : In → Res ⊥ (List Out)) (stopped : Out)
    (send_error : String) (join_error : String → String) where
  abbrev Ahead : State In Out → Type 0
  Ahead s =
      (t : State In Out) × Step cap answer stopped send_error join_error s t
      × (t.listening ≡ s.listening)
      × (t.cancelled ≡ s.cancelled)

  -- Nothing is left that the consumer could take.
  abbrev pub IsDrained : State In Out → Type 0
  IsDrained s = (s.responses ≡ []) ⊎ (s.listening ≡ false)

  -- All threads have returned.
  abbrev pub IsOver : State In Out → Type 0
  IsOver s = IsStopped s.coordinator × IsReturned s.sender × IsDrained s

  module _ (s : State In Out) (some_tasks : 0 < cap) where
    from_ready : s.sender ≡ Sender.ready → Ahead s
    from_ready e = elim (List-cases s.source) [
      | inl empty ↦ (_, Step.finish_stream s empty e, refl, refl)
      | inr (v, rest, more) ↦ elim (Bool-cases s.cancelled) [
        | inl cancelled ↦ (_, Step.refuse s v rest more e cancelled, refl, refl)
        | inr live ↦ (_, Step.take s v rest more e live, refl, refl)
      ]
    ]

    -- The coordinator waits for a request and there is none.
    from_sender :
        (x : Sender In)
        → s.coordinator ≡ Coordinator.receiving
        → s.requests ≡ []
        → s.sender ≡ x
        → Ahead s
    from_sender (Sender.ready) c empty e = from_ready e
    from_sender (Sender.sending v) c empty e = (
      _,
      Step.send s v e (λ over. subst IsStopped c over) (omega (arith, ap length empty)),
      refl,
      refl,
    )
    from_sender (Sender.exhausted) c empty e =
        (_, Step.quit s c empty (subst IsReturned (sym e) tt), refl, refl)
    from_sender (Sender.failed x) c empty e =
        (_, Step.quit s c empty (subst IsReturned (sym e) tt), refl, refl)

    -- The oldest query still runs.
    from_running :
        (v : In) (ts : List (Task In Out)) (r : Res ⊥ (List Out))
        → s.coordinator ≡ Coordinator.working [] (Task.running v ∷ ts)
        → answer v ≡ r
        → Ahead s
    from_running v ts (ok rs) c e = (_, Step.reply s [] [] ts v rs c e, refl, refl)
    from_running v ts (panic m) c e = (_, Step.crash s [] [] ts v m c e, refl, refl)
    from_running v ts (err x) c e = absurd x

    -- The coordinator has a reply to send.
    from_reply :
        (y : Out) (ys : List Out) (ts : List (Task In Out))
        → s.coordinator ≡ Coordinator.working (y ∷ ys) ts
        → IsDrained s
        → Ahead s
    from_reply y ys ts c (inr gone) = (_, Step.deliver_closed s y ys ts c gone, refl, refl)
    from_reply y ys ts c (inl empty) = elim (Bool-cases s.listening) [
      | inl on ↦ (_, Step.deliver s y ys ts c on (omega (arith, ap length empty)), refl, refl)
      | inr gone ↦ (_, Step.deliver_closed s y ys ts c gone, refl, refl)
    ]

    from_coordinator :
        (k : Coordinator In Out) → s.coordinator ≡ k → IsDrained s → IsStopped k ⊎ Ahead s
    from_coordinator (Coordinator.starting (ok tt)) c drained =
        inr (_, Step.reserve s c, refl, refl)
    from_coordinator (Coordinator.starting (panic m)) c drained =
        inr (_, Step.overflow s m c, refl, refl)
    from_coordinator (Coordinator.starting (err x)) c drained = absurd x
    from_coordinator (Coordinator.crashed _) c drained = inl tt
    from_coordinator (Coordinator.exited) c drained = inl tt
    from_coordinator (Coordinator.aborted _) c drained = inl tt
    from_coordinator (Coordinator.working (y ∷ ys) ts) c drained =
        inr (from_reply y ys ts c drained)
    from_coordinator (Coordinator.working [] []) c drained = inr (_, Step.again s c, refl, refl)
    from_coordinator (Coordinator.working [] (Task.running v ∷ ts)) c drained =
        inr (from_running v ts (answer v) c refl)
    from_coordinator (Coordinator.working [] (Task.finished rs ∷ ts)) c drained =
        inr (_, Step.next s rs ts c, refl, refl)
    from_coordinator (Coordinator.working [] (Task.panicked m ∷ ts)) c drained =
        inr (_, Step.abort s m ts c, refl, refl)
    from_coordinator (Coordinator.receiving) c drained = elim (List-cases s.requests) [
      | inl none_left ↦ inr (from_sender s.sender c none_left refl)
      | inr (v, rest, r) ↦ inr (_, Step.receive s v [] rest c r (omega arith), refl, refl)
    ]

    -- The coordinator has returned, so that no send blocks.
    from_stopped : (x : Sender In) → IsStopped s.coordinator → s.sender ≡ x → IsReturned x ⊎ Ahead s
    from_stopped (Sender.ready) over e = inr (from_ready e)
    from_stopped (Sender.sending v) over e = inr (_, Step.send_closed s v e over, refl, refl)
    from_stopped (Sender.exhausted) over e = inl tt
    from_stopped (Sender.failed _) over e = inl tt

    from_drained : IsDrained s → IsOver s ⊎ Ahead s
    from_drained drained = elim (from_coordinator s.coordinator refl drained) [
      | inr step ↦ inr step
      | inl over ↦ elim (from_stopped s.sender over refl) [
        | inr step ↦ inr step
        | inl returned ↦ inl (over, returned, drained)
      ]
    ]

    -- All threads have returned, or one of them can take a step.
    progress : IsOver s ⊎ Ahead s
    progress = elim (Bool-cases s.listening) [
      | inr gone ↦ from_drained (inr gone)
      | inl on ↦ elim (List-cases s.responses) [
        | inl empty ↦ from_drained (inl empty)
        | inr (y, ys, e) ↦ inr (_, Step.show s y ys e on, refl, refl)
      ]
    ]

  -- The run goes on from this state until all threads have returned.
  abbrev pub Returns : State In Out → Type 0
  Returns s =
      (m : ℕ) × (t : State In Out) × Run cap answer stopped send_error join_error s m t
      × IsOver t
      × (t.listening ≡ s.listening)
      × (t.cancelled ≡ s.cancelled)

  go_on :
      (fuel m : ℕ) (s t : State In Out)
      → 0 < cap
      → weight answer t < fuel
      → Run cap answer stopped send_error join_error s m t
      → t.listening ≡ s.listening
      → t.cancelled ≡ s.cancelled
      → Returns s
  go_on zero m s t some_tasks enough from on live = absurd (omega arith)
  go_on (suc fuel) m s t some_tasks enough from on live = elim (progress t some_tasks) [
    | inl over ↦ (m, t, from, over, on, live)
    | inr (u, step, on', live') ↦
        go_on fuel (suc m) s u some_tasks
          (omega (arith, Step-weight cap answer stopped send_error join_error step))
          (Run.then from step) (on' ∙ on) (live' ∙ live)
  ]

  -- With at least one task no thread is left waiting: from each state, also a cancelled one and one
  -- whose consumer is gone, steps of the threads lead to one where `stream_requests` has returned,
  -- `coordinate_queries` has returned or panicked for its buffer, and a consumer that listens has taken all replies sent; no
  -- interrupt and no drop of the output is needed for it.
  pub Run-Returns : 0 < cap → (s : State In Out) → Returns s
  Run-Returns some_tasks s =
      go_on (suc (weight answer s)) 0 s s some_tasks (omega arith) Run.here refl refl

  Run-append :
      {n : ℕ} {s t : State In Out} {m : ℕ} {u : State In Out}
      → Run cap answer stopped send_error join_error s n t
      → Run cap answer stopped send_error join_error t m u
      → (k : ℕ) × Run cap answer stopped send_error join_error s k u
  Run-append {n} r Run.here = (n, r)
  Run-append r (Run.then q step) = let (k, p) = Run-append r q in (suc k, Run.then p step)

  emptied : (s : State In Out) → s.listening ≡ true → IsDrained s → s.responses ≡ []
  emptied s on (inl empty) = empty
  emptied s on (inr gone) = cc

  module _ (c : Bool) (inputs : List In) where
    -- The run goes on from this state to the end of the output, and then the consumer has taken all
    -- replies, or some query panics.
    abbrev pub Completes : State In Out → Type 0
    Completes s =
        (m : ℕ) × (t : State In Out) × Run cap answer stopped send_error join_error s m t
        × IsStopped t.coordinator
        × (t.responses ≡ [])
        × ((t.shown ≡ all_replies answer inputs) ⊎ Panics answer)

    -- With at least one task and the buffer of the requests reserved, each point of a run that is not cancelled and whose consumer still
    -- listens can go on to the end of the output, where the consumer has taken all replies to all
    -- inputs in their order, unless some query panics.
    pub Run-Completes :
        0 < cap
        → {n : ℕ} {s : State In Out}
        → Run cap answer stopped send_error join_error (start (ok tt) c inputs) n s
        → s.listening ≡ true
        → s.cancelled ≡ false
        → Completes s
    Run-Completes some_tasks {n} {s} r on live =
        let (m, t, q, (over, _, drained), on', live') = Run-Returns some_tasks s in
        let (_, whole) = Run-append r q in
        let empty = emptied t (on' ∙ on) drained in
        (
          m,
          t,
          q,
          over,
          empty,
          Run-shown cap answer stopped send_error join_error inputs c whole (live' ∙ live)
              (on' ∙ on) over empty,
        )
