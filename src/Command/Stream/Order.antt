-- ===== src/Command/Stream/Order.antt =====
-- The order of the output of the streaming branch of src/dns/commands/query.rs: that of the input.
use mathlib.Core.List.{append_assoc, append-nil}
use nu_plugin_dns.Prelude.{ℕ, Bool, true, false, String, List, [], ◌∷◌, ◌++◌, map}
use nu_plugin_dns.Prelude.{ok, ◌≡◌, refl, sym, ap, ◌∙◌, ◌⊎◌, inl, inr}
use nu_plugin_dns.Prelude.Outcome.{Res}
use nu_plugin_dns.Command.Stream.{
  State, Sender, Task, Coordinator, Step, Run, start, IsStopped, IsReturned, send_failed,
}
use nu_plugin_dns.Command.Stream.Reserved.{IsReserved, Run-IsReserved}
use nu_plugin_dns.Command.Stream.Conserved.{
  Conserves, replies, all_replies, all_replies-append, queue_replies, queue_replies-map, Panics,
  running-IsHonest, held, SenderFits, delivered, todo, IsPrefix, StateFits, StateFits-mono,
  sender-StateFits, at_coordinator, replaced-StateFits,
}

module _ {In Out : Type 0} (cap : ℕ) (answer : In → Res ⊥ (List Out)) (stopped : Out)
    (send_error : String) (join_error : String → String) (expected : List Out) where
  sender_at :
      (s : State In Out) {sender : Sender In}
      → s.sender ≡ sender
      → all_replies answer (todo answer s)
        ≡ all_replies answer (s.requests ++ (held answer sender ++ s.source))
  sender_at s e = ap (λ x. all_replies answer (s.requests ++ (held answer x ++ s.source))) e

  received :
      (s : State In Out) (v : In) (more rest : List In)
      → s.requests ≡ v ∷ more ++ rest
      → delivered answer s ++ all_replies answer (todo answer s) ≡ expected
      → delivered answer s
          ++ (queue_replies answer (map Task.running (v ∷ more))
              ++ all_replies answer (rest ++ (held answer s.sender ++ s.source)))
        ≡ expected
  received s v more rest r k =
      let later = held answer s.sender ++ s.source in
      ap (λ q. delivered answer s ++ (q ++ all_replies answer (rest ++ later)))
        (queue_replies-map answer (v ∷ more))
      ∙ ap (λ l. delivered answer s ++ l)
          (sym (all_replies-append answer (v ∷ more) (rest ++ later)))
      ∙ ap (λ l. delivered answer s ++ all_replies answer l)
          (sym (append_assoc (v ∷ more) rest later) ∙ ap (λ q. q ++ later) (sym r))
      ∙ k

  returned_lem :
      (sender : Sender In) (source : List In)
      → IsReturned sender
      → SenderFits answer sender source
      → (source ≡ []) × (held answer sender ≡ [])
  returned_lem (Sender.exhausted) source r h = (h, refl)
  returned_lem (Sender.failed _) source r h = absurd h
  returned_lem (Sender.ready) source r h = absurd r
  returned_lem (Sender.sending _) source r h = absurd r

  moved :
      (s : State In Out) (y : Out) (later : List Out)
      → delivered answer s ++ y ∷ later ≡ expected
      → (s.shown ++ (s.responses ++ y ∷ [])) ++ later ≡ expected
  moved s y later k =
      ap (λ l. l ++ later) (sym (append_assoc s.shown s.responses (y ∷ [])))
      ∙ append_assoc (delivered answer s) (y ∷ []) later
      ∙ k

  Step-Conserves :
      {s t : State In Out}
      → Step cap answer stopped send_error join_error s t
      → Conserves answer expected s
      → Conserves answer expected t
  Step-Conserves (Step.take s v rest e sender live) h c =
      StateFits-mono answer expected s.coordinator s
        (record s { source = rest; sender = Sender.sending v }) refl
        (sender_at s sender ∙ ap (λ l. all_replies answer (s.requests ++ l)) e) (λ _. tt) (λ l. l)
        (h c)
  Step-Conserves (Step.refuse s v rest e sender cancelled) h c = cc
  Step-Conserves (Step.finish_stream s e sender) h c =
      StateFits-mono answer expected s.coordinator s (record s { sender = Sender.exhausted }) refl
        (sender_at s sender) (λ _. e) (λ l. l) (h c)
  Step-Conserves (Step.send s v sender up room) h c =
      StateFits-mono answer expected s.coordinator s
        (record s { sender = Sender.ready; requests = s.requests ++ v ∷ [] }) refl
        (sender_at s sender
          ∙ ap (all_replies answer) (sym (append_assoc s.requests (v ∷ []) s.source)))
        (λ _. tt) (λ l. l) (h c)
  Step-Conserves (Step.send_closed s v sender down) h c =
      sender-StateFits answer expected s.coordinator s
        (Sender.failed (send_failed cap answer stopped send_error join_error)) down (h c)
  Step-Conserves (Step.reserve s e) h c = at_coordinator answer expected s e h c
  Step-Conserves (Step.overflow s m e) h c =
      let (k, _) = at_coordinator answer expected s e h c in (_, k)
  Step-Conserves (Step.receive s v more rest e r fits) h c =
      let (k, l) = at_coordinator answer expected s e h c in
      (received s v more rest r k, l, running-IsHonest answer (v ∷ more))
  Step-Conserves (Step.quit s e empty returned) h c =
      let (k, l) = at_coordinator answer expected s e h c in
      let (over, none_held) = returned_lem s.sender s.source returned l in
      let nothing : todo answer s ≡ [] = rw (empty, none_held, over) in
      sym (append-nil (delivered answer s))
      ∙ ap (λ l. delivered answer s ++ all_replies answer l) (sym nothing)
      ∙ k
  Step-Conserves (Step.next s rs ts e) h c =
      let (k, l, (_, m)) = at_coordinator answer expected s e h c in (k, l, m)
  Step-Conserves (Step.abort s m ts e) h c =
      let (k, _, (honest, _)) = at_coordinator answer expected s e h c in ((_, k), inr honest)
  Step-Conserves (Step.deliver s y ys ts e live room) h c =
      let (k, l, m) = at_coordinator answer expected s e h c in (moved s y _ k, l, m)
  Step-Conserves (Step.deliver_closed s y ys ts e gone) h c =
      let (k, _, _) = at_coordinator answer expected s e h c in ((_, k), inl gone)
  Step-Conserves (Step.again s e) h c =
      let (k, l, _) = at_coordinator answer expected s e h c in (k, l)
  Step-Conserves (Step.reply s ys before after v rs e a) h c =
      replaced-StateFits answer expected s ys before after _ _ (rw (a, replies)) tt
        (at_coordinator answer expected s e h c)
  Step-Conserves (Step.crash s ys before after v m e a) h c =
      replaced-StateFits answer expected s ys before after _ _ (rw (a, replies)) (v, m, a)
        (at_coordinator answer expected s e h c)
  Step-Conserves (Step.stop s ys before after v e cancelled) h c = cc
  Step-Conserves (Step.show s y ys e live) h c =
      StateFits-mono answer expected s.coordinator s
        (record s { responses = ys; shown = s.shown ++ y ∷ [] })
        (ap (λ l. s.shown ++ l) e ∙ sym (append_assoc s.shown (y ∷ []) ys)) refl (λ k. k) (λ l. l)
        (h c)
  Step-Conserves (Step.drop s live) h c =
      StateFits-mono answer expected s.coordinator s (record s { listening = false }) refl refl
        (λ k. k) (λ _. refl) (h c)
  Step-Conserves (Step.interrupt s live) h c = cc

module _ {In Out : Type 0} (cap : ℕ) (answer : In → Res ⊥ (List Out)) (stopped : Out)
    (send_error : String) (join_error : String → String) (inputs : List In) where
  start-Conserves :
      (b : Res ⊥ (Unit {0})) (c : Bool)
      → Conserves answer (all_replies answer inputs) (start b c inputs)
  unfolding start
  start-Conserves b c live = (refl, tt)

  Run-Conserves :
      (b : Res ⊥ (Unit {0})) (c : Bool) {n : ℕ} {s : State In Out}
      → Run cap answer stopped send_error join_error (start b c inputs) n s
      → Conserves answer (all_replies answer inputs) s
  Run-Conserves b c Run.here = start-Conserves b c
  Run-Conserves b c (Run.then r st) =
      Step-Conserves cap answer stopped send_error join_error (all_replies answer inputs) st
        (Run-Conserves b c r)

  shown_prefix :
      (k : Coordinator In Out) (s : State In Out) (expected : List Out)
      → StateFits answer expected k s
      → IsPrefix answer s.shown expected
  shown_prefix (Coordinator.starting _) s expected (h, _) =
      (_, sym (append_assoc s.shown s.responses _) ∙ h)
  shown_prefix (Coordinator.receiving) s expected (h, _) =
      (_, sym (append_assoc s.shown s.responses _) ∙ h)
  shown_prefix (Coordinator.working ys ts) s expected (h, _, _) =
      (_, sym (append_assoc s.shown s.responses _) ∙ h)
  shown_prefix (Coordinator.exited) s expected h = (s.responses, h)
  shown_prefix (Coordinator.aborted _) s expected ((rest, h), _) =
      (_, sym (append_assoc s.shown s.responses rest) ∙ h)
  shown_prefix (Coordinator.crashed _) s expected (rest, h) =
      (_, sym (append_assoc s.shown s.responses rest) ∙ h)

  -- At each point of a run that is not cancelled, what the consumer has taken is a first part of the
  -- replies to the inputs in their order, each input's together, however the queries were batched
  -- and whichever finished first.
  pub Run-IsPrefix :
      (b : Res ⊥ (Unit {0})) (c : Bool) {n : ℕ} {s : State In Out}
      → Run cap answer stopped send_error join_error (start b c inputs) n s
      → s.cancelled ≡ false
      → IsPrefix answer s.shown (all_replies answer inputs)
  Run-IsPrefix b c {s} r live =
      shown_prefix s.coordinator s (all_replies answer inputs) (Run-Conserves b c r live)

  all_shown :
      (k : Coordinator In Out) (s : State In Out) (expected : List Out)
      → IsStopped k
      → IsReserved k
      → s.responses ≡ []
      → s.listening ≡ true
      → StateFits answer expected k s
      → (s.shown ≡ expected) ⊎ Panics answer
  all_shown (Coordinator.exited) s expected over got empty on h =
      inl (sym (append-nil s.shown) ∙ ap (λ l. s.shown ++ l) (sym empty) ∙ h)
  all_shown (Coordinator.aborted _) s expected over got empty on (_, inl off) = cc
  all_shown (Coordinator.aborted _) s expected over got empty on (_, inr p) = inr p
  all_shown (Coordinator.starting _) s expected over got empty on h = absurd over
  all_shown (Coordinator.crashed _) s expected over got empty on h = absurd got
  all_shown (Coordinator.receiving) s expected over got empty on h = absurd over
  all_shown (Coordinator.working _ _) s expected over got empty on h = absurd over

  -- When the buffer of the requests was reserved and the output of a run that is not cancelled ends for a consumer that still listens, it has
  -- taken all replies to all inputs in their order, unless some query panics.
  pub Run-shown :
      (c : Bool) {n : ℕ} {s : State In Out}
      → Run cap answer stopped send_error join_error (start (ok tt) c inputs) n s
      → s.cancelled ≡ false
      → s.listening ≡ true
      → IsStopped s.coordinator
      → s.responses ≡ []
      → (s.shown ≡ all_replies answer inputs) ⊎ Panics answer
  Run-shown c {s} r live on over empty =
      all_shown s.coordinator s (all_replies answer inputs) over
        (Run-IsReserved cap answer stopped send_error join_error c inputs r) empty on
        (Run-Conserves (ok tt) c r live)
