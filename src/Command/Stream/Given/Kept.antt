-- ===== src/Command/Stream/Given/Kept.antt =====
-- How the steps of the streaming branch of src/dns/commands/query.rs keep what they hold of the
-- inputs.
use mathlib.Core.List.{append_assoc, append-nil}
use mathlib.Core.Path.{subst}
use nu_plugin_dns.Prelude.{Bool, true, List, [], ◌∷◌, ◌++◌}
use nu_plugin_dns.Prelude.{◌≡◌, refl, sym, ap, ◌∙◌}
use nu_plugin_dns.Prelude.Outcome.{Res}
use nu_plugin_dns.Command.Stream.{State, Task, Coordinator}
use nu_plugin_dns.Command.Stream.Given.{
  Given, IsFirstPart, TaskFits, QueueFits-mono, Given-mono, replaced-QueueFits, Holds, StateHolds,
}

module _ {In Out : Type 0} (answer : In → Res ⊥ (List Out)) (stopped : Out) (inputs : List In) where
  pub shorter : (xs ys : List In) → IsFirstPart (xs ++ ys) inputs → IsFirstPart xs inputs
  shorter xs ys (rest, e) = (ys ++ rest, sym (append_assoc xs ys rest) ∙ e)

  pub regrouped :
      (xs : List In) {ys zs : List In}
      → ys ≡ zs
      → IsFirstPart (xs ++ ys) inputs
      → IsFirstPart (xs ++ zs) inputs
  regrouped xs e h = subst (λ l. IsFirstPart (xs ++ l) inputs) e h

  -- Dropping the last of what is to come.
  lost :
      (xs ys zs : List In) → IsFirstPart (xs ++ (ys ++ zs)) inputs → IsFirstPart (xs ++ ys) inputs
  lost xs ys zs h =
      shorter (xs ++ ys) zs (subst (λ l. IsFirstPart l inputs) (sym (append_assoc xs ys zs)) h)

  pub lost_later :
      (k : Coordinator In Out) (c : Bool) (ds : List Out) (todo later : List In)
      → Holds answer stopped inputs k c ds (todo ++ later)
      → Holds answer stopped inputs k c ds todo
  lost_later (Coordinator.starting _) c ds todo later (vs, h, g) = (vs, lost vs todo later h, g)
  lost_later (Coordinator.receiving) c ds todo later (vs, h, g) = (vs, lost vs todo later h, g)
  lost_later (Coordinator.working ys ts) c ds todo later (vs, qs, h, g, q) =
      let grouped = regrouped vs (sym (append_assoc qs todo later)) h in
      (vs, qs, lost vs (qs ++ todo) later grouped, g, q)
  lost_later (Coordinator.exited) c ds todo later h = h
  lost_later (Coordinator.aborted _) c ds todo later h = h
  lost_later (Coordinator.crashed _) c ds todo later h = h

  pub Holds-moved :
      (k : Coordinator In Out) (c : Bool) {ds ds' : List Out} {todo todo' : List In}
      → ds ≡ ds'
      → todo ≡ todo'
      → Holds answer stopped inputs k c ds todo
      → Holds answer stopped inputs k c ds' todo'
  Holds-moved k c {ds} {ds'} {todo} d e h =
      subst (λ l. Holds answer stopped inputs k c ds' l) e
        (subst (λ l. Holds answer stopped inputs k c l todo) d h)

  pub Holds-mono :
      (k : Coordinator In Out) (c : Bool) (ds : List Out) (todo : List In)
      → Holds answer stopped inputs k c ds todo
      → Holds answer stopped inputs k true ds todo
  Holds-mono (Coordinator.starting _) c ds todo (vs, h, g) = (vs, h, Given-mono answer stopped c g)
  Holds-mono (Coordinator.receiving) c ds todo (vs, h, g) = (vs, h, Given-mono answer stopped c g)
  Holds-mono (Coordinator.working ys ts) c ds todo (vs, qs, h, g, q) =
      (vs, qs, h, Given-mono answer stopped c g, QueueFits-mono answer stopped c ts qs q)
  Holds-mono (Coordinator.exited) c ds todo (vs, rest, h, g) =
      (vs, rest, h, Given-mono answer stopped c g)
  Holds-mono (Coordinator.aborted _) c ds todo (vs, rest, h, g) =
      (vs, rest, h, Given-mono answer stopped c g)
  Holds-mono (Coordinator.crashed _) c ds todo (vs, rest, h, g) =
      (vs, rest, h, Given-mono answer stopped c g)

  pub gave :
      (c : Bool) {vs : List In} {xs ys : List Out}
      → xs ≡ ys
      → Given answer stopped c vs xs
      → Given answer stopped c vs ys
  gave c {vs} e g = subst (Given answer stopped c vs) e g

  -- The oldest handle is awaited.
  pub awaited :
      (c : Bool) (ds : List Out) (rs : List Out) (ts : List (Task In Out)) (todo : List In)
      → Holds answer stopped inputs (Coordinator.working [] (Task.finished rs ∷ ts)) c ds todo
      → Holds answer stopped inputs (Coordinator.working rs ts) c ds todo
  awaited c ds rs ts todo (vs, [], h, g, q) = absurd q
  awaited c ds rs ts todo (vs, v ∷ qs, h, g, (r, q)) = (
    vs ++ v ∷ [],
    qs,
    subst (λ l. IsFirstPart l inputs) (sym (append_assoc vs (v ∷ []) (qs ++ todo))) h,
    gave c (ap (λ l. l ++ rs) (append-nil ds)) (Given.more v rs g r),
    q,
  )

  pub waiting :
      (c : Bool) (ds : List Out) (todo : List In)
      → Holds answer stopped inputs (Coordinator.working [] []) c ds todo
      → Holds answer stopped inputs (Coordinator.receiving) c ds todo
  waiting c ds todo (vs, [], h, g, q) = (vs, h, gave c (append-nil ds) g)
  waiting c ds todo (vs, _ ∷ _, h, g, q) = absurd q

  pub at_coordinator :
      (s : State In Out) {k : Coordinator In Out}
      → s.coordinator ≡ k
      → StateHolds answer stopped inputs s.coordinator s
      → StateHolds answer stopped inputs k s
  at_coordinator s e h = subst (λ k. StateHolds answer stopped inputs k s) e h

  pub replaced :
      (s : State In Out) (ys : List Out) (before after : List (Task In Out)) (v : In)
      (u : Task In Out)
      → TaskFits answer stopped s.cancelled u v
      → s.coordinator ≡ Coordinator.working ys (before ++ Task.running v ∷ after)
      → StateHolds answer stopped inputs s.coordinator s
      → StateHolds answer stopped inputs (Coordinator.working ys (before ++ u ∷ after)) s
  replaced s ys before after v u fits e h =
      let (vs, qs, f, g, q) = at_coordinator s e h in
      (vs, qs, f, g, replaced-QueueFits answer stopped s.cancelled before after v u qs fits q)

  pub failed_lem :
      (s : State In Out)
      → StateHolds answer stopped inputs s.coordinator s
      → Holds answer stopped inputs s.coordinator s.cancelled
          (s.shown ++ s.responses)
          (s.requests ++ [])
  failed_lem s h =
      Holds-moved s.coordinator s.cancelled refl (sym (append-nil s.requests))
        (lost_later s.coordinator s.cancelled _ s.requests _ h)
