-- ===== src/Command/Stream/Given.antt =====
-- What the streaming branch of src/dns/commands/query.rs has shown at any point, cancelled or not.
pub mod Kept
pub mod Runs
use mathlib.Core.List.{append_assoc, append-nil}
use mathlib.Core.Path.{subst}
use nu_plugin_dns.Prelude.{ℕ, Bool, true, false, String, List, [], ◌∷◌, ◌++◌, map}
use nu_plugin_dns.Prelude.{ok, panic, ◌≡◌, refl, sym, ap, ◌∙◌, ◌⊎◌, inl, inr}
use nu_plugin_dns.Prelude.Outcome.{Res}
use nu_plugin_dns.Command.Stream.{
  State, Sender, Task, Coordinator, Step, Run, start, IsStopped, send_failed,
}

abbrev pub IsFirstPart {ℓ} : {A : Type ℓ} → List A → List A → Type ℓ
IsFirstPart {A} xs ys = (rest : List A) × (xs ++ rest ≡ ys)

module _ {In Out : Type 0} (answer : In → Res ⊥ (List Out)) (stopped : Out) where
  -- The replies to an item: those of its query, or the one that says it was cancelled.
  abbrev pub IsReply : Bool → In → List Out → Type 0
  IsReply c v rs = (answer v ≡ ok rs) ⊎ ((c ≡ true) × (rs ≡ stopped ∷ []))

  -- The replies to items in their order.
  pub data Given (c : Bool) : List In → List Out → Type 0 where
    nothing : Given c [] []
    more :
        {vs : List In} {ys : List Out} (v : In) (rs : List Out)
        → Given c vs ys
        → IsReply c v rs
        → Given c (vs ++ v ∷ []) (ys ++ rs)

  abbrev pub TaskFits : Bool → Task In Out → In → Type 0
  TaskFits c (Task.running w) v = w ≡ v
  TaskFits c (Task.finished rs) v = IsReply c v rs
  TaskFits c (Task.panicked m) v = answer v ≡ panic m

  -- The handles are those of these items.
  abbrev pub QueueFits : Bool → List (Task In Out) → List In → Type 0
  QueueFits c [] [] = Unit
  QueueFits c (t ∷ ts) (v ∷ vs) = TaskFits c t v × QueueFits c ts vs
  QueueFits c [] (_ ∷ _) = ⊥
  QueueFits c (_ ∷ _) [] = ⊥

  IsReply-mono : (c : Bool) {v : In} {rs : List Out} → IsReply c v rs → IsReply true v rs
  IsReply-mono c (inl e) = inl e
  IsReply-mono c (inr (_, e)) = inr (refl, e)

  pub Given-mono : (c : Bool) {vs : List In} {ys : List Out} → Given c vs ys → Given true vs ys
  Given-mono c Given.nothing = Given.nothing
  Given-mono c (Given.more v rs g r) = Given.more v rs (Given-mono c g) (IsReply-mono c r)

  pub QueueFits-mono :
      (c : Bool) (ts : List (Task In Out)) (vs : List In) → QueueFits c ts vs → QueueFits true ts vs
  QueueFits-mono c [] [] h = tt
  QueueFits-mono c (Task.running w ∷ ts) (v ∷ vs) (h, hs) = (h, QueueFits-mono c ts vs hs)
  QueueFits-mono c (Task.finished rs ∷ ts) (v ∷ vs) (h, hs) =
      (IsReply-mono c h, QueueFits-mono c ts vs hs)
  QueueFits-mono c (Task.panicked m ∷ ts) (v ∷ vs) (h, hs) = (h, QueueFits-mono c ts vs hs)
  QueueFits-mono c [] (_ ∷ _) h = absurd h
  QueueFits-mono c (_ ∷ _) [] h = absurd h

  pub running-QueueFits : (c : Bool) (vs : List In) → QueueFits c (map Task.running vs) vs
  running-QueueFits c [] = tt
  running-QueueFits c (v ∷ vs) = (refl, running-QueueFits c vs)

  -- A running query comes to its end.
  pub replaced-QueueFits :
      (c : Bool) (before after : List (Task In Out)) (w : In) (u : Task In Out) (vs : List In)
      → TaskFits c u w
      → QueueFits c (before ++ Task.running w ∷ after) vs
      → QueueFits c (before ++ u ∷ after) vs
  replaced-QueueFits c [] after w u (v ∷ vs) h (same, hs) = (subst (TaskFits c u) same h, hs)
  replaced-QueueFits c [] after w u [] h k = absurd k
  replaced-QueueFits c (b ∷ before) after w u (v ∷ vs) h (k, hs) =
      (k, replaced-QueueFits c before after w u vs h hs)
  replaced-QueueFits c (b ∷ before) after w u [] h k = absurd k

  -- What the sender still gives.
  abbrev pub coming : Sender In → List In → List In
  coming (Sender.ready) source = source
  coming (Sender.sending v) source = v ∷ source
  coming (Sender.exhausted) source = []
  coming (Sender.failed _) source = []

  module _ (inputs : List In) where
    -- Some first inputs were replied to by what was delivered and is held; the next are with the
    -- spawned queries, and the next still to come.
    abbrev pub Holds : Coordinator In Out → Bool → List Out → List In → Type 0
    Holds (Coordinator.starting _) c delivered todo =
        (vs : List In) × IsFirstPart (vs ++ todo) inputs × Given c vs delivered
    Holds (Coordinator.receiving) c delivered todo =
        (vs : List In) × IsFirstPart (vs ++ todo) inputs × Given c vs delivered
    Holds (Coordinator.working ys ts) c delivered todo =
        (vs : List In) × (qs : List In) × IsFirstPart (vs ++ (qs ++ todo)) inputs
        × Given c vs (delivered ++ ys)
        × QueueFits c ts qs
    Holds (Coordinator.exited) c delivered todo =
        (vs : List In) × (rest : List Out) × IsFirstPart vs inputs × Given c vs (delivered ++ rest)
    Holds (Coordinator.aborted _) c delivered todo =
        (vs : List In) × (rest : List Out) × IsFirstPart vs inputs × Given c vs (delivered ++ rest)
    Holds (Coordinator.crashed _) c delivered todo =
        (vs : List In) × (rest : List Out) × IsFirstPart vs inputs × Given c vs (delivered ++ rest)

    abbrev pub StateHolds : Coordinator In Out → State In Out → Type 0
    StateHolds k s =
        Holds k s.cancelled (s.shown ++ s.responses) (s.requests ++ coming s.sender s.source)
