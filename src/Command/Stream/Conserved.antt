-- ===== src/Command/Stream/Conserved.antt =====
-- What the threads of the streaming branch of src/dns/commands/query.rs hold together: the replies
-- delivered, those held and those still to come.
use mathlib.Core.List.{append_assoc}
use mathlib.Core.Path.{subst}
use nu_plugin_dns.Prelude.{Bool, false, String, List, [], ◌∷◌, ◌++◌, map, All}
use nu_plugin_dns.Prelude.{ok, err, panic, ◌≡◌, refl, sym, ap, ◌∙◌, ◌⊎◌, inl, inr}
use nu_plugin_dns.Prelude.Outcome.{Res}
use nu_plugin_dns.Command.Stream.{State, Sender, Task, Coordinator, IsStopped}

module _ {In Out : Type 0} (answer : In → Res ⊥ (List Out)) where
  -- The replies to an item: none if its query panics.
  abbrev pub replies : In → List Out
  replies v = elim (answer v) [ ok rs ↦ rs | err _ ↦ [] | panic _ ↦ [] ]

  -- The replies to the items in their order, each item's together.
  abbrev pub all_replies : List In → List Out
  all_replies [] = []
  all_replies (v ∷ vs) = replies v ++ all_replies vs

  pub all_replies-append :
      (vs ws : List In) → all_replies (vs ++ ws) ≡ all_replies vs ++ all_replies ws
  all_replies-append [] ws = refl
  all_replies-append (v ∷ vs) ws =
      ap (λ l. replies v ++ l) (all_replies-append vs ws)
      ∙ sym (append_assoc (replies v) (all_replies vs) (all_replies ws))

  abbrev pub task_replies : Task In Out → List Out
  task_replies (Task.running v) = replies v
  task_replies (Task.finished rs) = rs
  task_replies (Task.panicked _) = []

  abbrev pub queue_replies : List (Task In Out) → List Out
  queue_replies [] = []
  queue_replies (t ∷ ts) = task_replies t ++ queue_replies ts

  pub queue_replies-map : (vs : List In) → queue_replies (map Task.running vs) ≡ all_replies vs
  queue_replies-map [] = refl
  queue_replies-map (v ∷ vs) = ap (λ l. replies v ++ l) (queue_replies-map vs)

  pub queue_replies-replace :
      (before after : List (Task In Out)) (t u : Task In Out)
      → task_replies t ≡ task_replies u
      → queue_replies (before ++ t ∷ after) ≡ queue_replies (before ++ u ∷ after)
  queue_replies-replace [] after t u e = ap (λ l. l ++ queue_replies after) e
  queue_replies-replace (b ∷ before) after t u e =
      ap (λ l. task_replies b ++ l) (queue_replies-replace before after t u e)

  abbrev pub Panics : Type 0
  Panics = (v : In) × (m : String) × (answer v ≡ panic m)

  -- A handle that reports a panic is that of a query that panics.
  abbrev pub IsHonest : Task In Out → Type 0
  IsHonest (Task.panicked _) = Panics
  IsHonest _ = Unit

  pub running-IsHonest : (vs : List In) → All IsHonest (map Task.running vs)
  running-IsHonest [] = tt
  running-IsHonest (v ∷ vs) = (tt, running-IsHonest vs)

  pub All-replace :
      (before after : List (Task In Out)) (t u : Task In Out)
      → IsHonest u
      → All IsHonest (before ++ t ∷ after)
      → All IsHonest (before ++ u ∷ after)
  All-replace [] after t u h (_, hs) = (h, hs)
  All-replace (b ∷ before) after t u h (k, hs) = (k, All-replace before after t u h hs)

  abbrev pub held : Sender In → List In
  held (Sender.sending v) = v ∷ []
  held _ = []

  -- While nothing is cancelled and somebody receives, the sender stops at the stream's end only.
  abbrev pub SenderFits : Sender In → List In → Type 0
  SenderFits (Sender.exhausted) source = source ≡ []
  SenderFits (Sender.failed _) source = ⊥
  SenderFits _ source = Unit

  abbrev pub delivered : State In Out → List Out
  delivered s = s.shown ++ s.responses

  abbrev pub todo : State In Out → List In
  todo s = s.requests ++ (held s.sender ++ s.source)

  abbrev pub IsPrefix : List Out → List Out → Type 0
  IsPrefix xs ys = (rest : List Out) × (xs ++ rest ≡ ys)

  module _ (expected : List Out) where
    -- What was delivered, what the coordinator holds and what is still to come make up what is
    -- expected, as long as the coordinator runs.
    abbrev pub Fits : Coordinator In Out → List Out → List In → Sender In → List In → Bool → Type 0
    Fits (Coordinator.starting _) delivered todo sender source listening =
        (delivered ++ all_replies todo ≡ expected) × SenderFits sender source
    Fits (Coordinator.receiving) delivered todo sender source listening =
        (delivered ++ all_replies todo ≡ expected) × SenderFits sender source
    Fits (Coordinator.working ys ts) delivered todo sender source listening =
        (delivered ++ ((ys ++ queue_replies ts) ++ all_replies todo) ≡ expected)
        × SenderFits sender source
        × All IsHonest ts
    Fits (Coordinator.exited) delivered todo sender source listening = delivered ≡ expected
    Fits (Coordinator.aborted _) delivered todo sender source listening =
        IsPrefix delivered expected × ((listening ≡ false) ⊎ Panics)
    Fits (Coordinator.crashed _) delivered todo sender source listening =
        IsPrefix delivered expected

    abbrev pub StateFits : Coordinator In Out → State In Out → Type 0
    StateFits c s = Fits c (delivered s) (todo s) s.sender s.source s.listening

    -- As long as nothing is cancelled.
    abbrev pub Conserves : State In Out → Type 0
    Conserves s = s.cancelled ≡ false → StateFits s.coordinator s

    pub StateFits-mono :
        (c : Coordinator In Out) (s t : State In Out)
        → delivered s ≡ delivered t
        → all_replies (todo s) ≡ all_replies (todo t)
        → (SenderFits s.sender s.source → SenderFits t.sender t.source)
        → (s.listening ≡ false → t.listening ≡ false)
        → StateFits c s
        → StateFits c t
    StateFits-mono (Coordinator.starting _) s t d e f g (h, k) = (rw (← d, ← e) h, f k)
    StateFits-mono (Coordinator.receiving) s t d e f g (h, k) = (rw (← d, ← e) h, f k)
    StateFits-mono (Coordinator.working ys ts) s t d e f g (h, k, l) = (rw (← d, ← e) h, f k, l)
    StateFits-mono (Coordinator.exited) s t d e f g h = sym d ∙ h
    StateFits-mono (Coordinator.aborted _) s t d e f g ((rest, h), inl k) =
        ((rest, rw (← d) h), inl (g k))
    StateFits-mono (Coordinator.aborted _) s t d e f g ((rest, h), inr k) =
        ((rest, rw (← d) h), inr k)
    StateFits-mono (Coordinator.crashed _) s t d e f g (rest, h) = (rest, rw (← d) h)

    -- A coordinator that has returned does not depend on what is to come.
    pub sender-StateFits :
        (c : Coordinator In Out) (s : State In Out) (sender : Sender In)
        → IsStopped c
        → StateFits c s
        → StateFits c (record s { sender = sender })
    sender-StateFits (Coordinator.starting _) s sender stopped h = absurd stopped
    sender-StateFits (Coordinator.receiving) s sender stopped h = absurd stopped
    sender-StateFits (Coordinator.working _ _) s sender stopped h = absurd stopped
    sender-StateFits (Coordinator.exited) s sender stopped h = h
    sender-StateFits (Coordinator.aborted _) s sender stopped h = h
    sender-StateFits (Coordinator.crashed _) s sender stopped h = h

    pub at_coordinator :
        (s : State In Out) {c : Coordinator In Out}
        → s.coordinator ≡ c
        → Conserves s
        → s.cancelled ≡ false
        → StateFits c s
    at_coordinator s e h live = subst (λ c. StateFits c s) e (h live)

    pub replaced-StateFits :
        (s : State In Out) (ys : List Out) (before after : List (Task In Out)) (t u : Task In Out)
        → task_replies t ≡ task_replies u
        → IsHonest u
        → StateFits (Coordinator.working ys (before ++ t ∷ after)) s
        → StateFits (Coordinator.working ys (before ++ u ∷ after)) s
    replaced-StateFits s ys before after t u e h (k, l, m) =
        (rw (← queue_replies-replace before after t u e) k, l, All-replace before after t u h m)
