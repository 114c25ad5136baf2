-- ===== src/Tests/Stream.antt =====
-- The threads of the streaming branch of src/dns/commands/query.rs on a small input: each number is
-- answered by itself and its double.
use nu_plugin_dns.Prelude.{
  ℕ, ◌+◌, ◌*◌, ◌≤◌, true, false, String, List, [], ◌∷◌, ◌++◌, ok, panic, refl, length, arith,
}
use nu_plugin_dns.Prelude.Outcome.{Res}
use nu_plugin_dns.Command.Stream.{State, Sender, Task, Coordinator, Step, Run, start, canceled}
use nu_plugin_dns.Command.Stream.Bounds.{IsBounded, Run-IsBounded}
use nu_plugin_dns.Command.Stream.Conserved.{IsPrefix, all_replies}
use nu_plugin_dns.Command.Stream.Order.{Run-IsPrefix}
use nu_plugin_dns.Command.Stream.Ends.{Run-bounds}
use nu_plugin_dns.Command.Stream.Ends.Progress.{Returns, Run-Returns}
use nu_plugin_dns.Command.Stream.Reserved.{IsEmpty, Run-IsEmpty}
use nu_plugin_dns.Command.Stream.Given.{Given, IsFirstPart}
use nu_plugin_dns.Command.Stream.Given.Runs.{Run-IsGiven}

abbrev answer : ℕ → Res ⊥ (List ℕ)
answer v = ok (v ∷ 2 * v ∷ [])

abbrev join_error : String → String
join_error m = m

-- With two tasks: 5 and 6 are taken by the sender and received together, 6 is answered before 5, and
-- the first reply to 5 is shown.
abbrev before : State ℕ ℕ
before = start (ok tt) false (5 ∷ 6 ∷ [])

abbrev after : State ℕ ℕ
after = record {
  source = [];
  sender = Sender.ready;
  requests = [];
  coordinator = Coordinator.working (10 ∷ []) (Task.finished (6 ∷ 12 ∷ []) ∷ []);
  responses = [];
  shown = 5 ∷ [];
  listening = true;
  cancelled = false;
}

eleven_steps : Run 2 answer 0 "closed" join_error before 11 after
unfolding start
eleven_steps =
    Run.then
      (Run.then
        (Run.then
          (Run.then
            (Run.then
              (Run.then
                (Run.then
                  (Run.then
                    (Run.then
                      (Run.then (Run.then Run.here (Step.reserve _ refl))
                        (Step.take _ 5 (6 ∷ []) refl refl refl))
                      (Step.send _ 5 refl (λ h. h) (omega arith)))
                    (Step.take _ 6 [] refl refl refl))
                  (Step.send _ 6 refl (λ h. h) (omega arith)))
                (Step.receive _ 5 (6 ∷ []) [] refl refl (omega arith)))
              (Step.reply _ [] (Task.running 5 ∷ []) [] 6 (6 ∷ 12 ∷ []) refl refl))
            (Step.reply _ [] [] (Task.finished (6 ∷ 12 ∷ []) ∷ []) 5 (5 ∷ 10 ∷ []) refl refl))
          (Step.next _ (5 ∷ 10 ∷ []) (Task.finished (6 ∷ 12 ∷ []) ∷ []) refl))
        (Step.deliver _ 5 (10 ∷ []) (Task.finished (6 ∷ 12 ∷ []) ∷ []) refl refl (omega arith)))
      (Step.show _ 5 [] refl refl)

Run-IsBounded_example : IsBounded 2 after
Run-IsBounded_example =
    Run-IsBounded 2 answer 0 "closed" join_error (ok tt) false (5 ∷ 6 ∷ []) eleven_steps

Run-IsPrefix_example : IsPrefix answer (5 ∷ []) (5 ∷ 10 ∷ 6 ∷ 12 ∷ [])
Run-IsPrefix_example =
    Run-IsPrefix 2 answer 0 "closed" join_error (5 ∷ 6 ∷ []) (ok tt) false eleven_steps refl

Run-bounds_example :
    11 ≤ 8 * length {A = ℕ} (5 ∷ 6 ∷ []) + 2 * length (all_replies answer (5 ∷ 6 ∷ [])) + 5
Run-bounds_example =
    Run-bounds 2 answer 0 "closed" join_error (ok tt) false (5 ∷ 6 ∷ []) eleven_steps

-- The query of 5 is running when the user interrupts: its reply says so, and 6 is refused.
abbrev interrupted : State ℕ ℕ
interrupted = record {
  source = [];
  sender = Sender.failed canceled;
  requests = [];
  coordinator = Coordinator.working [] [];
  responses = [];
  shown = 0 ∷ [];
  listening = true;
  cancelled = true;
}

-- The consumer is gone while 5 is being answered, 6 waits for its turn and the sender for a place.
abbrev abandoned : State ℕ ℕ
abandoned = record {
  source = 8 ∷ [];
  sender = Sender.sending 7;
  requests = 6 ∷ [];
  coordinator = Coordinator.working [] (Task.running 5 ∷ []);
  responses = 3 ∷ [];
  shown = [];
  listening = false;
  cancelled = false;
}

Run-Returns_example : Returns 1 answer 0 "closed" join_error abandoned
Run-Returns_example = Run-Returns 1 answer 0 "closed" join_error (omega arith) abandoned

ten_steps : Run 2 answer 0 "closed" join_error before 10 interrupted
unfolding start
ten_steps =
    Run.then
      (Run.then
        (Run.then
          (Run.then
            (Run.then
              (Run.then
                (Run.then
                  (Run.then
                    (Run.then (Run.then Run.here (Step.reserve _ refl))
                      (Step.take _ 5 (6 ∷ []) refl refl refl))
                    (Step.send _ 5 refl (λ h. h) (omega arith)))
                  (Step.receive _ 5 [] [] refl refl (omega arith)))
                (Step.interrupt _ refl))
              (Step.refuse _ 6 [] refl refl refl))
            (Step.stop _ [] [] [] 5 refl refl))
          (Step.next _ (0 ∷ []) [] refl))
        (Step.deliver _ 0 [] [] refl refl (omega arith)))
      (Step.show _ 0 [] refl refl)

Run-IsGiven_example :
    (vs : List ℕ) × (rest : List ℕ) × IsFirstPart vs (5 ∷ 6 ∷ [])
    × Given answer 0 true vs ((0 ∷ []) ++ rest)
Run-IsGiven_example =
    Run-IsGiven answer 0 (5 ∷ 6 ∷ []) 2 "closed" join_error (ok tt) false ten_steps

-- The sender's first request is never received.
abbrev unreserved : State ℕ ℕ
unreserved = record {
  source = 6 ∷ [];
  sender = Sender.sending 5;
  requests = [];
  coordinator = Coordinator.crashed "capacity overflow";
  responses = [];
  shown = [];
  listening = true;
  cancelled = false;
}

two_steps :
    Run 2 answer 0 "closed" join_error
      (start (panic "capacity overflow") false (5 ∷ 6 ∷ []))
      2
      unreserved
unfolding start
two_steps =
    Run.then (Run.then Run.here (Step.take _ 5 (6 ∷ []) refl refl refl))
      (Step.overflow _ "capacity overflow" refl)

Run-IsEmpty_example : IsEmpty unreserved
Run-IsEmpty_example =
    Run-IsEmpty 2 answer 0 "closed" join_error false (5 ∷ 6 ∷ []) "capacity overflow" two_steps
