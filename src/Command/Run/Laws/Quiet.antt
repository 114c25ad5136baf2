-- ===== src/Command/Run/Laws/Quiet.antt =====
-- What `run_impl` of src/dns/commands/query.rs does without a panic, branch by branch.
use mathlib.Core.List.{Mem}
use mathlib.Core.List.Perm
use mathlib.Core.Logic.Or
use mathlib.Core.List.{mem-cons, mem-cons_of_mem, not-mem-nil}
use nu_plugin_dns.Prelude.{ℕ, suc, String, List, [], ◌∷◌, Option, none, some, Bool, true, false}
use nu_plugin_dns.Prelude.{ok, err, panic, ◌>>=◌, map_ok, collect_map}
use nu_plugin_dns.Prelude.{IsQuiet, ok-IsQuiet, >>=-eq-panic}
use nu_plugin_dns.Prelude.{◌≡◌, refl, sym, inl, inr, arith}
use nu_plugin_dns.Prelude.Outcome.{Res}
use nu_plugin_dns.Nu.{Value, Span, LabeledError}
use nu_plugin_dns.Nu.Protocol.{NuProtocol}
use nu_plugin_dns.Hickory.{Hickory}
use nu_plugin_dns.Hickory.Message.{Query}
use nu_plugin_dns.Config.{Config}
use nu_plugin_dns.Client.{DnsClient, new}
use nu_plugin_dns.Cache.{dns_client}
use nu_plugin_dns.Serde.Query.Laws.Quiet.{HasQuietParsers}
use nu_plugin_dns.Command.Run.Laws.{channel_cases}
use nu_plugin_dns.Command.Query.{IsUnfit, Host, Reply, IsLawful, reply_of, query}
use nu_plugin_dns.Command.Query.Laws.{AreReplies, query-IsAnswered}
use nu_plugin_dns.Command.Query.Laws.Total.{WasMade, CanBeShown, query-Succeeds}
use nu_plugin_dns.Command.Run.{PipelineData, Timing, resolve_input, serve, connect}

walked :
    {B : Type 0} {f : List Value → Res LabeledError B} (rs : List Reply) {m : String}
    → (collect_map (λ r. r) rs >>= f) ≡ panic m
    → ((vs : List Value) → IsQuiet (f vs))
    → collect_map (λ r. r) rs ≡ panic m
walked {f} rs e quiet = elim (>>=-eq-panic (collect_map (λ r. r) rs) f e) [
  | inl p ↦ p
  | inr (vs, _, p) ↦ absurd (quiet vs _ p)
]

-- A walk over replies ends in a panic only at one.
collect_map-Mem :
    (m : String) (rs : List Reply) → collect_map (λ r. r) rs ≡ panic m → Mem (panic m) rs
collect_map-Mem m [] e = cc
collect_map-Mem m (panic n ∷ rs) e =
    let same : ◌≡◌ {A = Reply} (panic m) (panic n) = cc in mem-cons.1 ∣ inl same ∣₁
collect_map-Mem m (err x ∷ rs) e = cc
collect_map-Mem m (ok v ∷ rs) e =
    mem-cons_of_mem _ (collect_map-Mem m rs (walked rs e λ vs. ok-IsQuiet _))

reply_of-IsQuiet : (r : Reply) {q : Reply} → reply_of r ≡ ok q → IsQuiet q
reply_of-IsQuiet (ok v) e s p = cc
reply_of-IsQuiet (err x) e s p = cc
reply_of-IsQuiet (panic m) e s p = cc

module _ {H : Hickory} (N : NuProtocol) (host : Host H) where
  replies-IsQuiet :
      (config : Config H) (client : DnsClient host.network) (span : Span) (late : ℕ → Bool) (i : ℕ)
      (qs : List (Query H)) (rs : List Reply) (m : String)
      → AreReplies N host config client span late i qs rs
      → ¬ Mem (panic m) rs
  replies-IsQuiet config client span late i [] [] m h mem = absurd (not-mem-nil mem)
  replies-IsQuiet config client span late i (q ∷ qs) (r ∷ rs) m (e, h) mem =
      Or.elim (hlevel) (mem-cons.0 mem) (λ same. reply_of-IsQuiet _ e m (sym same))
        (replies-IsQuiet config client span late (suc i) qs rs m h)
  replies-IsQuiet config client span late i [] (_ ∷ _) m h mem = absurd h
  replies-IsQuiet config client span late i (_ ∷ _) [] m h mem = absurd h

  -- The outputs of a value's replies.
  replied-IsQuiet :
      IsLawful host
      → (config : Config H) (client : DnsClient host.network) (late : ℕ → Bool) (val : Value)
        (rs : List Reply)
      → query N host config val client late ≡ ok rs
      → IsQuiet (collect_map (λ r. r) rs)
  replied-IsQuiet L config client late val rs e m p =
      elim (query-IsAnswered N host config L client late val e) [
        | inl (x, _, same) ↦ cc (rw same at p)
        | inr (qs, answers, _, each, perm, _) ↦
            replies-IsQuiet config client _ late 0 qs answers m each
              (Perm.subset perm _ (collect_map-Mem m rs p))
      ]

  -- A stream, and a number of tasks that no channel can be made for.
  abbrev pub IsUnfitStream : Config H → PipelineData → Type 0
  IsUnfitStream config input =
      (vals : List Value) × (span : Span) × (input ≡ PipelineData.list_stream vals span)
      × IsUnfit config.tasks.item

  pub serve-panic :
      IsLawful host
      → HasQuietParsers H N
      → (config : Config H) → ((r : host.network.Response) → CanBeShown N host config r)
      → (client : DnsClient host.network) → WasMade N host config client
      → (timing : Timing) (input : PipelineData) {m : String}
      → serve N host config client timing input ≡ panic m
      → IsUnfitStream config input
  unfolding serve
  serve-panic L quiet config shown client made timing (PipelineData.value val) {m} e =
      let (rs, q) = query-Succeeds N host config L quiet shown client made (timing.late 0) val in
      absurd (
        replied-IsQuiet L config client (timing.late 0) val rs q m
          (walked rs (rw q at e) λ vs. ok-IsQuiet _))
  serve-panic L quiet config shown client made timing (PipelineData.list_stream vals span) e =
      elim (channel_cases host L config.tasks.item) [
        | inl (_, made) ↦ cc (rw made at e)
        | inr (unfit, _, _) ↦ (vals, span, refl, unfit)
      ]
  serve-panic L quiet config shown client made timing PipelineData.empty e = cc
  serve-panic L quiet config shown client made timing (PipelineData.other _) e = cc

  pub resolve_input-IsQuiet :
      (arg : Value) (input : PipelineData) → IsQuiet (resolve_input N arg input)
  unfolding resolve_input
  resolve_input-IsQuiet arg PipelineData.empty = λ s p. cc
  resolve_input-IsQuiet arg (PipelineData.value (Value.nothing _)) = λ s p. cc
  resolve_input-IsQuiet arg (PipelineData.value _) = λ s p. ground arith
  resolve_input-IsQuiet arg (PipelineData.list_stream _ _) = λ s p. ground arith
  resolve_input-IsQuiet arg (PipelineData.other _) = λ s p. ground arith

  pub connect-IsQuiet :
      (config : Config H) (cached : Option (DnsClient host.network)) (late : Bool)
      → IsQuiet (new host.network config)
      → IsQuiet (connect N host config cached late).0
  unfolding connect dns_client
  connect-IsQuiet config cached true h = λ s p. cc
  connect-IsQuiet config (some c) false h = λ s p. cc
  connect-IsQuiet config none false h = made_lem (new host.network config) h
    where
      made_lem :
          (m : Res LabeledError (DnsClient host.network × List host.network.Background))
          → IsQuiet m
          → IsQuiet (dns_client (map_ok (λ made. made.0) m) none).0
      made_lem (ok _) h = λ s p. cc
      made_lem (err _) h = λ s p. cc
      made_lem (panic n) h = absurd (h n refl)
