-- ===== src/Cache/Alone.antt =====
-- A call of `Dns::dns_client` of src/dns/mod.rs that no other disturbs ends, with the outcome of the
-- function `dns_client`: the steps of one call, put together, are the code.
use mathlib.Core.Path.{subst}
use nu_plugin_dns.Prelude.{ℕ, ==_iff, List, [], ◌∷◌, Option, none, some}
use nu_plugin_dns.Prelude.{◌≡◌, refl, sym, ap, ◌∙◌}
use nu_plugin_dns.Prelude.Outcome.{Res, ok, err, panic}
use nu_plugin_dns.Nu.{LabeledError}
use nu_plugin_dns.Cache.{
  dns_client, Point, reading, waiting, making, done, Event, read, lock, made, State, at_call,
  do_read, do_lock, do_made, step, run,
}

module _ {Client : Type 0} (outcome : Res LabeledError Client) (t : ℕ) where
  at_call_self : (p : Point Client) (calls : ℕ → Point Client) → at_call t p calls t ≡ p
  unfolding at_call
  at_call_self p calls = rw ((==_iff t t).1 refl)

  -- The call's own events: the read lock alone, or also the write lock and a new client.
  abbrev pub own_events : Option Client → List (Event Client)
  own_events (some c) = read t ∷ []
  own_events none = read t ∷ lock t ∷ made t outcome ∷ []

  -- They take the state to one where the call is done as `dns_client` says.
  abbrev pub Finishes : State Client → Type 0
  Finishes s =
      (s' : State Client) × (run (own_events s.cached) s ≡ some s')
      × (s'.calls t ≡ done (dns_client outcome s.cached).0)
      × (s'.cached ≡ (dns_client outcome s.cached).1)

  -- One step of the call, and then the others.
  run-read :
      (s : State Client) (es : List (Event Client))
      → s.calls t ≡ reading
      → run (read t ∷ es) s
        ≡ (elim (do_read t s reading s.writer) [ none ↦ none | some s' ↦ run es s' ])
  unfolding run step
  run-read s es e = ap (λ p. elim (do_read t s p s.writer) [ none ↦ none | some s' ↦ run es s' ]) e

  run-lock :
      (s : State Client) (es : List (Event Client))
      → s.calls t ≡ waiting
      → run (lock t ∷ es) s
        ≡ (elim (do_lock t s waiting s.writer) [ none ↦ none | some s' ↦ run es s' ])
  unfolding run step
  run-lock s es e = ap (λ p. elim (do_lock t s p s.writer) [ none ↦ none | some s' ↦ run es s' ]) e

  run-made :
      (s : State Client) (es : List (Event Client))
      → s.calls t ≡ making
      → run (made t outcome ∷ es) s
        ≡ (elim (do_made t s making outcome) [ none ↦ none | some s' ↦ run es s' ])
  unfolding run step
  run-made s es e = ap (λ p. elim (do_made t s p outcome) [ none ↦ none | some s' ↦ run es s' ]) e

  module _ (calls : ℕ → Point Client) (count : ℕ) where
    abbrev pub state : Option Client → Option ℕ → (ℕ → Point Client) → State Client
    state cached writer calls = record {
      cached = cached;
      writer = writer;
      calls = calls;
      count = count;
    }

    abbrev calls₁ : ℕ → Point Client
    calls₁ = at_call t waiting calls

    abbrev calls₂ : ℕ → Point Client
    calls₂ = at_call t making calls₁

    cached-Finishes : (c : Client) → calls t ≡ reading → Finishes (state (some c) none calls)
    unfolding do_read dns_client run
    cached-Finishes c e = (
      state (some c) none (at_call t (done (ok c)) calls),
      run-read (state (some c) none calls) [] e,
      at_call_self (done (ok c)) calls,
      refl,
    )

    -- With nothing cached: the read, the write lock, and what follows from the outcome.
    to_made :
        calls t ≡ reading
        → run (read t ∷ lock t ∷ made t outcome ∷ []) (state none none calls)
          ≡ (elim (do_made t (state none (some t) calls₂) making outcome) [
            | none ↦ none
            | some s' ↦ some s'
          ])
    unfolding do_read do_lock run
    to_made e =
        run-read (state none none calls) (lock t ∷ made t outcome ∷ []) e
        ∙ run-lock (state none none calls₁) (made t outcome ∷ []) (at_call_self waiting calls)
        ∙ run-made (state none (some t) calls₂) [] (at_call_self making calls₁)

module _ {Client : Type 0} where
  empty-Finishes :
      (outcome : Res LabeledError Client) (t : ℕ) (calls : ℕ → Point Client) (count : ℕ)
      → calls t ≡ reading
      → Finishes outcome t (state outcome t calls count none none calls)
  unfolding do_made dns_client
  empty-Finishes (ok c) t calls count e =
      (_, to_made (ok c) t calls count e, at_call_self (ok c) t (done (ok c)) _, refl)
  empty-Finishes (err x) t calls count e =
      (_, to_made (err x) t calls count e, at_call_self (err x) t (done (err x)) _, refl)
  empty-Finishes (panic x) t calls count e =
      (_, to_made (panic x) t calls count e, at_call_self (panic x) t (done (panic x)) _, refl)

  free-Finishes :
      (outcome : Res LabeledError Client) (t : ℕ) (cached : Option Client)
      (calls : ℕ → Point Client) (count : ℕ)
      → calls t ≡ reading
      → Finishes outcome t (state outcome t calls count cached none calls)
  free-Finishes outcome t (some c) calls count e = cached-Finishes outcome t calls count c e
  free-Finishes outcome t none calls count e = empty-Finishes outcome t calls count e

  -- A call that starts while the write lock is free runs to its end by its own events, and then its
  -- result and the cached client are those of `dns_client`, whatever `DnsClient::new` gives and
  -- wherever the other calls stand.
  pub run-dns_client :
      (outcome : Res LabeledError Client) (t : ℕ) (s : State Client)
      → s.calls t ≡ reading
      → s.writer ≡ none
      → Finishes outcome t s
  run-dns_client outcome t s at free =
      subst (λ w. Finishes outcome t (record s { writer = w })) (sym free)
        (free-Finishes outcome t s.cached s.calls s.count at)
