-- ===== src/Cache/Steps.antt =====
-- Every step of the calls of `Dns::dns_client` of src/dns/mod.rs keeps the invariant, and what
-- follows for a run.
use mathlib.Core.Path.{subst}
use mathlib.Core.Option.{some-injective}
use nu_plugin_dns.Prelude.{ℕ, suc, List, [], ◌∷◌, Option, none, some, Option-cases, inl, inr}
use nu_plugin_dns.Prelude.{◌≡◌, refl, sym, ap, ◌∙◌, arith}
use nu_plugin_dns.Prelude.Outcome.{Res, ok, err, panic}
use nu_plugin_dns.Nu.{LabeledError}
use nu_plugin_dns.Cache.{
  Point, reading, waiting, making, dropped, done, Event, read, lock, made, timeout, State, at_call,
  do_read, do_lock, do_made, do_timeout, step, run, initial,
}
use nu_plugin_dns.Cache.Shared.{
  IsShared, Counts, Fits, initial-IsShared, at_call-Fits, Fits-lock, Fits-release, Fits-cache,
  Counts-free, look-Fits, moved-IsShared, released-IsShared,
}

module _ {Client : Type 0} where
  -- The invariant at the writer that the state has.
  with_writer :
      (s : State Client) (w : Option ℕ)
      → s.writer ≡ w
      → IsShared s
      → IsShared (record s { writer = w })
  with_writer s w e i = subst (λ v. IsShared (record s { writer = v })) e i

  do_read-IsShared :
      (t : ℕ) (s : State Client) (p : Point Client) (w : Option ℕ) {s' : State Client}
      → do_read t s p w ≡ some s'
      → IsShared s
      → IsShared s'
  unfolding do_read
  do_read-IsShared t s reading none e i =
      subst IsShared (some-injective _ _ e)
        (moved-IsShared s.cached s.calls s.count t s.writer _ i (look-Fits s.cached s.writer t))
  do_read-IsShared t s reading (some u) e i = cc
  do_read-IsShared t s waiting _ e i = cc
  do_read-IsShared t s making _ e i = cc
  do_read-IsShared t s dropped _ e i = cc
  do_read-IsShared t s (done _) _ e i = cc

  -- The write lock is taken only to make a client, so nothing is cached.
  locked-IsShared :
      (cached : Option Client) (calls : ℕ → Point Client) (count t : ℕ)
      → cached ≡ none
      → IsShared (record { cached = cached; writer = none; calls = calls; count = count })
      → IsShared (record {
        cached = cached;
        writer = some t;
        calls = at_call t making calls;
        count = count;
      })
  locked-IsShared none calls count t e i = record {
    fits =
        at_call-Fits none (some t) t making calls refl
          (λ u _. Fits-lock none t u (calls u) (i.fits u));
    counts = i.counts;
  }
  locked-IsShared (some c) calls count t e i = cc

  do_lock-IsShared :
      (t : ℕ) (s : State Client) (p : Point Client) (w : Option ℕ) {s' : State Client}
      → s.writer ≡ w
      → do_lock t s p w ≡ some s'
      → IsShared s
      → IsShared s'
  unfolding do_lock
  do_lock-IsShared t s waiting none free e i = elim (Option-cases s.cached) [
    | inl empty ↦
        subst IsShared (some-injective _ _ (rw (empty, do_lock) at e))
          (locked-IsShared s.cached s.calls s.count t empty (with_writer s none free i))
    | inr (c, full) ↦
        subst IsShared (some-injective _ _ (rw (full, do_lock) at e))
          (moved-IsShared s.cached s.calls s.count t s.writer _ i full)
  ]
  do_lock-IsShared t s waiting (some u) free e i = cc
  do_lock-IsShared t s reading _ free e i = cc
  do_lock-IsShared t s making _ free e i = cc
  do_lock-IsShared t s dropped _ free e i = cc
  do_lock-IsShared t s (done _) _ free e i = cc

  made-IsShared :
      (cached : Option Client) (calls : ℕ → Point Client) (count t : ℕ) (c : Client)
      → cached ≡ none
      → IsShared (record { cached = cached; writer = some t; calls = calls; count = count })
      → IsShared (record {
        cached = some c;
        writer = none;
        calls = at_call t (done (ok c)) calls;
        count = suc count;
      })
  made-IsShared none calls count t c e i = record {
    fits =
        at_call-Fits (some c) none t (done (ok c)) calls refl
          (λ u ne. Fits-cache c none u (calls u) (Fits-release none t u (calls u) ne (i.fits u)));
    counts = (ap suc i.counts, refl);
  }
  made-IsShared (some d) calls count t c e i = cc

  -- A call that makes a client holds the lock.
  holds : (t : ℕ) (s : State Client) → s.calls t ≡ making → IsShared s → s.writer ≡ some t
  holds t s at i = subst (Fits s.cached s.writer t) at (i.fits t)

  free-of-held : (t : ℕ) (s : State Client) → s.writer ≡ some t → IsShared s → s.cached ≡ none
  free-of-held t s held i = Counts-free s.cached t s.count (with_writer s (some t) held i).counts

  do_made-IsShared :
      (t : ℕ) (s : State Client) (p : Point Client) (result : Res LabeledError Client)
      {s' : State Client}
      → s.calls t ≡ p
      → do_made t s p result ≡ some s'
      → IsShared s
      → IsShared s'
  unfolding do_made
  do_made-IsShared t s making (ok c) at e i =
      let held = holds t s at i in
      subst IsShared (some-injective _ _ e) (
        made-IsShared s.cached s.calls s.count t c (free-of-held t s held i)
          (with_writer s (some t) held i))
  do_made-IsShared t s making (err x) at e i = subst IsShared (some-injective _ _ e) (
      released-IsShared s.cached s.calls s.count t _ (with_writer s (some t) (holds t s at i) i) tt)
  do_made-IsShared t s making (panic x) at e i = subst IsShared (some-injective _ _ e) (
      released-IsShared s.cached s.calls s.count t _ (with_writer s (some t) (holds t s at i) i) tt)
  do_made-IsShared t s reading _ at e i = cc
  do_made-IsShared t s waiting _ at e i = cc
  do_made-IsShared t s dropped _ at e i = cc
  do_made-IsShared t s (done _) _ at e i = cc

  do_timeout-IsShared :
      (t : ℕ) (s : State Client) (p : Point Client) {s' : State Client}
      → s.calls t ≡ p
      → do_timeout t s p ≡ some s'
      → IsShared s
      → IsShared s'
  unfolding do_timeout
  do_timeout-IsShared t s reading at e i =
      subst IsShared (some-injective _ _ e)
        (moved-IsShared s.cached s.calls s.count t s.writer dropped i tt)
  do_timeout-IsShared t s waiting at e i =
      subst IsShared (some-injective _ _ e)
        (moved-IsShared s.cached s.calls s.count t s.writer dropped i tt)
  do_timeout-IsShared t s making at e i = subst IsShared (some-injective _ _ e) (
      released-IsShared s.cached s.calls s.count t dropped
        (with_writer s (some t) (holds t s at i) i) tt)
  do_timeout-IsShared t s dropped at e i = cc
  do_timeout-IsShared t s (done _) at e i = cc

  step-IsShared :
      (e : Event Client) (s : State Client) {s' : State Client}
      → step e s ≡ some s'
      → IsShared s
      → IsShared s'
  unfolding step
  step-IsShared (read t) s e i = do_read-IsShared t s (s.calls t) s.writer e i
  step-IsShared (lock t) s e i = do_lock-IsShared t s (s.calls t) s.writer refl e i
  step-IsShared (made t result) s e i = do_made-IsShared t s (s.calls t) result refl e i
  step-IsShared (timeout t) s e i = do_timeout-IsShared t s (s.calls t) refl e i

  -- Every run of events from a state with the invariant ends in one with it: each call that was
  -- given a client was given the cached one, a call that makes a client holds the lock, the lock
  -- is held only while nothing is cached, and what is cached is the one client that was made.
  pub run-IsShared :
      (es : List (Event Client)) (s : State Client) {s' : State Client}
      → run es s ≡ some s'
      → IsShared s
      → IsShared s'
  unfolding run
  run-IsShared [] s e i = subst IsShared (some-injective _ _ e) i
  run-IsShared (ev ∷ es) s e i = elim (Option-cases (step ev s)) [
    | inl stuck ↦ absurd (ground arith)
    | inr (s₁, next) ↦ run-IsShared es s₁ (rw (next, run) at e) (step-IsShared ev s next i)
  ]

  -- However the calls interleave, time out or fail to connect: two calls that were given clients
  -- were given the same one, and it is the only one that was made.
  pub run_shared :
      (es : List (Event Client)) {s : State Client} (t u : ℕ) (c d : Client)
      → run es initial ≡ some s
      → s.calls t ≡ done (ok c)
      → s.calls u ≡ done (ok d)
      → (c ≡ d) × (s.count ≡ 1)
  run_shared es {s} t u c d e p q =
      let i = run-IsShared es initial e initial-IsShared in
      let at_t = subst (Fits s.cached s.writer t) p (i.fits t) in
      let at_u = subst (Fits s.cached s.writer u) q (i.fits u) in
      (
        some-injective c d (sym at_t ∙ at_u),
        (subst (λ o. Counts o s.writer s.count) at_t i.counts).0,
      )
