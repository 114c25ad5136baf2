-- ===== src/Cache.antt =====
-- `Dns::dns_client` of src/dns/mod.rs: the client that the plugin keeps between calls, behind a
-- read-write lock. Calls run side by side; a call is at one of the points where it may wait.
pub mod Shared
pub mod Steps
pub mod Alone
use nu_plugin_dns.Prelude.{ℕ, suc, ◌==◌, List, [], ◌∷◌, Option, none, some, if◌then◌else◌}
use nu_plugin_dns.Prelude.Outcome.{Res, ok, err, panic}
use nu_plugin_dns.Nu.{LabeledError}

module _ {Client : Type 0} where
  -- One call by itself, over the cached client and what making a client would give.
  unfoldable pub dns_client :
      Res LabeledError Client → Option Client → Res LabeledError Client × Option Client
  dns_client made (some client) = (ok client, some client)
  dns_client (ok client) none = (ok client, some client)
  dns_client (err e) none = (err e, none)
  dns_client (panic m) none = (panic m, none)

-- Where a call stands: before the read lock, waiting for the write lock, making a client with the
-- write lock held, done with its result, or dropped by its timeout.
pub data Point (Client : Type 0) : Type 0 where
  reading waiting making dropped : Point Client
  done : Res LabeledError Client → Point Client

-- What happens next: call `t` looks behind the read lock, takes the write lock and looks again,
-- gets the outcome of `DnsClient::new`, or is dropped.
pub data Event (Client : Type 0) : Type 0 where
  read : ℕ → Event Client
  lock : ℕ → Event Client
  made : ℕ → Res LabeledError Client → Event Client
  timeout : ℕ → Event Client

pub record State (Client : Type 0) : Type 0 where
  pub cached : Option Client
  pub writer : Option ℕ
  pub calls : ℕ → Point Client
  -- How many clients were made.
  pub count : ℕ

module _ {Client : Type 0} where
  unfoldable pub at_call : ℕ → Point Client → (ℕ → Point Client) → ℕ → Point Client
  at_call t p calls u = if u == t then p else calls u

  -- The point of a call, and the cached client.
  abbrev pub look : Option Client → Point Client → Point Client
  look (some client) p = done (ok client)
  look none p = p

  -- `read().await`, which waits while the write lock is held
  unfoldable pub do_read : ℕ → State Client → Point Client → Option ℕ → Option (State Client)
  do_read t s reading none = some (record s { calls = at_call t (look s.cached waiting) s.calls })
  do_read t s _ _ = none

  -- `write().await`, and the match on what the lock guards
  unfoldable pub do_lock : ℕ → State Client → Point Client → Option ℕ → Option (State Client)
  do_lock t s waiting none = elim s.cached [
    | some client ↦ some (record s { calls = at_call t (done (ok client)) s.calls })
    | none ↦ some (record s { calls = at_call t making s.calls; writer = some t })
  ]
  do_lock t s _ _ = none

  unfoldable pub do_made :
      ℕ → State Client → Point Client → Res LabeledError Client → Option (State Client)
  do_made t s making (ok client) = some (record s {
    calls = at_call t (done (ok client)) s.calls;
    cached = some client;
    writer = none;
    count = suc s.count;
  })
  do_made t s making failed =
      some (record s { calls = at_call t (done failed) s.calls; writer = none })
  do_made t s _ _ = none

  -- A call that is dropped while it makes a client gives the lock back.
  unfoldable pub do_timeout : ℕ → State Client → Point Client → Option (State Client)
  do_timeout t s reading = some (record s { calls = at_call t dropped s.calls })
  do_timeout t s waiting = some (record s { calls = at_call t dropped s.calls })
  do_timeout t s making = some (record s { calls = at_call t dropped s.calls; writer = none })
  do_timeout t s _ = none

  unfoldable pub step : Event Client → State Client → Option (State Client)
  unfolding do_read do_lock do_made do_timeout at_call
  step (read t) s = do_read t s (s.calls t) s.writer
  step (lock t) s = do_lock t s (s.calls t) s.writer
  step (made t result) s = do_made t s (s.calls t) result
  step (timeout t) s = do_timeout t s (s.calls t)

  -- A run of events; `none` if one of them cannot happen.
  unfoldable pub run : List (Event Client) → State Client → Option (State Client)
  run [] s = some s
  run (e ∷ es) s = elim (step e s) [ none ↦ none | some s' ↦ run es s' ]

  abbrev pub initial : State Client
  initial = record { cached = none; writer = none; calls = λ t. reading; count = 0 }
