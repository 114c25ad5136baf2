-- ===== src/Cache/Shared.antt =====
-- Over any interleaving of calls of `Dns::dns_client` of src/dns/mod.rs, one client serves them all.
use mathlib.Core.Option.{some-injective}
use nu_plugin_dns.Prelude.{ℕ, ◌==◌, ==_iff, Option, none, some, Bool-cases, inl, inr}
use nu_plugin_dns.Prelude.{◌≡◌, ◌≢◌, refl, sym, arith}
use nu_plugin_dns.Prelude.Outcome.{ok, err, panic}
use mathlib.Core.Path.{subst}
use nu_plugin_dns.Cache.{
  Point, reading, waiting, making, dropped, done, State, look, at_call, initial,
}

module _ {Client : Type 0} where
  -- What holds of a call, with what is cached and who holds the write lock: a client that a call
  -- was given is the cached one, and a call that makes a client holds the lock.
  abbrev pub Fits : Option Client → Option ℕ → ℕ → Point Client → Type 0
  Fits cached writer t (done (ok client)) = cached ≡ some client
  Fits cached writer t (done _) = Unit
  Fits cached writer t making = writer ≡ some t
  Fits cached writer t _ = Unit

  -- The lock is held only while nothing is cached, and what is cached was made once.
  abbrev pub Counts : Option Client → Option ℕ → ℕ → Type 0
  Counts none writer count = count ≡ 0
  Counts (some _) writer count = (count ≡ 1) × (writer ≡ none)

  pub record IsShared (s : State Client) : Type 0 where
    pub fits : (t : ℕ) → Fits s.cached s.writer t (s.calls t)
    pub counts : Counts s.cached s.writer s.count

  pub initial-IsShared : IsShared initial
  initial-IsShared = record { fits = λ t. tt; counts = refl }

  -- Changing one call leaves the others.
  pub at_call-Fits :
      (cached : Option Client) (writer : Option ℕ) (t : ℕ) (p : Point Client)
      (calls : ℕ → Point Client)
      → Fits cached writer t p
      → ((u : ℕ) → u ≢ t → Fits cached writer u (calls u))
      → (u : ℕ) → Fits cached writer u (at_call t p calls u)
  unfolding at_call
  at_call-Fits cached writer t p calls h hs u = elim (Bool-cases (u == t)) [
    | inl same ↦ rw same (subst (λ v. Fits cached writer v p) (sym ((==_iff u t).0 same)) h)
    | inr other ↦ rw other (hs u (λ e. ground (arith, (==_iff u t).1 e)))
  ]

  -- With the lock free, no call makes a client: taking the lock breaks nothing.
  pub Fits-lock :
      (cached : Option Client) (t u : ℕ) (p : Point Client)
      → Fits cached none u p
      → Fits cached (some t) u p
  Fits-lock cached t u making h = cc
  Fits-lock cached t u reading h = tt
  Fits-lock cached t u waiting h = tt
  Fits-lock cached t u dropped h = tt
  Fits-lock cached t u (done (ok c)) h = h
  Fits-lock cached t u (done (err _)) h = tt
  Fits-lock cached t u (done (panic _)) h = tt

  -- With the lock held by `t`, no other call makes a client: giving it back breaks nothing.
  pub Fits-release :
      (cached : Option Client) (t u : ℕ) (p : Point Client)
      → u ≢ t
      → Fits cached (some t) u p
      → Fits cached none u p
  Fits-release cached t u making ne h = absurd (ne (sym (some-injective t u h)))
  Fits-release cached t u reading ne h = tt
  Fits-release cached t u waiting ne h = tt
  Fits-release cached t u dropped ne h = tt
  Fits-release cached t u (done (ok c)) ne h = h
  Fits-release cached t u (done (err _)) ne h = tt
  Fits-release cached t u (done (panic _)) ne h = tt

  -- With nothing cached, no call was given a client: caching one breaks nothing.
  pub Fits-cache :
      (c : Client) (writer : Option ℕ) (u : ℕ) (p : Point Client)
      → Fits none writer u p
      → Fits (some c) writer u p
  Fits-cache c writer u making h = h
  Fits-cache c writer u reading h = tt
  Fits-cache c writer u waiting h = tt
  Fits-cache c writer u dropped h = tt
  Fits-cache c writer u (done (ok d)) h = cc
  Fits-cache c writer u (done (err _)) h = tt
  Fits-cache c writer u (done (panic _)) h = tt

  pub Counts-free : (cached : Option Client) (t n : ℕ) → Counts cached (some t) n → cached ≡ none
  Counts-free none t n h = refl
  Counts-free (some c) t n h = cc

  pub look-Fits :
      (cached : Option Client) (writer : Option ℕ) (t : ℕ)
      → Fits cached writer t (look cached waiting)
  look-Fits none writer t = tt
  look-Fits (some c) writer t = refl

  -- The state is a record of its four parts, which the steps change one by one.
  module _ (cached : Option Client) (calls : ℕ → Point Client) (count t : ℕ) where
    pub moved-IsShared :
        (writer : Option ℕ) (p : Point Client)
        → IsShared (record { cached = cached; writer = writer; calls = calls; count = count })
        → Fits cached writer t p
        → IsShared
            (record { cached = cached; writer = writer; calls = at_call t p calls; count = count })
    moved-IsShared writer p i h = record {
      fits = at_call-Fits cached writer t p calls h (λ u _. i.fits u);
      counts = i.counts;
    }

    pub released-IsShared :
        (p : Point Client)
        → IsShared (record { cached = cached; writer = some t; calls = calls; count = count })
        → Fits cached none t p
        → IsShared
            (record { cached = cached; writer = none; calls = at_call t p calls; count = count })
    released-IsShared p i h = record {
      fits =
          at_call-Fits cached none t p calls h
            (λ u ne. Fits-release cached t u (calls u) ne (i.fits u));
      counts = Counts-release cached i.counts;
    }
      where
        Counts-release : (o : Option Client) → Counts o (some t) count → Counts o none count
        Counts-release none h = h
        Counts-release (some c) h = cc
