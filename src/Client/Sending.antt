-- ===== src/Client/Sending.antt =====
-- What `DnsHandle::send` of src/dns/client.rs gives: which of the two clients answers.
use nu_plugin_dns.Prelude.{true, false, List, [], ◌∷◌, ◌++◌, Option, none, some, All}
use nu_plugin_dns.Prelude.{ok, ◌≡◌, ◌≢◌, refl, ap, arith}
use mathlib.Core.List.{append_assoc}
use nu_plugin_dns.Hickory.{Hickory}
use nu_plugin_dns.Config.{Config, DnssecMode}
use nu_plugin_dns.Client.{Item, Network, DnsClient, new, is_unsigned, first_signed, send_by, send}
use nu_plugin_dns.Client.Laws.{IsFor, IsSomeOf, new-IsFor}

module _ (W : Network) where
  open W use {AsyncClient, AsyncDnssecClient, Background, Request, Response}

  IsFor-ne-none :
      (mode : DnssecMode) {c : DnsClient W} (bg : List Background)
      → IsFor W mode c bg
      → c.async_client ≡ none
      → c.dnssec_client ≢ none
  IsFor-ne-none DnssecMode.none bg h p q = ground arith
  IsFor-ne-none DnssecMode.strict bg h p q = ground arith
  IsFor-ne-none DnssecMode.opportunistic bg h p q = ground arith

  send_by-total :
      (a : Option AsyncClient) (d : Option AsyncDnssecClient) (request : Request)
      → (a ≡ none → d ≢ none)
      → (items : List (Item Response)) × (send_by W a d request ≡ ok items)
  unfolding send_by
  send_by-total none none request h = absurd (h refl refl)
  send_by-total (some a) none request h = (_, refl)
  send_by-total none (some d) request h = (_, refl)
  send_by-total (some a) (some d) request h = (_, refl)

  -- A client that `new` made can send: it never reaches the code that is marked unreachable.
  pub send-new :
      {H : Hickory} (config : Config H) {c : DnsClient W} {bg : List Background} (request : Request)
      → new W config ≡ ok (c, bg)
      → (items : List (Item Response)) × (send W c request ≡ ok items)
  unfolding send
  send-new config {c} request e =
      send_by-total c.async_client c.dnssec_client request
        (IsFor-ne-none config.dnssec_mode.item _ (new-IsFor W config e).1)

  send_by-strict :
      (a : Option AsyncClient) (d : Option AsyncDnssecClient)
      → a ≡ none
      → IsSomeOf d
      → (d' : AsyncDnssecClient) × ((request : Request)
          → send_by W a d request ≡ ok (W.send_dnssec d' request))
  unfolding send_by
  send_by-strict none (some d) p _ = (d, λ request. refl)
  send_by-strict a none p h = absurd h
  send_by-strict (some a) (some d) p _ = cc

  -- In the mode `strict` every answer of a client that `new` made is the validating client's.
  pub send-new_strict :
      {H : Hickory} (config : Config H) {c : DnsClient W} {bg : List Background}
      → new W config ≡ ok (c, bg)
      → config.dnssec_mode.item ≡ DnssecMode.strict
      → (d : AsyncDnssecClient) × ((request : Request)
          → send W c request ≡ ok (W.send_dnssec d request))
  unfolding send
  send-new_strict config {c} e strict =
      let made = rw strict at (new-IsFor W config e).1 in
      send_by-strict c.async_client c.dnssec_client made.0 made.1

  -- The items of the first stream that say "not signed", then the first that does not.
  first_signed-append :
      (unsigned : List (Item Response)) (item : Item Response) (rest : List (Item Response))
      → All (λ i. is_unsigned W i ≡ true) unsigned
      → is_unsigned W item ≡ false
      → first_signed W (unsigned ++ item ∷ rest) ≡ item ∷ []
  unfolding first_signed
  first_signed-append [] item rest _ signed = rw signed
  first_signed-append (i ∷ is) item rest (u, us) signed =
      rw u (first_signed-append is item rest us signed)

  first_signed-append_unsigned :
      (unsigned items : List (Item Response))
      → All (λ i. is_unsigned W i ≡ true) unsigned
      → first_signed W (unsigned ++ items) ≡ first_signed W items
  unfolding first_signed
  first_signed-append_unsigned [] items _ = refl
  first_signed-append_unsigned (i ∷ is) items (u, us) =
      rw u (first_signed-append_unsigned is items us)

  module _ (a : AsyncClient) (d : AsyncDnssecClient) (request : Request) where
    abbrev pub both : DnsClient W
    both = record { async_client = some a; dnssec_client = some d }

    -- With both clients, the first item of the validating client that does not say "not signed" is
    -- the one item sent on, an answer or an error alike: a record that fails to validate is not
    -- replaced by the plain client's answer.
    pub send-both_validated :
        (unsigned : List (Item Response)) (item : Item Response) (rest : List (Item Response))
        → W.send_dnssec d request ≡ unsigned ++ item ∷ rest
        → All (λ i. is_unsigned W i ≡ true) unsigned
        → is_unsigned W item ≡ false
        → send W both request ≡ ok (item ∷ [])
    unfolding send
    send-both_validated unsigned item rest e us signed =
        rw (e, append_assoc)
          (ap (λ l. ok l)
            (first_signed-append unsigned item (rest ++ W.send_async a request) us signed))

    -- With both clients, if all items of the validating client say "not signed", what is sent on
    -- is the plain client's first item that does not say so, or nothing if it has none.
    pub send-both_unsigned :
        All (λ i. is_unsigned W i ≡ true) (W.send_dnssec d request)
        → send W both request ≡ ok (first_signed W (W.send_async a request))
    unfolding send
    send-both_unsigned us = ap (λ l. ok l) (first_signed-append_unsigned _ _ us)
