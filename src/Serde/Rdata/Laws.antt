-- ===== src/Serde/Rdata/Laws.antt =====
-- When `RData::into_value` of src/dns/serde.rs gives a value.
use nu_plugin_dns.Prelude.{ℤ, pos, as_i64, All, Succeeds, >>=-Succeeds, ◌≡◌, refl}
use nu_plugin_dns.Nu.{Value, Span}
use nu_plugin_dns.Std.HashMap.{Iteration}
use nu_plugin_dns.Hickory.Message.{Rdata}
use nu_plugin_dns.Hickory.Rdata.Dnssec.{DnssecRdata, Sig, Tsig}
use nu_plugin_dns.Serde.Util.{Chrono, LocalResult, sec_to_date}
use nu_plugin_dns.Serde.Rdata.{rdata_value}
use nu_plugin_dns.Serde.Rdata.Dnssec.{dnssec_value, sig_value, tsig_value}
use nu_plugin_dns.Serde.Rdata.Options.Laws.{IsSupported, opt_value-Succeeds}

module _ (C : Chrono) where
  -- A number of seconds that chrono has one date for.
  abbrev pub IsDate : ℤ → Type 0
  IsDate secs = (d : ℤ) × (C.timestamp_opt secs ≡ LocalResult.single d)

  -- Record data whose times are dates, and whose options have an arm in the code.
  abbrev pub IsReadable : Rdata → Type 0
  IsReadable (Rdata.opt o) = All IsSupported o
  IsReadable (Rdata.dnssec (DnssecRdata.sig s)) =
      IsDate (pos s.sig_expiration) × IsDate (pos s.sig_inception)
  IsReadable (Rdata.dnssec (DnssecRdata.tsig t)) = IsDate (as_i64 t.time)
  IsReadable _ = Unit

  sec_to_date-Succeeds : (secs : ℤ) (span : Span) → IsDate secs → Succeeds (sec_to_date C secs span)
  unfolding sec_to_date
  sec_to_date-Succeeds secs span (d, e) = (Value.date d Span.unknown, rw (e, sec_to_date))

  sig_value-Succeeds :
      (s : Sig)
      → IsDate (pos s.sig_expiration)
      → IsDate (pos s.sig_inception)
      → Succeeds (sig_value C s)
  unfolding sig_value
  sig_value-Succeeds s h k =
      >>=-Succeeds (sec_to_date C (pos s.sig_expiration) Span.unknown) _
        (sec_to_date-Succeeds _ _ h)
        λ expiration.
          >>=-Succeeds (sec_to_date C (pos s.sig_inception) Span.unknown) _
            (sec_to_date-Succeeds _ _ k) λ inception. (_, refl)

  tsig_value-Succeeds : (t : Tsig) → IsDate (as_i64 t.time) → Succeeds (tsig_value C t)
  unfolding tsig_value
  tsig_value-Succeeds t h =
      >>=-Succeeds (sec_to_date C (as_i64 t.time) Span.unknown) _ (sec_to_date-Succeeds _ _ h)
        λ time. (_, refl)

  dnssec_value-Succeeds :
      (d : DnssecRdata) → IsReadable (Rdata.dnssec d) → Succeeds (dnssec_value C d)
  unfolding dnssec_value
  dnssec_value-Succeeds (DnssecRdata.sig s) (h, k) = sig_value-Succeeds s h k
  dnssec_value-Succeeds (DnssecRdata.tsig t) h = tsig_value-Succeeds t h
  dnssec_value-Succeeds _ _ = (_, refl)

  -- Record data of every variant has a value, if its times are dates to chrono and its options are
  -- of variants that the code has an arm for.
  pub rdata_value-Succeeds :
      (I : Iteration Value) (r : Rdata) → IsReadable r → Succeeds (rdata_value C I r)
  unfolding rdata_value
  rdata_value-Succeeds I (Rdata.opt o) h = opt_value-Succeeds I o h
  rdata_value-Succeeds I (Rdata.dnssec d) h = dnssec_value-Succeeds d h
  rdata_value-Succeeds I _ _ = (_, refl)
