-- ===== src/Serde/Rdata/Dnssec/Tidy.antt =====
-- The values of DNSSEC record data in src/dns/serde.rs name no column twice.
use nu_plugin_dns.Prelude.{arith, ◌≡◌, refl, pos, as_i64, ℤ}
use nu_plugin_dns.Nu.{Span}
use nu_plugin_dns.Hickory.Rdata.Dnssec.{
  Key, KeyTrust, KeyProtocol, Nsec, Nsec3, Sig, Tsig, DnssecRdata,
}
use nu_plugin_dns.Serde.Util.{Chrono, LocalResult, sec_to_date, sec_to_duration}
use nu_plugin_dns.Serde.Tidy.{tidy, IsTidy, GivesTidy, >>=-GivesTidy, GivesTidy-ok, strings-IsTidy}
use nu_plugin_dns.Serde.Rdata.Dnssec.{
  parse_ds, parse_dnskey, key_prohibitions, key_protocol, key_value, nsec_value, nsec3_value,
  nsec3param_value, sig_value, tsig_value, dnssec_value, dnssec_unknown_value,
}

prohibitions-IsTidy : (t : KeyTrust) → IsTidy (key_prohibitions t).0 × IsTidy (key_prohibitions t).1
unfolding key_prohibitions tidy
prohibitions-IsTidy KeyTrust.not_auth = (refl, refl)
prohibitions-IsTidy _ = (refl, refl)

key_protocol-IsTidy : (p : KeyProtocol) → IsTidy (key_protocol p)
unfolding key_protocol tidy
key_protocol-IsTidy KeyProtocol.tls = refl
key_protocol-IsTidy _ = refl

key_value-IsTidy : (key : Key) → IsTidy (key_value key)
unfolding key_value tidy
key_value-IsTidy key =
    ground (arith, prohibitions-IsTidy key.key_trust, key_protocol-IsTidy key.protocol)

nsec_value-IsTidy : (nsec : Nsec) → IsTidy (nsec_value nsec)
unfolding nsec_value tidy
nsec_value-IsTidy nsec = ground (arith, strings-IsTidy nsec.type_bit_maps)

nsec3_value-IsTidy : (nsec3 : Nsec3) → IsTidy (nsec3_value nsec3)
unfolding nsec3_value tidy
nsec3_value-IsTidy nsec3 = ground (arith, strings-IsTidy nsec3.type_bit_maps)

module _ (C : Chrono) where
  date_lem :
      (found : LocalResult) (secs : ℤ) (span : Span)
      → C.timestamp_opt secs ≡ found
      → GivesTidy (sec_to_date C secs span)
  unfolding sec_to_date tidy
  date_lem LocalResult.none secs span e = rw (e, sec_to_date) tt
  date_lem (LocalResult.single d) secs span e = rw (e, sec_to_date) refl
  date_lem (LocalResult.ambiguous d₁ d₂) secs span e = rw (e, sec_to_date) tt

  sec_to_date-GivesTidy : (secs : ℤ) (span : Span) → GivesTidy (sec_to_date C secs span)
  sec_to_date-GivesTidy secs span = date_lem (C.timestamp_opt secs) secs span refl

  sig_value-GivesTidy : (s : Sig) → GivesTidy (sig_value C s)
  unfolding sig_value tidy sec_to_duration
  sig_value-GivesTidy s =
      >>=-GivesTidy (sec_to_date C (pos s.sig_expiration) Span.unknown) _ λ expiration e.
        >>=-GivesTidy (sec_to_date C (pos s.sig_inception) Span.unknown) _ λ inception f. ground (
          arith,
          GivesTidy-ok (sec_to_date C (pos s.sig_expiration) Span.unknown) {v = expiration}
              (sec_to_date-GivesTidy _ _) e,
          GivesTidy-ok (sec_to_date C (pos s.sig_inception) Span.unknown) {v = inception}
              (sec_to_date-GivesTidy _ _) f,
        )

  tsig_value-GivesTidy : (t : Tsig) → GivesTidy (tsig_value C t)
  unfolding tsig_value tidy
  tsig_value-GivesTidy t = >>=-GivesTidy (sec_to_date C (as_i64 t.time) Span.unknown) _ λ time e.
      ground (
        arith,
        GivesTidy-ok (sec_to_date C (as_i64 t.time) Span.unknown) {v = time}
            (sec_to_date-GivesTidy _ _) e,
      )

  pub dnssec_value-GivesTidy : (d : DnssecRdata) → GivesTidy (dnssec_value C d)
  unfolding dnssec_value parse_ds parse_dnskey nsec3param_value dnssec_unknown_value tidy
  dnssec_value-GivesTidy (DnssecRdata.dnskey dnskey) = refl
  dnssec_value-GivesTidy (DnssecRdata.cdnskey cdnskey) = refl
  dnssec_value-GivesTidy (DnssecRdata.ds ds) = refl
  dnssec_value-GivesTidy (DnssecRdata.cds cds) = refl
  dnssec_value-GivesTidy (DnssecRdata.key key) = key_value-IsTidy key
  dnssec_value-GivesTidy (DnssecRdata.nsec nsec) = nsec_value-IsTidy nsec
  dnssec_value-GivesTidy (DnssecRdata.nsec3 nsec3) = nsec3_value-IsTidy nsec3
  dnssec_value-GivesTidy (DnssecRdata.nsec3param nsec3param) = refl
  dnssec_value-GivesTidy (DnssecRdata.sig sig) = sig_value-GivesTidy sig
  dnssec_value-GivesTidy (DnssecRdata.tsig tsig) = tsig_value-GivesTidy tsig
  dnssec_value-GivesTidy (DnssecRdata.unknown code rdata) = refl
  dnssec_value-GivesTidy (DnssecRdata.other text) = refl
