-- ===== src/Recovery/Hosts.antt =====
-- A monitor keeps parameters with which it can run (monitor.go).
use rknno_vpn.Prelude.{
  String, Bool, true, false, not, ◌&&◌, ◌||◌, ◌≡◌, refl, inl, inr, List, [], ◌∷◌, ◌++◌, Option,
  arith, ℤ, pos, is_nil, is_empty, trim_space, contains, distinct, distinct-append, if◌then◌else◌,
  Bool-cases,
}
use rknno_vpn.Recovery.Probes.{
  ProbeSettings, ProbeConfig, above_zero, collect_hosts, normalized_dns_timeout, dns_probe_host,
  normalize_dns_probe_hosts, new_probe_settings, set_probe_config, configured,
}

abbrev no_empty : List String → Bool
no_empty [] = true
no_empty (host ∷ hosts) = not (is_empty host) && no_empty hosts

no_empty-append :
    (hosts : List String) (host : String)
    → no_empty (hosts ++ host ∷ []) ≡ (no_empty hosts && not (is_empty host))
no_empty-append [] host = ground arith
no_empty-append (h ∷ hosts) host = ground (arith, no_empty-append hosts host)

-- Hosts to ask: none twice, none empty.
abbrev pub Askable : List String → Type 0
Askable hosts = (distinct hosts ≡ true) × (no_empty hosts ≡ true)

collect_hosts-Askable :
    (domains hosts : List String) → Askable hosts → Askable (collect_hosts domains hosts)
unfolding collect_hosts
collect_hosts-Askable [] hosts h = h
collect_hosts-Askable (domain ∷ domains) hosts h =
    let host = trim_space domain in
    elim (Bool-cases (is_empty host || contains hosts host)) [
      | inl e ↦ rw e (collect_hosts-Askable domains hosts h)
      | inr e ↦ rw e (
          collect_hosts-Askable domains _ (
            rw (distinct-append, h.0) (ground (arith, e)),
            rw (no_empty-append, h.1) (ground (arith, e)),
          ))
    ]

-- A monitor that can run: it counts failures from 1 on, it waits for an answer, and it has hosts to ask.
pub record CanProbe (s : ProbeSettings) : Type 0 where
  pub counts : above_zero s.failure_threshold ≡ true
  pub waits : above_zero s.dns_timeout ≡ true
  pub has_hosts : is_nil s.dns_hosts ≡ false
  pub asks : Askable s.dns_hosts

normalized_dns_timeout_lem : (t : ℤ) → above_zero (normalized_dns_timeout t) ≡ true
unfolding normalized_dns_timeout
normalized_dns_timeout_lem t = elim (Bool-cases (above_zero t)) [
  | inl e ↦ rw e e
  | inr e ↦ rw e refl
]

threshold_lem :
    (given old : ℤ)
    → above_zero old ≡ true
    → above_zero (if above_zero given then given else old) ≡ true
threshold_lem given old h = elim (Bool-cases (above_zero given)) [ inl e ↦ rw e e | inr e ↦ rw e h ]

module _ (hostname : String → Option String) where
  normalize_hosts-Askable :
      (url : String) (domains : List String)
      → let hosts = normalize_dns_probe_hosts hostname url domains in
        (is_nil hosts ≡ false) × Askable hosts
  unfolding normalize_dns_probe_hosts distinct contains
  normalize_hosts-Askable url domains =
      let hosts = collect_hosts domains [] in
      elim (Bool-cases (is_nil hosts)) [
        | inr e ↦ rw e (e, collect_hosts-Askable domains [] (refl, refl))
        | inl e ↦ elim (Bool-cases (is_empty (dns_probe_host hostname url))) [
          | inl f ↦ rw (e, f) (refl, (refl, refl))
          | inr f ↦ rw (e, f) (refl, (refl, rw f refl))
        ]
      ]

  new_probe_settings-CanProbe : (c : ProbeConfig) → CanProbe (new_probe_settings hostname c)
  unfolding new_probe_settings
  new_probe_settings-CanProbe c =
      let hosts = normalize_hosts-Askable c.check_url [] in
      record {
        counts = threshold_lem c.new_threshold (pos 3) refl;
        waits = normalized_dns_timeout_lem c.timeout;
        has_hosts = hosts.0;
        asks = hosts.1;
      }

  set_probe_config-CanProbe :
      (c : ProbeConfig) (s : ProbeSettings) → CanProbe s → CanProbe (set_probe_config hostname c s)
  unfolding set_probe_config
  set_probe_config-CanProbe c s h =
      let hosts = normalize_hosts-Askable c.check_url c.probe_domains in
      record {
        counts = threshold_lem c.new_threshold s.failure_threshold h.counts;
        waits = normalized_dns_timeout_lem c.timeout;
        has_hosts = hosts.0;
        asks = hosts.1;
      }

  configured-CanProbe :
      (cs : List ProbeConfig) (s : ProbeSettings) → CanProbe s → CanProbe (configured hostname s cs)
  configured-CanProbe [] s h = h
  configured-CanProbe (c ∷ cs) s h =
      configured-CanProbe cs (set_probe_config hostname c s) (set_probe_config-CanProbe c s h)

  -- A new monitor, behind any calls of `SetConfig` with any arguments, has a threshold and a timeout
  -- above 0 and at least one host to ask, none of them empty and none twice.
  pub configured-new_probe_settings :
      (first : ProbeConfig) (cs : List ProbeConfig)
      → CanProbe (configured hostname (new_probe_settings hostname first) cs)
  configured-new_probe_settings first cs =
      configured-CanProbe cs (new_probe_settings hostname first) (new_probe_settings-CanProbe first)
