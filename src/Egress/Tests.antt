-- ===== src/Egress/Tests.antt =====
-- URLs of a host on the LAN and of a metadata address, and the theorems of the guard applied to them.

use mediaman.Prelude.{
  [], any, ap, arith, contains, false, if◌then◌else◌, is_empty, list_key, nat_key, none, not, refl,
  some, true, ℕ, ◌&&◌, ◌*◌, ◌+◌, ◌^◌, ◌||◌, ◌∷◌, ◌≡◌,
}
use mediaman.Crypto.Kinds.{ascii}
use mediaman.Egress.GuardLaws.{IsLetThrough, resolve_safe_outbound_url-IsLetThrough}
use mediaman.Egress.AllowLaws.{is_unreadable, names_host, allowed_outbound_hosts-members}
use mediaman.Egress.Blocks.{
  quad, v4, v6, UrlCalls, drop_dots, starts_with, host_is_metadata, unwrap_mapped, ip_is_blocked,
  parse_addresses, normalise_host,
}
use mediaman.Egress.Guard.{
  decide, pinned_external_hosts, host_in_allowlist, admit_to, parse_and_normalise,
  check_literal_or_resolved, is_docker_host, resolve_safe_outbound_url, extract_host, Reading,
  no_row, read_value, integration_keys, add_host, allowed_outbound_hosts,
}
use mediaman.Egress.AddressLaws.{ip_is_blocked-mapped}
use mediaman.Core.Time.{strip, Text, strip_left}

abbrev lan : ℕ
lan = quad 192 168 1 20

-- Every URL is that of `nas`, which resolves to an address on the LAN.
abbrev nas_calls : UrlCalls
nas_calls = record {
  urlparse = λ u.
      some (record { scheme = ascii "http"; netloc = ascii "nas"; hostname = some (ascii "nas") });
  ip_address = λ s. if is_empty s then some (v4 lan) else none;
  ip_text = λ ip. ascii "192.168.1.20";
  idna_encode = λ s. some s;
  lower = λ s. s;
  getaddrinfo = λ s. [] ∷ [];
}

abbrev nas_url : Text
nas_url = ascii "http://nas"

abbrev nas_settings : Text → Reading
nas_settings key = if starts_with (ascii "plex") key then read_value nas_url else no_row

nas_decision :
    resolve_safe_outbound_url nas_calls false (some (ascii "nas" ∷ [])) nas_url
    ≡ admit_to (ascii "nas") (some (ascii "192.168.1.20"))
unfolding resolve_safe_outbound_url parse_and_normalise decide check_literal_or_resolved
    normalise_host drop_dots host_is_metadata is_docker_host starts_with parse_addresses
    ip_is_blocked unwrap_mapped host_in_allowlist ascii strip strip_left
nas_decision = refl

-- Strict egress refuses the LAN.
nas_refused : (resolve_safe_outbound_url nas_calls true none nas_url).is_safe ≡ false
unfolding resolve_safe_outbound_url parse_and_normalise decide check_literal_or_resolved
    normalise_host drop_dots host_is_metadata is_docker_host starts_with parse_addresses
    ip_is_blocked unwrap_mapped host_in_allowlist ascii strip strip_left
nas_refused = refl

resolve_safe_outbound_url-IsLetThrough_example :
    IsLetThrough nas_calls false
      (some (ascii "nas" ∷ []))
      nas_url
      (resolve_safe_outbound_url nas_calls false (some (ascii "nas" ∷ [])) nas_url)
resolve_safe_outbound_url-IsLetThrough_example =
    resolve_safe_outbound_url-IsLetThrough nas_calls false (some (ascii "nas" ∷ [])) nas_url
      (ap (λ d. d.is_safe) nas_decision)

ip_is_blocked-mapped_example :
    ip_is_blocked true (v6 (65535 * 2 ^ 32 + quad 127 0 0 1))
    ≡ ip_is_blocked true (v4 (quad 127 0 0 1))
ip_is_blocked-mapped_example = ip_is_blocked-mapped true (quad 127 0 0 1) (omega arith)

nas_allowed : any (λ k. names_host nas_calls (ascii "nas") (nas_settings k)) integration_keys ≡ true
unfolding starts_with ascii add_host extract_host normalise_host drop_dots strip strip_left
nas_allowed = refl

allowed_outbound_hosts-members_example :
    contains (allowed_outbound_hosts nas_calls nas_settings) (ascii "nas") ≡ (
      contains pinned_external_hosts (ascii "nas")
      || not (any (λ k. is_unreadable (nas_settings k)) integration_keys)
        && any (λ k. names_host nas_calls (ascii "nas") (nas_settings k)) integration_keys)
allowed_outbound_hosts-members_example =
    allowed_outbound_hosts-members nas_calls nas_settings (ascii "nas")
