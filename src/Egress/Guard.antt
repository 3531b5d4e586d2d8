-- ===== src/Egress/Guard.antt =====
-- src/mediaman/services/infra/url_safety.py: the guard on outbound URLs.

use mediaman.Prelude.{
  Bool, List, Option, [], any, contains, false, if◌then◌else◌, inl, inr, is_empty, list_key, map,
  nat_key, none, not, some, true, ◌&&◌, ◌||◌, ◌∷◌, ◌⊎◌,
}
use mediaman.Crypto.Kinds.{ascii}
use mediaman.Egress.Blocks.{
  Ip, ParsedUrl, UrlCalls, rstrip_dots, docker_hostnames, host_is_metadata, ip_is_blocked,
  resolve_all, normalise_host,
}
use mediaman.Core.Time.{strip, Text}

abbrev pub pinned_external_hosts : List Text
pinned_external_hosts =
    ascii "api.themoviedb.org"
    ∷ ascii "image.tmdb.org"
    ∷ ascii "m.media-amazon.com"
    ∷ ascii "images.amazon.com"
    ∷ ascii "www.omdbapi.com"
    ∷ ascii "api.mailgun.net"
    ∷ ascii "api.eu.mailgun.net"
    ∷ ascii "api.openai.com"
    ∷ []

abbrev pub allowed_schemes : List Text
allowed_schemes = ascii "http" ∷ ascii "https" ∷ []

-- `_host_in_allowlist`
unfoldable pub host_in_allowlist : UrlCalls → Text → List Text → Bool
host_in_allowlist c hostname allowed =
    let h = rstrip_dots (c.lower hostname) in
    contains pinned_external_hosts h || contains (map (λ a. rstrip_dots (c.lower a)) allowed) h

-- An answer of the guard: whether the URL is safe, its host, and the address to connect to.
pub record Decision : Type 0 where
  pub is_safe : Bool
  pub host : Option Text
  pub pinned_ip : Option Text

abbrev pub refuse : Option Text → Decision
refuse h = record { is_safe = false; host = h; pinned_ip = none }

abbrev pub admit_to : Text → Option Text → Decision
admit_to h pin = record { is_safe = true; host = some h; pinned_ip = pin }

-- The last checks of `_parse_and_normalise`, on the normalised host: the answer is a refusal or the
-- host to go on with.
abbrev pub check_normalised : UrlCalls → Text → Option Text → Decision ⊎ Text
check_normalised c raw none = inl (refuse (some raw))
check_normalised c raw (some h) = if host_is_metadata c h then inl (refuse (some h)) else inr h

abbrev pub check_host : UrlCalls → Option Text → Decision ⊎ Text
check_host c none = inl (refuse none)
check_host c (some []) = inl (refuse none)
check_host c (some (x ∷ raw)) =
    let checked = check_normalised c (x ∷ raw) (normalise_host c (x ∷ raw)) in
    if host_is_metadata c (x ∷ raw) then inl (refuse (some (x ∷ raw))) else checked

abbrev pub check_parsed : UrlCalls → Option ParsedUrl → Decision ⊎ Text
check_parsed c none = inl (refuse none)
check_parsed c (some u) =
    let checked = check_host c u.hostname in
    if not (contains allowed_schemes (c.lower u.scheme))
    then inl (refuse none)
    else if contains u.netloc b'@'
    then inl (refuse none)
    else checked

-- `_parse_and_normalise`
unfoldable pub parse_and_normalise : UrlCalls → Text → Decision ⊎ Text
parse_and_normalise c url =
    let checked = check_parsed c (c.urlparse (strip url)) in
    if is_empty url then inl (refuse none) else checked

abbrev pub pin_first : UrlCalls → Bool → Text → List Ip → Decision
pin_first c strict h [] = refuse (some h)
pin_first c strict h (ip ∷ ips) =
    if any (λ a. ip_is_blocked strict a) (ip ∷ ips)
    then refuse (some h)
    else admit_to h (some (c.ip_text ip))

abbrev pub check_address : UrlCalls → Bool → Text → Option Ip → Decision
check_address c strict h none = pin_first c strict h (resolve_all c h)
check_address c strict h (some ip) =
    if ip_is_blocked strict ip then refuse (some h) else admit_to h (some h)

-- `_check_literal_or_resolved`
unfoldable pub check_literal_or_resolved : UrlCalls → Bool → Text → Decision
check_literal_or_resolved c strict h = check_address c strict h (c.ip_address h)

abbrev pub is_permitted : UrlCalls → Text → Option (List Text) → Bool
is_permitted c h none = true
is_permitted c h (some allowed) = host_in_allowlist c h allowed

unfoldable pub is_docker_host : Text → Bool
is_docker_host h = contains docker_hostnames h

unfoldable pub decide : UrlCalls → Bool → Option (List Text) → Decision ⊎ Text → Decision
decide c strict allowed (inl refusal) = refusal
decide c strict allowed (inr h) =
    let resolved = check_literal_or_resolved c strict h in
    if not (is_permitted c h allowed)
    then refuse (some h)
    else if not strict && is_docker_host h
    then admit_to h none
    else resolved

-- `_strict_egress_enabled`, on the override and on the environment variable (empty where unset).
unfoldable pub strict_egress_enabled : UrlCalls → Option Bool → Text → Bool
strict_egress_enabled c (some override) raw = override
strict_egress_enabled c none raw =
    contains (ascii "1" ∷ ascii "true" ∷ ascii "yes" ∷ ascii "on" ∷ []) (c.lower (strip raw))

-- `resolve_safe_outbound_url`, on the effective setting of strict egress.
unfoldable pub resolve_safe_outbound_url : UrlCalls → Bool → Option (List Text) → Text → Decision
resolve_safe_outbound_url c strict allowed url = decide c strict allowed (parse_and_normalise c url)

abbrev pub is_safe_outbound_url : UrlCalls → Bool → Option (List Text) → Text → Bool
is_safe_outbound_url c strict allowed url = (resolve_safe_outbound_url c strict allowed url).is_safe

abbrev pub normalised_or_none : UrlCalls → Option Text → Option Text
normalised_or_none c none = none
normalised_or_none c (some hostname) =
    let host = normalise_host c hostname in if is_empty hostname then none else host

abbrev pub host_of_parsed : UrlCalls → Option ParsedUrl → Option Text
host_of_parsed c none = none
host_of_parsed c (some u) =
    let host = normalised_or_none c u.hostname in
    if contains allowed_schemes (c.lower u.scheme) then host else none

-- `_extract_host`
unfoldable pub extract_host : UrlCalls → Text → Option Text
extract_host c raw =
    let host = host_of_parsed c (c.urlparse (strip raw)) in if is_empty raw then none else host

-- What the read of a setting gives: an error of the database, no row, or the value.
pub data Reading : Type 0 where
  read_error no_row : Reading
  read_value : Text → Reading

abbrev pub integration_keys : List Text
integration_keys =
    ascii "plex_url" ∷ ascii "radarr_url" ∷ ascii "sonarr_url" ∷ ascii "nzbget_url" ∷ []

unfoldable pub add_host : Option Text → List Text → List Text
add_host none hosts = hosts
add_host (some []) hosts = hosts
add_host (some (x ∷ host)) hosts = (x ∷ host) ∷ hosts

-- One turn of the loop of `allowed_outbound_hosts`, with the turns after it.
unfoldable pub take_reading : UrlCalls → List Text → (List Text → List Text) → Reading → List Text
take_reading c hosts rest read_error = pinned_external_hosts
take_reading c hosts rest no_row = rest hosts
take_reading c hosts rest (read_value raw) = rest (add_host (extract_host c raw) hosts)

-- The loop, over the keys.
unfoldable pub collect_hosts : UrlCalls → (Text → Reading) → List Text → List Text → List Text
collect_hosts c settings [] hosts = hosts
collect_hosts c settings (key ∷ keys) hosts =
    take_reading c hosts (λ hs. collect_hosts c settings keys hs) (settings key)

-- `allowed_outbound_hosts`
abbrev pub allowed_outbound_hosts : UrlCalls → (Text → Reading) → List Text
allowed_outbound_hosts c settings = collect_hosts c settings integration_keys pinned_external_hosts
