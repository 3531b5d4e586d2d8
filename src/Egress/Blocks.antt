-- ===== src/Egress/Blocks.antt =====
-- src/mediaman/services/infra/_url_safety_blocks.py: which hosts and addresses are refused. An address
-- is its number.

use mediaman.Prelude.{
  Bool, List, Option, [], any, contains, false, if◌then◌else◌, is_empty, list_key, nat_key, none,
  some, true, ℕ, ◌%◌, ◌&&◌, ◌*◌, ◌+◌, ◌/◌, ◌==◌, ◌^◌, ◌||◌, ◌∷◌,
}
use mediaman.Crypto.Kinds.{ascii}
use mathlib.Core.List.{reverse}
use mediaman.Core.Time.{Text}

pub data Ip : Type 0 where
  v4 v6 : ℕ → Ip

abbrev pub same_ip : Ip → Ip → Bool
same_ip (v4 m) (v4 n) = m == n
same_ip (v6 m) (v6 n) = m == n
same_ip (v4 m) (v6 n) = false
same_ip (v6 m) (v4 n) = false

-- What the guard calls: `urlparse`, `ipaddress.ip_address`, `str` of an address, `idna.encode` and
-- `str.lower`, `none` where they raise, and the addresses that `getaddrinfo` gives in time.
pub record ParsedUrl : Type 0 where
  pub scheme : Text
  pub netloc : Text
  pub hostname : Option Text

pub record UrlCalls : Type 0 where
  pub urlparse : Text → Option ParsedUrl
  pub ip_address : Text → Option Ip
  pub ip_text : Ip → Text
  pub idna_encode : Text → Option Text
  pub lower : Text → Text
  pub getaddrinfo : Text → List Text

-- `hostname.rstrip(".")`
unfoldable pub drop_dots : Text → Text
drop_dots [] = []
drop_dots (c ∷ s) = if c == b'.' then drop_dots s else c ∷ s

abbrev pub rstrip_dots : Text → Text
rstrip_dots s = reverse (drop_dots (reverse s))

-- `s.endswith(suffix)`, on reversed texts.
unfoldable pub starts_with : Text → Text → Bool
starts_with [] s = true
starts_with (c ∷ p) [] = false
starts_with (c ∷ p) (d ∷ s) = c == d && starts_with p s

abbrev pub metadata_hostnames : List Text
metadata_hostnames = ascii "metadata.google.internal" ∷ ascii "metadata" ∷ []

abbrev pub docker_hostnames : List Text
docker_hostnames = ascii "host.docker.internal" ∷ ascii "gateway.docker.internal" ∷ []

-- `_host_is_metadata`
unfoldable pub host_is_metadata : UrlCalls → Text → Bool
host_is_metadata c hostname =
    let h = rstrip_dots (c.lower hostname) in
    if contains metadata_hostnames h
    then true
    else if contains docker_hostnames h
    then false
    else starts_with (reverse (ascii ".internal")) (reverse h)

-- The address `a.b.c.d`.
abbrev pub quad : ℕ → ℕ → ℕ → ℕ → ℕ
quad a b c d = ((a * 256 + b) * 256 + c) * 256 + d

-- `ip in net`, of a network with that many bits for hosts.
abbrev pub in_net : ℕ → ℕ × ℕ → Bool
in_net n (base, bits) = n / 2 ^ bits == base / 2 ^ bits

abbrev pub blocked_v4_nets : List (ℕ × ℕ)
blocked_v4_nets =
    (0, 24)
    ∷ (quad 100 64 0 0, 22)
    ∷ (quad 255 255 255 255, 0)
    ∷ (quad 224 0 0 0, 28)
    ∷ (quad 240 0 0 0, 28)
    ∷ []

-- The first group of sixteen bits of an address.
abbrev pub group : ℕ → ℕ
group n = n * 2 ^ 112

abbrev pub blocked_v6_nets : List (ℕ × ℕ)
blocked_v6_nets =
    (group 65152, 118)
    ∷ (group 64512, 121)
    ∷ (group 8193, 96)
    ∷ (group 8194, 112)
    ∷ (group 65280, 120)
    ∷ []

abbrev pub strict_v4_nets : List (ℕ × ℕ)
strict_v4_nets =
    (quad 127 0 0 0, 24) ∷ (quad 10 0 0 0, 24) ∷ (quad 172 16 0 0, 20) ∷ (quad 192 168 0 0, 16) ∷ []

abbrev pub strict_v6_nets : List (ℕ × ℕ)
strict_v6_nets = (1, 0) ∷ []

abbrev pub metadata_ips : List Ip
metadata_ips =
    v4 (quad 169 254 169 254)
    ∷ v4 (quad 100 100 100 200)
    ∷ v6 (group 64768 + 3778 * 2 ^ 96 + 596)
    ∷ []

-- `ip.ipv4_mapped`, where there is one.
unfoldable pub unwrap_mapped : Ip → Ip
unwrap_mapped (v4 n) = v4 n
unwrap_mapped (v6 n) = if n / 2 ^ 32 == 65535 then v4 (n % 2 ^ 32) else v6 n

abbrev pub is_unspecified : Ip → Bool
is_unspecified (v4 n) = n == 0
is_unspecified (v6 n) = n == 0

abbrev pub is_link_local : Ip → Bool
is_link_local (v4 n) = in_net n (quad 169 254 0 0, 16)
is_link_local (v6 n) = in_net n (group 65152, 118)

abbrev pub in_any : List (ℕ × ℕ) → ℕ → Bool
in_any nets n = any (λ net. in_net n net) nets

abbrev pub in_blocked_net : Bool → Ip → Bool
in_blocked_net strict (v4 n) = in_any blocked_v4_nets n || strict && in_any strict_v4_nets n
in_blocked_net strict (v6 n) = in_any blocked_v6_nets n || strict && in_any strict_v6_nets n

abbrev pub blocked_unwrapped : Bool → Ip → Bool
blocked_unwrapped strict ip =
    if any (λ m. same_ip m ip) metadata_ips
    then true
    else if is_unspecified ip
    then true
    else if is_link_local ip
    then true
    else in_blocked_net strict ip

-- `_ip_is_blocked`
unfoldable pub ip_is_blocked : Bool → Ip → Bool
ip_is_blocked strict ip = blocked_unwrapped strict (unwrap_mapped ip)

abbrev pub add_parsed_ip : Option Ip → List Ip → List Ip
add_parsed_ip none ips = ips
add_parsed_ip (some ip) ips = ip ∷ ips

-- The loop of `_resolve_all`, with the texts seen.
unfoldable pub parse_addresses : UrlCalls → List Text → List Text → List Ip
parse_addresses c seen [] = []
parse_addresses c seen (raw ∷ infos) =
    let rest = parse_addresses c (raw ∷ seen) infos in
    if contains seen raw
    then parse_addresses c seen infos
    else add_parsed_ip (c.ip_address raw) rest

-- `_resolve_all`
abbrev pub resolve_all : UrlCalls → Text → List Ip
resolve_all c hostname = parse_addresses c [] (c.getaddrinfo hostname)

abbrev pub literal_or_idna : UrlCalls → Text → Option Ip → Option Text
literal_or_idna c h none = c.idna_encode h
literal_or_idna c h (some ip) = some h

-- `_normalise_host`
unfoldable pub normalise_host : UrlCalls → Text → Option Text
normalise_host c hostname =
    let h = rstrip_dots hostname in
    let encoded = literal_or_idna c h (c.ip_address h) in if is_empty h then none else encoded
