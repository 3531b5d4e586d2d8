-- ===== src/Egress/GuardLaws.antt =====
-- What the guard on outbound URLs lets through.

use mediaman.Prelude.{
  Bool, Bool-cases, List, Option, [], any, arith, contains, false, inl, inr, is_empty, list_key,
  nat_key, none, not, refl, some, true, ℕ, ◌&&◌, ◌∷◌, ◌≡◌, ◌⊎◌,
}
use mediaman.Egress.Blocks.{
  ParsedUrl, host_is_metadata, normalise_host, Ip, UrlCalls, ip_is_blocked, resolve_all,
}
use mediaman.Egress.Guard.{
  resolve_safe_outbound_url, allowed_schemes, check_normalised, check_host, check_parsed,
  parse_and_normalise, is_docker_host, decide, refuse, Decision, pin_first, check_address,
  check_literal_or_resolved, is_permitted,
}
use mediaman.Core.Time.{strip, Text}

-- The address to connect to, of a host that is let through.
pub data IsVetted (c : UrlCalls) (strict : Bool) (h : Text) : Option Text → Type 0 where
  docker : strict ≡ false → is_docker_host h ≡ true → IsVetted c strict h none
  literal :
      (ip : Ip)
      → c.ip_address h ≡ some ip
      → ip_is_blocked strict ip ≡ false
      → IsVetted c strict h (some h)
  resolved :
      (ip : Ip) (ips : List Ip)
      → resolve_all c h ≡ ip ∷ ips
      → any (λ a. ip_is_blocked strict a) (ip ∷ ips) ≡ false
      → IsVetted c strict h (some (c.ip_text ip))

-- A decision lets a vetted host through, or refuses.
abbrev pub IsSound : UrlCalls → Bool → Text → Decision → Type 0
IsSound c strict h d = d.is_safe ≡ true → (d.host ≡ some h) × IsVetted c strict h d.pinned_ip

refuse-IsSound :
    (c : UrlCalls) (strict : Bool) (h : Text) (n : Option Text) → IsSound c strict h (refuse n)
refuse-IsSound c strict h n e = absurd (ground (arith, e))

pin_first-IsSound :
    (c : UrlCalls) (strict : Bool) (h : Text) (ips : List Ip)
    → resolve_all c h ≡ ips
    → IsSound c strict h (pin_first c strict h ips)
pin_first-IsSound c strict h [] e = refuse-IsSound c strict h (some h)
pin_first-IsSound c strict h (ip ∷ ips) e =
    elim (Bool-cases (any (λ a. ip_is_blocked strict a) (ip ∷ ips))) [
      | inl bad ↦ simp bad (refuse-IsSound c strict h (some h))
      | inr good ↦ simp good (λ s. (refl, resolved ip ips e good))
    ]

check_address-IsSound :
    (c : UrlCalls) (strict : Bool) (h : Text) (o : Option Ip)
    → c.ip_address h ≡ o
    → IsSound c strict h (check_address c strict h o)
check_address-IsSound c strict h none e = pin_first-IsSound c strict h (resolve_all c h) refl
check_address-IsSound c strict h (some ip) e = elim (Bool-cases (ip_is_blocked strict ip)) [
  | inl bad ↦ rw bad (refuse-IsSound c strict h (some h))
  | inr good ↦ rw good (λ s. (refl, literal ip e good))
]

decide-IsSound :
    (c : UrlCalls) (strict : Bool) (allowed : Option (List Text)) (h : Text)
    → (decide c strict allowed (inr h)).is_safe ≡ true
    → (is_permitted c h allowed ≡ true)
      × ((decide c strict allowed (inr h)).host ≡ some h)
      × IsVetted c strict h (decide c strict allowed (inr h)).pinned_ip
unfolding decide check_literal_or_resolved
decide-IsSound c strict allowed h = elim (Bool-cases (is_permitted c h allowed)) [
  | inr out ↦ rw out (λ s. absurd (ground (arith, s)))
  | inl in_list ↦ elim (Bool-cases (not strict && is_docker_host h)) [
    | inr other ↦
        rw (in_list, other)
          (λ s.
            let vetted = check_address-IsSound c strict h (c.ip_address h) refl s in
            (refl, vetted.0, vetted.1))
    | inl bridge ↦
        rw (in_list, bridge)
          (λ s. (refl, refl, docker (ground (arith, bridge)) (ground (arith, bridge))))
  ]
]

-- `h` is the normal form of a host name, and neither names a metadata service.
pub record IsHostOf (c : UrlCalls) (hostname : Option Text) (h : Text) : Type 0 where
  pub raw : Text
  pub given : hostname ≡ some raw
  pub normal : normalise_host c raw ≡ some h
  pub raw_named : host_is_metadata c raw ≡ false
  pub named : host_is_metadata c h ≡ false

-- A URL of which nothing but the addresses is open: an http or https URL without user information
-- whose host is `h`, none of the names of a metadata service.
pub record IsWebUrl (c : UrlCalls) (url h : Text) : Type 0 where
  pub parsed : ParsedUrl
  pub parses : c.urlparse (strip url) ≡ some parsed
  pub web : contains allowed_schemes (c.lower parsed.scheme) ≡ true
  pub bare : contains parsed.netloc b'@' ≡ false
  pub of_url : IsHostOf c parsed.hostname h

-- What the part of the guard before the resolver gives: an unsafe answer or a plain host.
abbrev IsScreened : UrlCalls → (Text → Type 0) → Decision ⊎ Text → Type 0
IsScreened c Good (inl d) = d.is_safe ≡ false
IsScreened c Good (inr h) = Good h

check_normalised-IsScreened :
    (c : UrlCalls) (x : ℕ) (raw : Text) (n : Option Text)
    → host_is_metadata c (x ∷ raw) ≡ false
    → normalise_host c (x ∷ raw) ≡ n
    → IsScreened c (IsHostOf c (some (x ∷ raw))) (check_normalised c (x ∷ raw) n)
check_normalised-IsScreened c x raw none unnamed e = refl
check_normalised-IsScreened c x raw (some h) unnamed e = elim (Bool-cases (host_is_metadata c h)) [
  | inl bad ↦ rw bad refl
  | inr good ↦
      rw good
        (record { raw = x ∷ raw; given = refl; normal = e; raw_named = unnamed; named = good })
]

check_host-IsScreened :
    (c : UrlCalls) (n : Option Text) → IsScreened c (IsHostOf c n) (check_host c n)
check_host-IsScreened c none = refl
check_host-IsScreened c (some []) = refl
check_host-IsScreened c (some (x ∷ raw)) = elim (Bool-cases (host_is_metadata c (x ∷ raw))) [
  | inl bad ↦ rw bad refl
  | inr good ↦
      simp good (check_normalised-IsScreened c x raw (normalise_host c (x ∷ raw)) good refl)
]

IsScreened-map :
    (c : UrlCalls) (P Q : Text → Type 0) (d : Decision ⊎ Text)
    → ((h : Text) → P h → Q h)
    → IsScreened c P d
    → IsScreened c Q d
IsScreened-map c P Q (inl d) f p = p
IsScreened-map c P Q (inr h) f p = f h p

check_parsed-IsScreened :
    (c : UrlCalls) (url : Text) (o : Option ParsedUrl)
    → c.urlparse (strip url) ≡ o
    → IsScreened c (IsWebUrl c url) (check_parsed c o)
check_parsed-IsScreened c url none e = refl
check_parsed-IsScreened c url (some u) e =
    elim (Bool-cases (contains allowed_schemes (c.lower u.scheme))) [
      | inr other ↦ simp other refl
      | inl scheme ↦ elim (Bool-cases (contains u.netloc b'@')) [
        | inl at ↦ simp (scheme, at) refl
        | inr no_at ↦
            simp (scheme, no_at)
              (IsScreened-map c (IsHostOf c u.hostname) (IsWebUrl c url) (check_host c u.hostname)
                (λ h of_url. record {
                  parsed = u;
                  parses = e;
                  web = scheme;
                  bare = no_at;
                  of_url = of_url;
                })
                (check_host-IsScreened c u.hostname))
      ]
    ]

parse_and_normalise-IsScreened :
    (c : UrlCalls) (url : Text) → IsScreened c (IsWebUrl c url) (parse_and_normalise c url)
unfolding parse_and_normalise
parse_and_normalise-IsScreened c url = elim (Bool-cases (is_empty url)) [
  | inl blank ↦ rw blank refl
  | inr given ↦ rw given (check_parsed-IsScreened c url (c.urlparse (strip url)) refl)
]

-- What a URL that the guard lets through has: it is an http or https URL without user information,
-- its host is on the allow-list and names no metadata service, and what to connect to is vetted.
pub record IsLetThrough (c : UrlCalls) (strict : Bool) (allowed : Option (List Text)) (url : Text)
    (d : Decision) : Type 0 where
  pub to : Text
  pub answered_host : d.host ≡ some to
  pub web_url : IsWebUrl c url to
  pub permitted : is_permitted c to allowed ≡ true
  pub vetted : IsVetted c strict to d.pinned_ip

decide-IsLetThrough :
    (c : UrlCalls) (strict : Bool) (allowed : Option (List Text)) (url : Text)
    (screened : Decision ⊎ Text)
    → IsScreened c (IsWebUrl c url) screened
    → (decide c strict allowed screened).is_safe ≡ true
    → IsLetThrough c strict allowed url (decide c strict allowed screened)
unfolding decide
decide-IsLetThrough c strict allowed url (inl d) unsafe s = absurd (ground (arith, unsafe, s))
decide-IsLetThrough c strict allowed url (inr h) plain s =
    let sound = decide-IsSound c strict allowed h s in
    record {
      to = h;
      answered_host = sound.1;
      web_url = plain;
      permitted = sound.0;
      vetted = sound.2;
    }

-- A URL that `resolve_safe_outbound_url` declares safe is an http or https URL without user
-- information; the host of the answer is the normal form of the host name in the URL, is on the
-- allow-list where one is given, and neither it nor the host name is that of a metadata service; and
-- the address to connect to is the literal address of the host or the first that it resolves to, none
-- of its addresses being blocked, or, unless egress is strict, the host is one of the two Docker names
-- and there is no address.
pub resolve_safe_outbound_url-IsLetThrough :
    (c : UrlCalls) (strict : Bool) (allowed : Option (List Text)) (url : Text)
    → (resolve_safe_outbound_url c strict allowed url).is_safe ≡ true
    → IsLetThrough c strict allowed url (resolve_safe_outbound_url c strict allowed url)
unfolding resolve_safe_outbound_url
resolve_safe_outbound_url-IsLetThrough c strict allowed url s =
    decide-IsLetThrough c strict allowed url (parse_and_normalise c url)
      (parse_and_normalise-IsScreened c url) s
