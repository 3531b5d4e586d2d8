-- ===== src/Egress/AllowLaws.antt =====
-- Which hosts are on the allow-list of configured integrations.

use mediaman.Prelude.{
  Bool, List, Option, [], any, arith, contains, false, if◌then◌else◌, list_key, nat_key, none, not,
  refl, some, true, ◌&&◌, ◌||◌, ◌∷◌, ◌≡◌,
}
use mediaman.Egress.Blocks.{UrlCalls}
use mediaman.Egress.Guard.{
  pinned_external_hosts, extract_host, Reading, read_error, no_row, read_value, integration_keys,
  add_host, take_reading, collect_hosts, allowed_outbound_hosts,
}
use mediaman.Core.Time.{Text}

abbrev pub is_unreadable : Reading → Bool
is_unreadable read_error = true
is_unreadable no_row = false
is_unreadable (read_value raw) = false

-- The setting holds a URL of that host.
abbrev pub names_host : UrlCalls → Text → Reading → Bool
names_host c h read_error = false
names_host c h no_row = false
names_host c h (read_value raw) = contains (add_host (extract_host c raw) []) h

contains-add_host :
    (o : Option Text) (hosts : List Text) (h : Text)
    → contains (add_host o hosts) h ≡ (contains (add_host o []) h || contains hosts h)
unfolding add_host
contains-add_host none hosts h = refl
contains-add_host (some []) hosts h = refl
contains-add_host (some (x ∷ host)) hosts h = ground arith

module _ (c : UrlCalls) (settings : Text → Reading) (h : Text) where
  -- What a list of hosts contains after the settings of `keys` are added.
  abbrev has : List Text → List Text → Bool
  has keys hosts =
      if any (λ k. is_unreadable (settings k)) keys
      then contains pinned_external_hosts h
      else contains hosts h || any (λ k. names_host c h (settings k)) keys

  take_reading-members :
      (r : Reading) (keys hosts : List Text) (rest : List Text → List Text)
      → ((hs : List Text) → contains (rest hs) h ≡ has keys hs)
      → contains (take_reading c hosts rest r) h ≡ (
          if is_unreadable r || any (λ k. is_unreadable (settings k)) keys
          then contains pinned_external_hosts h
          else contains hosts h
            || (names_host c h r || any (λ k. names_host c h (settings k)) keys))
  unfolding take_reading
  take_reading-members read_error keys hosts rest e = refl
  take_reading-members no_row keys hosts rest e = e hosts
  take_reading-members (read_value raw) keys hosts rest e =
      let own = add_host (extract_host c raw) hosts in
      ground (arith, e own, contains-add_host (extract_host c raw) hosts h)

  collect_hosts-members :
      (keys hosts : List Text) → contains (collect_hosts c settings keys hosts) h ≡ has keys hosts
  unfolding collect_hosts
  collect_hosts-members [] hosts = ground arith
  collect_hosts-members (k ∷ keys) hosts =
      take_reading-members (settings k) keys hosts (λ hs. collect_hosts c settings keys hs)
        (λ hs. collect_hosts-members keys hs)

  -- A host is in `allowed_outbound_hosts` just when it is one of the pinned external hosts or all the
  -- settings could be read and one of the four holds an http or https URL of that host.
  pub allowed_outbound_hosts-members : contains (allowed_outbound_hosts c settings) h ≡ (
      contains pinned_external_hosts h
      || not (any (λ k. is_unreadable (settings k)) integration_keys)
        && any (λ k. names_host c h (settings k)) integration_keys)
  allowed_outbound_hosts-members =
      ground (arith, collect_hosts-members integration_keys pinned_external_hosts)
