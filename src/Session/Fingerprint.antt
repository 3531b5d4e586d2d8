-- ===== src/Session/Fingerprint.antt =====
-- src/mediaman/web/auth/_session_fingerprint.py: what a session is bound to.

use mediaman.Prelude.{
  Bool, Option, String, [], false, if◌then◌else◌, is_empty, none, some, string_key, suc, true, zero,
  ℕ, ◌++◌, ◌==◌, ◌∷◌,
}
use mediaman.Core.Time.{Text}

pub data Mode : Type 0 where
  off loose strict : Mode

-- An address that `ipaddress` parses: its text, and the address of its network of a prefix.
pub record Address : Type 0 where
  pub is_v6 : Bool
  pub text : Text
  pub network_address : ℕ → Text

-- `hashlib.sha256(s.encode()).hexdigest()` and `ipaddress.ip_address`.
pub record Client : Type 0 where
  pub sha256_hex : Text → Text
  pub ip_address : Text → Option Address

unfoldable pub is_off : Mode → Bool
is_off off = true
is_off loose = false
is_off strict = false

-- The environment's setting in lower case.
unfoldable pub fingerprint_mode : Option String → Mode
fingerprint_mode none = loose
fingerprint_mode (some mode) =
    if mode == "strict" then strict else if mode == "off" then off else loose

unfoldable pub take_chars : ℕ → Text → Text
take_chars zero s = []
take_chars (suc n) [] = []
take_chars (suc n) (x ∷ s) = x ∷ take_chars n s

unfoldable pub address_prefix : Mode → Option Address → Text
address_prefix mode none = b'u' ∷ b'n' ∷ b'k' ∷ b'n' ∷ b'o' ∷ b'w' ∷ b'n' ∷ []
address_prefix strict (some a) = a.text
address_prefix off (some a) = a.network_address (if a.is_v6 then 64 else 24)
address_prefix loose (some a) = a.network_address (if a.is_v6 then 64 else 24)

unfoldable pub ua_hash : Client → Mode → Text → Text
ua_hash client strict user_agent = client.sha256_hex user_agent
ua_hash client off user_agent = take_chars 16 (client.sha256_hex user_agent)
ua_hash client loose user_agent = take_chars 16 (client.sha256_hex user_agent)

-- `_client_fingerprint`; an address that is empty or does not parse is unknown.
unfoldable pub client_fingerprint : Client → Mode → Text → Text → Text
client_fingerprint client mode user_agent client_ip =
    let address = if is_empty client_ip then none else client.ip_address client_ip in
    ua_hash client mode user_agent ++ b':' ∷ address_prefix mode address
