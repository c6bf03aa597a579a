-- ===== src/Awg/Tests.antt =====
-- A `.conf` and what is made of it.
use caelo.Base.{◌≡◌, ◌≢◌, refl, arith, none, some, [], ◌∷◌, ◌++◌, map, if◌then◌else◌, ok}
use caelo.Base.Int.{pos}
use caelo.Base.Map
use caelo.Base.Text.{
  Text, codes, is_empty, contains_rune, split, trim_space, has_prefix, has_suffix, cut, text_eq,
  text_eq_iff, to_lower, text_key,
}
use caelo.Awg.{Config}
use caelo.Awg.Conf.{Netip, parse_config}
use caelo.Awg.Lines.{line_of, ipc-lines}
use caelo.Awg.Uapi.{settings, ipc}

-- Texts for addresses: a prefix has a slash.
abbrev names : Netip
names = record {
  Addr = Text;
  parse_prefix = λ s. if contains_rune b'/' s then some s else none;
  parse_addr = λ s. if is_empty s then none else some s;
}

abbrev conf : Text
conf =
    codes "[Interface]"
    ++ 10 ∷ codes "PrivateKey = AAAAAAAAAAAAAAAAAAAAAAAAAAAAAAAAAAAAAAAAAAA="
    ++ 10 ∷ codes "Address = 10.8.0.2/32"
    ++ 10 ∷ codes "Jc = 4"
    ++ 10 ∷ codes "RandomTrailers = Yes"
    ++ 10 ∷ codes "[Peer]"
    ++ 10 ∷ codes "PublicKey = AAAAAAAAAAAAAAAAAAAAAAAAAAAAAAAAAAAAAAAAAAA="
    ++ 10 ∷ codes "Endpoint = 203.0.113.7:51820"
    ++ 10 ∷ codes "AllowedIPs = 0.0.0.0/0, ::/0"
    ++ 10 ∷ []

abbrev zeros : Text
zeros = codes "0000000000000000000000000000000000000000000000000000000000000000"

abbrev read : Config Text
read = record {
  private_key = zeros;
  addresses = codes "10.8.0.2/32" ∷ [];
  mtu = pos 1420;
  dns = [];
  obfuscation = (codes "jc", codes "4") ∷ (codes "randomtrailers", codes "Yes") ∷ [];
  peer = record {
    public_key = zeros;
    preshared_key = [];
    endpoint = codes "203.0.113.7:51820";
    allowed_ips = codes "0.0.0.0/0" ∷ codes "::/0" ∷ [];
    keepalive = pos 0;
  };
}

conf_read : parse_config names conf ≡ ok read
unfolding parse_config split trim_space has_prefix has_suffix cut text_eq to_lower contains_rune
    Map.insert
conf_read = refl

ipc-lines_example : split 10 (ipc read) ≡ map line_of (settings read) ++ [] ∷ []
ipc-lines_example = ipc-lines names conf read conf_read

-- The same parameters, set in the other order.
abbrev swapped : Config Text
swapped = record read {
  obfuscation = (codes "randomtrailers", codes "Yes") ∷ (codes "jc", codes "4") ∷ [];
}

same_lookups : (key : Text) → Map.lookup key read.obfuscation ≡ Map.lookup key swapped.obfuscation
unfolding Map.lookup
same_lookups key =
    ground
      (arith, text_eq_iff (codes "jc") key, text_eq_iff (codes "randomtrailers") key, jc_differs)
  where
    jc_differs : codes "jc" ≢ codes "randomtrailers"
    jc_differs e = ground arith
