-- ===== src/Address.antt =====
-- src/state.rs and src/limits.rs: the text that an address is counted as, and its network. How an
-- address is read from a header is the standard library's: a parameter, any function will do. A header
-- line that is no text is left out of `lines`.
pub mod Network
use uw_ussh_server.Prelude.{
  ℕ, ◌+◌, ◌*◌, ◌/◌, ◌%◌, Bool, true, false, not, ◌&&◌, List, [], ◌∷◌, ◌++◌, map, Option, none, some,
  if◌then◌else◌, nat_beq, is_empty,
}
use uw_ussh_server.Prelude.Text.{Text, text, trim}
use uw_ussh_server.Prelude.Numerals.{display, hex, octet, split, strip_suffix}

-- Four octets, or eight segments of 16 bits.
pub data IpAddr : Type 0 where
  v4 : (a b c d : ℕ) → IpAddr
  v6 : (a b c d e f g h : ℕ) → IpAddr

-- `Ipv4Addr::to_string`
abbrev pub dotted : ℕ → ℕ → ℕ → ℕ → Text
dotted a b c d = display a ++ (46 ∷ (display b ++ (46 ∷ (display c ++ (46 ∷ display d)))))

abbrev pub prefix_64 : ℕ → ℕ → ℕ → ℕ → Text
prefix_64 a b c d = hex a ++ (58 ∷ (hex b ++ (58 ∷ (hex c ++ (58 ∷ hex d)))))

abbrev pub is_mapped : ℕ → ℕ → ℕ → ℕ → ℕ → ℕ → Bool
is_mapped a b c d e f =
    nat_beq a 0
    && (nat_beq b 0 && (nat_beq c 0 && (nat_beq d 0 && (nat_beq e 0 && nat_beq f 65535))))

-- An IPv4 address that is written as IPv6 counts as itself.
unfoldable pub counted : IpAddr → Text
counted (v4 a b c d) = dotted a b c d
counted (v6 a b c d e f g h) =
    if is_mapped a b c d e f
    then dotted (g / 256) (g % 256) (h / 256) (h % 256)
    else prefix_64 a b c d ++ text "::/64"

abbrev pub non_empty : List Text → List Text
non_empty [] = []
non_empty (v ∷ vs) = let rest = non_empty vs in if is_empty v then rest else v ∷ rest

abbrev pub last : List Text → Option Text
last [] = none
last (v ∷ []) = some v
last (v ∷ w ∷ vs) = last (w ∷ vs)

abbrev pub values : List Text → List Text
values [] = []
values (line ∷ lines) = map trim (split 44 line) ++ values lines

-- The last entry of the header, which is the proxy's.
unfoldable pub last_value : List Text → Option Text
unfolding split trim
last_value lines = last (non_empty (values lines))

abbrev pub or_peer : Option IpAddr → Option IpAddr → Text
or_peer (some address) peer = counted address
or_peer none (some peer) = counted peer
or_peer none none = text "unknown"

abbrev pub parsed : (Text → Option IpAddr) → Option Text → Option IpAddr
parsed parse_ip none = none
parsed parse_ip (some value) = parse_ip value

unfoldable pub client_key : (Text → Option IpAddr) → Bool → List Text → Option IpAddr → Text
unfolding last_value
client_key parse_ip trust_forwarded lines peer =
    or_peer (if trust_forwarded then parsed parse_ip (last_value lines) else none) peer

abbrev pub all_octets : Option ℕ → Option ℕ → Option ℕ → Option ℕ → Option (ℕ × ℕ × ℕ × ℕ)
all_octets (some a) (some b) (some c) (some d) = some (a, b, c, d)
all_octets _ _ _ _ = none

-- `str::parse` of an `Ipv4Addr`
abbrev pub four_octets : List Text → Option (ℕ × ℕ × ℕ × ℕ)
four_octets (a ∷ b ∷ c ∷ d ∷ []) = all_octets (octet a) (octet b) (octet c) (octet d)
four_octets _ = none

unfoldable pub parse_ipv4 : Text → Option (ℕ × ℕ × ℕ × ℕ)
unfolding split octet
parse_ipv4 who = four_octets (split 46 who)

abbrev pub everybody_else : Text
everybody_else = text "everybody else"

abbrev pub segments_48 : List Text → Text
segments_48 (a ∷ b ∷ c ∷ d ∷ []) = a ++ (58 ∷ (b ++ (58 ∷ (c ++ text "::/48"))))
segments_48 _ = everybody_else

abbrev pub network_v6 : Option Text → Text
network_v6 none = everybody_else
network_v6 (some prefix) = segments_48 (split 58 prefix)

abbrev pub network_or : Text → Option (ℕ × ℕ × ℕ × ℕ) → Text
network_or who (some (a, b, c, d)) =
    display a ++ (46 ∷ (display b ++ (46 ∷ (display c ++ text ".0/24"))))
network_or who none = network_v6 (strip_suffix (text "::/64") who)

unfoldable pub network : Text → Text
unfolding parse_ipv4 split strip_suffix
network who = network_or who (parse_ipv4 who)
