-- ===== src/Address/Network.antt =====
-- src/limits.rs and src/state.rs: the network of an address that was counted.
use uw_ussh_server.Prelude.{
  inl, inr, Bool-cases, ◌/◌, ◌%◌, ℕ, ◌<◌, ◌≡◌, ◌≢◌, ◌∙◌, ap, refl, [], ◌∷◌, ◌++◌, none, some, arith,
  if◌then◌else◌,
}
use uw_ussh_server.Prelude.Text.{Text, text}
use uw_ussh_server.Prelude.Numerals.{
  display, hex, octet-display, split, split-append, split-Lacks, strip_suffix-append, Lacks,
  Lacks-append, digits_on-Lacks, digit-ne-dot, digit-ne-colon,
}
use uw_ussh_server.Address.{
  IpAddr, v4, v6, dotted, prefix_64, is_mapped, counted, parse_ipv4, network, segments_48,
  four_octets, network_or, network_v6,
}

no_dot : (n : ℕ) → Lacks 46 (display n)
no_dot n = digits_on-Lacks 46 digit-ne-dot 20 10 n

no_colon : (n : ℕ) → Lacks 58 (hex n)
no_colon n = digits_on-Lacks 58 digit-ne-colon 20 16 n

hex_no_dot : (n : ℕ) → Lacks 46 (hex n)
hex_no_dot n = digits_on-Lacks 46 digit-ne-dot 20 16 n

-- Four parts with a separator between them.
split-four :
    (sep : ℕ) (p q r s : Text)
    → Lacks sep p
    → Lacks sep q
    → Lacks sep r
    → Lacks sep s
    → split sep (p ++ (sep ∷ (q ++ (sep ∷ (r ++ (sep ∷ s)))))) ≡ p ∷ q ∷ r ∷ s ∷ []
split-four sep p q r s hp hq hr hs =
    rw
      (
        split-append sep p (q ++ (sep ∷ (r ++ (sep ∷ s)))) hp,
        split-append sep q (r ++ (sep ∷ s)) hq,
        split-append sep r s hr,
        split-Lacks sep s hs,
      )
      refl

Lacks-four :
    (sep by : ℕ)
    → by ≢ sep
    → (p q r s : Text) → Lacks sep p
    → Lacks sep q
    → Lacks sep r
    → Lacks sep s
    → Lacks sep (p ++ (by ∷ (q ++ (by ∷ (r ++ (by ∷ s))))))
Lacks-four sep by other p q r s hp hq hr hs =
    Lacks-append sep p (by ∷ (q ++ (by ∷ (r ++ (by ∷ s))))) hp (
      other,
      Lacks-append sep q (by ∷ (r ++ (by ∷ s))) hq
          (other, Lacks-append sep r (by ∷ s) hr (other, hs)),
    )

split-dotted :
    (a b c d : ℕ) → split 46 (dotted a b c d) ≡ display a ∷ display b ∷ display c ∷ display d ∷ []
split-dotted a b c d =
    split-four 46 (display a) (display b) (display c) (display d) (no_dot a) (no_dot b) (no_dot c)
      (no_dot d)

parse-dotted :
    (a b c d : ℕ)
    → a < 256
    → b < 256
    → c < 256
    → d < 256
    → parse_ipv4 (dotted a b c d) ≡ some (a, b, c, d)
unfolding parse_ipv4
parse-dotted a b c d ha hb hc hd =
    ap four_octets (split-dotted a b c d)
    ∙ rw (octet-display a ha, octet-display b hb, octet-display c hc, octet-display d hd) refl

-- An IPv4 address that was counted is read back by its network: its /24.
pub network_v4 :
    (a b c d : ℕ)
    → a < 256
    → b < 256
    → c < 256
    → d < 256
    → network (dotted a b c d)
      ≡ display a ++ (46 ∷ (display b ++ (46 ∷ (display c ++ text ".0/24"))))
unfolding network
network_v4 a b c d ha hb hc hd = ap (network_or (dotted a b c d)) (parse-dotted a b c d ha hb hc hd)

-- A text without a dot is no IPv4 address.
parse-Lacks : (who : Text) → Lacks 46 who → parse_ipv4 who ≡ none
unfolding parse_ipv4
parse-Lacks who h = ap four_octets (split-Lacks 46 who h)

no_dot_prefix : (a b c d : ℕ) → Lacks 46 (prefix_64 a b c d ++ text "::/64")
no_dot_prefix a b c d =
    Lacks-append 46 (prefix_64 a b c d) (text "::/64")
      (Lacks-four 46 58 (omega arith) (hex a) (hex b) (hex c) (hex d) (hex_no_dot a) (hex_no_dot b)
        (hex_no_dot c) (hex_no_dot d))
      (omega arith, (omega arith, (omega arith, (omega arith, (omega arith, tt)))))

split_prefix : (a b c d : ℕ) → split 58 (prefix_64 a b c d) ≡ hex a ∷ hex b ∷ hex c ∷ hex d ∷ []
split_prefix a b c d =
    split-four 58 (hex a) (hex b) (hex c) (hex d) (no_colon a) (no_colon b) (no_colon c)
      (no_colon d)

network_v6_text :
    (a b c d : ℕ)
    → network (prefix_64 a b c d ++ text "::/64")
      ≡ hex a ++ (58 ∷ (hex b ++ (58 ∷ (hex c ++ text "::/48"))))
unfolding network
network_v6_text a b c d =
    ap (network_or (prefix_64 a b c d ++ text "::/64"))
      (parse-Lacks (prefix_64 a b c d ++ text "::/64") (no_dot_prefix a b c d))
    ∙ ap network_v6 (strip_suffix-append (prefix_64 a b c d) (text "::/64"))
    ∙ ap segments_48 (split_prefix a b c d)

-- Octets of 8 bits, segments of 16.
abbrev pub IsAddress : IpAddr → Type 0
IsAddress (v4 a b c d) = (a < 256) × (b < 256) × (c < 256) × (d < 256)
IsAddress (v6 a b c d e f g h) = (g < 65536) × (h < 65536)

abbrev pub net_24 : ℕ → ℕ → ℕ → Text
net_24 a b c = display a ++ (46 ∷ (display b ++ (46 ∷ (display c ++ text ".0/24"))))

-- The /24 or /48 around an address.
abbrev pub around : IpAddr → Text
around (v4 a b c d) = net_24 a b c
around (v6 a b c d e f g h) =
    if is_mapped a b c d e f
    then net_24 (g / 256) (g % 256) (h / 256)
    else hex a ++ (58 ∷ (hex b ++ (58 ∷ (hex c ++ text "::/48"))))

-- For an address whose parts fit their bits: the network that the limiter reads out of the text of
-- an address is the /24 around an IPv4 address, written as IPv6 or not, and the /48 around any
-- other.
pub network-counted :
    (address : IpAddr) → IsAddress address → network (counted address) ≡ around address
unfolding counted
network-counted (v4 a b c d) h = network_v4 a b c d h.0 h.1 h.2 h.3
network-counted (v6 a b c d e f g h) k = elim (Bool-cases (is_mapped a b c d e f)) [
  | inl mapped ↦ rw mapped (
      network_v4 (g / 256) (g % 256) (h / 256) (h % 256) (omega (arith, k.0)) (omega (arith, k.0))
        (omega (arith, k.1)) (omega (arith, k.1)))
  | inr plain ↦ rw plain (network_v6_text a b c d)
]
