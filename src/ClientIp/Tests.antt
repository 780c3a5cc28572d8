-- ===== src/ClientIp/Tests.antt =====
-- Addresses and headers at concrete values.
use Prim.Native.String.{String}
use kraken_ui.Common.{
  arith, ◌≡◌, refl, Option, none, some, [], ◌∷◌, Text, codes, text_eq, trim, trim_matches,
  if◌then◌else◌,
}
use kraken_ui.ClientIp.Parser.{v4, v6, read_number, read_ipv4, read_groups, read_ipv6, parse_ip}
use kraken_ui.ClientIp.{
  split_once, rsplit_once, split, is_u16, without_brackets, without_port, parse_forwarded_ip,
  forwarded_for, x_forwarded_for, x_real_ip, effective_client_ip,
}
use kraken_ui.ClientIp.Ports.{parse_forwarded_ip-port}

dotted : parse_ip (codes "203.0.113.10") ≡ some (v4 (203 ∷ 0 ∷ 113 ∷ 10 ∷ []))
unfolding parse_ip read_ipv4 read_ipv6 read_groups read_number
dotted = refl

leading_zero : parse_ip (codes "203.0.113.010") ≡ none
unfolding parse_ip read_ipv4 read_ipv6 read_groups read_number
leading_zero = refl

compressed :
    parse_ip (codes "2001:db8::1") ≡ some (v6 (0x2001 ∷ 0xdb8 ∷ 0 ∷ 0 ∷ 0 ∷ 0 ∷ 0 ∷ 1 ∷ []))
unfolding parse_ip read_ipv4 read_ipv6 read_groups read_number
compressed = refl

embedded :
    parse_ip (codes "::ffff:192.0.2.1")
    ≡ some (v6 (0 ∷ 0 ∷ 0 ∷ 0 ∷ 0 ∷ 0xffff ∷ 0xc000 ∷ 0x201 ∷ []))
unfolding parse_ip read_ipv4 read_ipv6 read_groups read_number
embedded = refl

with_port : parse_forwarded_ip (codes "203.0.113.20:443") ≡ some (v4 (203 ∷ 0 ∷ 113 ∷ 20 ∷ []))
unfolding parse_forwarded_ip trim_matches without_brackets without_port rsplit_once is_u16 parse_ip
    read_ipv4 read_ipv6 read_groups read_number
with_port = refl

-- An address of version 6 that stands alone loses its last group where that is a decimal number.
lost_group : parse_forwarded_ip (codes "2001:db8::1") ≡ none
unfolding parse_forwarded_ip trim_matches without_brackets without_port rsplit_once is_u16 parse_ip
    read_ipv4 read_ipv6 read_groups read_number
lost_group = refl

other_address : parse_forwarded_ip (codes "2001:db8::5:80") ≡ parse_ip (codes "2001:db8::5")
unfolding parse_forwarded_ip trim_matches without_brackets without_port rsplit_once is_u16 parse_ip
    read_ipv4 read_ipv6 read_groups read_number
other_address = refl

abbrev one_header : String → String → Text → Option Text
one_header name value asked = if text_eq asked (codes name) then some (codes value) else none

forwarded :
    effective_client_ip
      (v4 (127 ∷ 0 ∷ 0 ∷ 1 ∷ []))
      (one_header "x-forwarded-for" "203.0.113.10, 198.51.100.2")
      (v4 (127 ∷ 0 ∷ 0 ∷ 1 ∷ []) ∷ [])
    ≡ v4 (203 ∷ 0 ∷ 113 ∷ 10 ∷ [])
unfolding effective_client_ip forwarded_for x_forwarded_for x_real_ip text_eq split split_once trim
    parse_forwarded_ip trim_matches without_brackets without_port rsplit_once is_u16 parse_ip
    read_ipv4 read_ipv6 read_groups read_number
forwarded = refl

parse_forwarded_ip-port_example :
    parse_forwarded_ip (codes "2001:db8::5:80") ≡ parse_ip (codes "2001:db8::5")
unfolding trim_matches split_once
parse_forwarded_ip-port_example =
    parse_forwarded_ip-port (codes "2001:db8::5") (codes "80") (refl, refl, omega arith) refl refl
