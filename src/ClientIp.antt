-- ===== src/ClientIp.antt =====
-- src/security/client_ip.rs: the address of a client behind trusted proxies. A header is asked for by
-- its lower-case name and is there if its value is visible ASCII.
pub mod Parser
pub mod Ports
mod Tests
use kraken_ui.Common.{
  ℕ, zero, suc, ◌+◌, ◌-◌, ◌*◌, Bool, true, false, not, ◌&&◌, ◌||◌, Option, none, some, List, [],
  ◌∷◌, ◌++◌, ◌==◌, ltb, leb, all, any, length, replicate, if◌then◌else◌, Text, codes, text_eq, trim,
  trim_matches, is_empty, to_ascii_lowercase, is_ascii_digit,
}
use kraken_ui.ClientIp.Parser.{IpAddr, ip_eq, digits, value, parse_ip}

abbrev pub before_char : ℕ → Option (Text × Text) → Option (Text × Text)
before_char c none = none
before_char c (some (a, b)) = some (c ∷ a, b)

-- `str::split_once` at a character.
unfoldable pub split_once : ℕ → Text → Option (Text × Text)
split_once c [] = none
split_once c (d ∷ s) =
    let later = before_char d (split_once c s) in if d == c then some ([], s) else later

abbrev pub last_or : Bool → ℕ → Text → Option (Text × Text) → Option (Text × Text)
last_or here d s (some (a, b)) = some (d ∷ a, b)
last_or here d s none = if here then some ([], s) else none

-- `str::rsplit_once` at a character.
unfoldable pub rsplit_once : ℕ → Text → Option (Text × Text)
rsplit_once c [] = none
rsplit_once c (d ∷ s) = last_or (d == c) d s (rsplit_once c s)

abbrev onto_first : ℕ → List Text → List Text
onto_first d [] = (d ∷ []) ∷ []
onto_first d (part ∷ parts) = (d ∷ part) ∷ parts

-- `str::split` at a character.
unfoldable pub split : ℕ → Text → List Text
split c [] = [] ∷ []
split c (d ∷ s) = let later = split c s in if d == c then [] ∷ later else onto_first d later

-- `str::parse::<u16>().is_ok()`
abbrev all_digits : Text → Bool
all_digits s = not (is_empty s) && (all is_ascii_digit s && leb (value 10 0 (digits 10 s)) 65535)

unfoldable pub is_u16 : Text → Bool
is_u16 [] = false
is_u16 (c ∷ s) = if c == b'+' then all_digits s else all_digits (c ∷ s)

abbrev pub or_whole : Text → Option Text → Text
or_whole whole none = whole
or_whole whole (some part) = part

abbrev pub address_part : Option (Text × Text) → Option Text
address_part none = none
address_part (some (address, port)) = some address

abbrev pub opened : Text → Option Text
opened [] = none
opened (c ∷ rest) = if c == b'[' then address_part (split_once b']' rest) else none

unfoldable pub without_brackets : Text → Text
without_brackets value = or_whole value (opened value)

abbrev pub address_of_port : Option (Text × Text) → Option Text
address_of_port none = none
address_of_port (some (address, port)) = if is_u16 port then some address else none

unfoldable pub without_port : Text → Text
without_port value = or_whole value (address_of_port (rsplit_once b':' value))

unfoldable pub parse_forwarded_ip : Text → Option IpAddr
unfolding without_brackets without_port
parse_forwarded_ip value =
    parse_ip (without_port (without_brackets (trim_matches (λ c. c == 0x22) value)))

abbrev for_part : Option (Text × Text) → Option IpAddr → Option IpAddr
for_part none later = none
for_part (some (name, value)) later =
    if text_eq (to_ascii_lowercase (trim name)) (codes "for")
    then parse_forwarded_ip (trim value)
    else later

-- A part with no `=` ends the search.
abbrev pub for_parts : List Text → Option IpAddr
for_parts [] = none
for_parts (part ∷ parts) = let later = for_parts parts in for_part (split_once b'=' part) later

abbrev pub or_else : Option IpAddr → Option IpAddr → Option IpAddr
or_else none other = other
or_else (some ip) other = some ip

abbrev pub first_ip : List Text → Option IpAddr
first_ip [] = none
first_ip (part ∷ parts) =
    let later = first_ip parts in or_else (parse_forwarded_ip (trim part)) later

abbrev of_header : (Text → Option IpAddr) → Option Text → Option IpAddr
of_header read none = none
of_header read (some value) = read value

unfoldable pub forwarded_for : (Text → Option Text) → Option IpAddr
forwarded_for headers =
    of_header (λ value. for_parts (split b';' value)) (headers (codes "forwarded"))

unfoldable pub x_forwarded_for : (Text → Option Text) → Option IpAddr
x_forwarded_for headers =
    of_header (λ value. first_ip (split b',' value)) (headers (codes "x-forwarded-for"))

unfoldable pub x_real_ip : (Text → Option Text) → Option IpAddr
x_real_ip headers =
    of_header (λ value. parse_forwarded_ip (trim value)) (headers (codes "x-real-ip"))

abbrev or_peer : IpAddr → Option IpAddr → IpAddr
or_peer peer none = peer
or_peer peer (some ip) = ip

unfoldable pub effective_client_ip : IpAddr → (Text → Option Text) → List IpAddr → IpAddr
unfolding forwarded_for x_forwarded_for x_real_ip
effective_client_ip peer_ip headers trusted_proxy_ips =
    if not (any (λ ip. ip_eq ip peer_ip) trusted_proxy_ips)
    then peer_ip
    else or_peer peer_ip
        (or_else (or_else (forwarded_for headers) (x_forwarded_for headers)) (x_real_ip headers))
