-- ===== src/ClientIp/Parser.antt =====
-- How the standard library of Rust reads the addresses that src/security/client_ip.rs parses.
use kraken_ui.Common.{
  ℕ, zero, suc, ◌+◌, ◌-◌, ◌*◌, Bool, true, false, not, ◌&&◌, ◌||◌, Option, none, some, List, [],
  ◌∷◌, ◌++◌, ◌==◌, ltb, leb, length, replicate, if◌then◌else◌, Text, text_eq,
}

pub data IpAddr : Type 0 where
  v4 v6 : List ℕ → IpAddr

abbrev pub ip_eq : IpAddr → IpAddr → Bool
ip_eq (v4 a) (v4 b) = text_eq a b
ip_eq (v6 a) (v6 b) = text_eq a b
ip_eq _ _ = false

-- `char::to_digit`
abbrev pub to_digit : ℕ → ℕ → Option ℕ
to_digit radix c =
    let d =
      if leb b'0' c && leb c b'9'
      then c - b'0'
      else if leb b'a' c && leb c b'z'
      then c - b'a' + 10
      else if leb b'A' c && leb c b'Z'
      then c - b'A' + 10
      else radix in
    if ltb d radix then some d else none

abbrev pub digit_then : Option ℕ → List ℕ → List ℕ
digit_then none later = []
digit_then (some d) later = d ∷ later

abbrev pub digits : ℕ → Text → List ℕ
digits radix [] = []
digits radix (c ∷ s) = digit_then (to_digit radix c) (digits radix s)

abbrev pub past_digit : Option ℕ → Text → Text → Text
past_digit none here later = here
past_digit (some d) here later = later

abbrev pub after_digits : ℕ → Text → Text
after_digits radix [] = []
after_digits radix (c ∷ s) = past_digit (to_digit radix c) (c ∷ s) (after_digits radix s)

abbrev pub value : ℕ → ℕ → List ℕ → ℕ
value radix acc [] = acc
value radix acc (d ∷ ds) = value radix (acc * radix + d) ds

abbrev pub leads_with_zero : List ℕ → Bool
leads_with_zero [] = false
leads_with_zero (d ∷ ds) = d == 0

-- `Parser::read_number` with a bound on the digits.
unfoldable pub read_number : ℕ → ℕ → Bool → ℕ → Text → Option (ℕ × Text)
read_number radix max_digits allow_zero_prefix bound s =
    let ds = digits radix s in
    if ltb max_digits (length ds)
      || (length ds == 0
          || ((not allow_zero_prefix && (leads_with_zero ds && ltb 1 (length ds)))
              || ltb bound (value radix 0 ds)))
    then none
    else some (value radix 0 ds, after_digits radix s)

abbrev pub given : ℕ → Text → Option Text
given c [] = none
given c (d ∷ s) = if d == c then some s else none

-- `read_separator`: from the second group on, a separator comes first.
abbrev pub past_separator : ℕ → Bool → Text → Option Text
past_separator c true s = some s
past_separator c false s = given c s

abbrev octet_of : Option Text → Option (ℕ × Text)
octet_of none = none
octet_of (some s) = read_number 10 3 false 255 s

abbrev next_octets : Option (ℕ × Text) → (Text → Option (List ℕ × Text)) → Option (List ℕ × Text)
next_octets none later = none
next_octets (some (n, s)) later = with_first n (later s)
  where
    with_first : ℕ → Option (List ℕ × Text) → Option (List ℕ × Text)
    with_first n none = none
    with_first n (some (ns, s)) = some (n ∷ ns, s)

abbrev pub read_octets : ℕ → Bool → Text → Option (List ℕ × Text)
read_octets zero first s = some ([], s)
read_octets (suc k) first s =
    next_octets (octet_of (past_separator b'.' first s)) (λ rest. read_octets k false rest)

-- `read_ipv4_addr`
unfoldable pub read_ipv4 : Text → Option (List ℕ × Text)
unfolding read_number
read_ipv4 s = read_octets 4 true s

-- What `read_groups` answers: the groups, whether an IPv4 address ends them, and what follows.
pub record Groups : Type 0 where
  pub groups : List ℕ
  pub has_ipv4 : Bool
  pub rest : Text

abbrev pub octets_as_groups : List ℕ → List ℕ
octets_as_groups (a ∷ b ∷ c ∷ d ∷ []) = (a * 256 + b) ∷ (c * 256 + d) ∷ []
octets_as_groups _ = []

abbrev ipv4_of : Bool → Option Text → Option (List ℕ × Text)
ipv4_of false s = none
ipv4_of true none = none
ipv4_of true (some s) = read_ipv4 s

abbrev group_of : Option Text → Option (ℕ × Text)
group_of none = none
group_of (some s) = read_number 16 4 true 65535 s

abbrev consed : ℕ → Groups → Groups
consed n g = record g { groups = n ∷ g.groups }

abbrev one_group : Option (ℕ × Text) → Text → (Text → Groups) → Groups
one_group none s later = record { groups = []; has_ipv4 = false; rest = s }
one_group (some (n, rest)) s later = consed n (later rest)

abbrev group_or_ipv4 : Option (List ℕ × Text) → Groups → Groups
group_or_ipv4 none g = g
group_or_ipv4 (some (octets, rest)) g = record {
  groups = octets_as_groups octets;
  has_ipv4 = true;
  rest = rest;
}

-- An embedded IPv4 address needs room for two groups.
unfoldable pub read_groups : ℕ → Bool → Text → Groups
unfolding read_ipv4 read_number
read_groups zero first s = record { groups = []; has_ipv4 = false; rest = s }
read_groups (suc k) first s =
    group_or_ipv4 (ipv4_of (ltb 0 k) (past_separator b':' first s))
      (one_group (group_of (past_separator b':' first s)) s (λ rest. read_groups k false rest))

abbrev filled : List ℕ → Groups → Option (List ℕ × Text)
filled head tail =
    some (head ++ (replicate (8 - length head - length tail.groups) 0 ++ tail.groups), tail.rest)

abbrev after_colons : List ℕ → Option Text → Option (List ℕ × Text)
after_colons head none = none
after_colons head (some s) = filled head (read_groups (8 - (length head + 1)) true s)

abbrev two_colons : Text → Option Text
two_colons (a ∷ b ∷ s) = if a == b':' && b == b':' then some s else none
two_colons _ = none

unfoldable pub read_ipv6 : Text → Option (List ℕ × Text)
unfolding read_groups
read_ipv6 s =
    let head = read_groups 8 true s in
    if length head.groups == 8
    then some (head.groups, head.rest)
    else if head.has_ipv4
    then none
    else after_colons head.groups (two_colons head.rest)

abbrev whole : (List ℕ → IpAddr) → Option (List ℕ × Text) → Option IpAddr
whole kind none = none
whole kind (some (ns, [])) = some (kind ns)
whole kind (some (ns, c ∷ s)) = none

abbrev either_ip : Option (List ℕ × Text) → Option (List ℕ × Text) → Option IpAddr
either_ip none other = whole v6 other
either_ip (some r) other = whole v4 (some r)

-- `str::parse::<IpAddr>`
unfoldable pub parse_ip : Text → Option IpAddr
unfolding read_ipv4 read_ipv6
parse_ip s = either_ip (read_ipv4 s) (read_ipv6 s)
