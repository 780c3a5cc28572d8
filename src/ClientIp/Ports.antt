-- ===== src/ClientIp/Ports.antt =====
-- The cutting off of a port in src/security/client_ip.rs.
use kraken_ui.Common.{
  ◌≤◌, ◌≡◌, refl, ap, true, false, none, some, [], ◌∷◌, ◌++◌, ◌==◌, all, Text, is_empty,
  is_ascii_digit, trim_matches, arith,
}
use kraken_ui.ClientIp.Parser.{digits, value, parse_ip}
use kraken_ui.ClientIp.{
  rsplit_once, is_u16, without_brackets, without_port, parse_forwarded_ip, opened,
}

-- A port is a number of decimal digits below 2 ^ 16.
abbrev pub IsPort : Text → Type 0
IsPort port =
    (is_empty port ≡ false)
    × (all is_ascii_digit port ≡ true)
    × (value 10 0 (digits 10 port) ≤ 65535)

no_colon : (port : Text) → all is_ascii_digit port ≡ true → rsplit_once b':' port ≡ none
unfolding rsplit_once
no_colon [] e = refl
no_colon (c ∷ s) e = let later = no_colon s (ground arith) in rw later (ground arith)

rsplit_once-append :
    (address port : Text)
    → rsplit_once b':' port ≡ none
    → rsplit_once b':' (address ++ b':' ∷ port) ≡ some (address, port)
unfolding rsplit_once
rsplit_once-append [] port e = rw e refl
rsplit_once-append (c ∷ address) port e = rw (rsplit_once-append address port e) refl

is_u16-port : (port : Text) → IsPort port → is_u16 port ≡ true
unfolding is_u16
is_u16-port [] (some_digit, all_, small) = cc
is_u16-port (c ∷ s) (some_digit, all_, small) = ground arith

without_port-port :
    (address port : Text) → IsPort port → without_port (address ++ b':' ∷ port) ≡ address
unfolding without_port
without_port-port address port (some_digit, all_, small) =
    rw (rsplit_once-append address port (no_colon port all_))
      (rw (is_u16-port port (some_digit, all_, small)) refl)

-- A value without quotes around it, and without an address in brackets at its start, is read as the address before its
-- last colon where what follows that colon is a decimal number below 2 ^ 16, whatever address that is.
pub parse_forwarded_ip-port :
    (address port : Text)
    → IsPort port
    → trim_matches (λ c. c == 0x22) (address ++ b':' ∷ port) ≡ address ++ b':' ∷ port
    → opened (address ++ b':' ∷ port) ≡ none
    → parse_forwarded_ip (address ++ b':' ∷ port) ≡ parse_ip address
unfolding parse_forwarded_ip without_brackets
parse_forwarded_ip-port address port is_port plain closed =
    rw plain (rw closed (ap parse_ip (without_port-port address port is_port)))
