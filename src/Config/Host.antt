-- ===== src/Config/Host.antt =====
-- src/config.rs: the host of a server address, and loopback addresses.
use tak_bench.Prelude.{
  ℕ, Bool, true, false, ◌||◌, Option, none, some, [], ◌∷◌, reverse, ◌==◌, if◌then◌else◌,
}
use tak_bench.Prelude.Bytes.{Str, bytes, str_eq}
use tak_bench.Config.Ip.{parse_ip, is_loopback_address}

-- `str::rsplit_once`: the text before the last separator, and the text behind it
unfoldable pub rsplit_once : ℕ → Str → Option (Str × Str)
rsplit_once c [] = none
rsplit_once c (b ∷ rest) = elim (rsplit_once c rest) [
  | some (before, behind) ↦ some (b ∷ before, behind)
  | none ↦ if b == c then some ([], rest) else none
]

abbrev pub is_bracket : ℕ → Bool
is_bracket b = b == b'[' || b == b']'

unfoldable pub trim_start_brackets : Str → Str
trim_start_brackets [] = []
trim_start_brackets (b ∷ rest) = elim (is_bracket b) [
  | true ↦ trim_start_brackets rest
  | false ↦ b ∷ rest
]

-- `trim_matches(['[', ']'])`
unfoldable pub trim_brackets : Str → Str
unfolding trim_start_brackets
trim_brackets text = reverse (trim_start_brackets (reverse (trim_start_brackets text)))

unfoldable pub host_from_server : Str → Str
unfolding rsplit_once trim_brackets
host_from_server server = elim (rsplit_once b':' server) [
  | none ↦ server
  | some (host, port) ↦ trim_brackets host
]

unfoldable pub is_loopback : Str → Bool
unfolding parse_ip
is_loopback host =
    str_eq host (bytes "localhost")
    || elim (parse_ip host) [ none ↦ false | some address ↦ is_loopback_address address ]
