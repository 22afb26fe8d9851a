-- ===== src/ClientIp.antt =====
-- gw/web/requests/ip.go: the caller's address, from the connection and the forwarding headers. The
-- address types and functions of net and net/netip are a parameter, of which nothing is assumed.
pub mod Unforged
mod Tests
use Prim.Native.Char.{Char, code}
use Prim.Native.String.{[] as empty, ◌∷◌ as cons}
use gwf.Common.{
  ℕ, String, Bool, false, Option, none, some, List, leb, length, ◌&&◌, ◌||◌, ◌∷◌, ◌++◌, ◌==◌, [],
  if◌then◌else◌, String_eq, ℕ_eq,
}

pub record Net : Type 1 where
  pub Addr : Type 0
  pub Prefix : Type 0
  pub parse_addr : String → Option Addr
  pub unmap : Addr → Addr
  pub addr_string : Addr → String
  pub parse_prefix : String → Option Prefix
  pub masked : Prefix → Prefix
  pub prefix_contains : Prefix → Addr → Bool
  -- the host of `net.SplitHostPort`
  pub host_of : String → Option String

pub record Request : Type 0 where
  pub remote_addr : String
  pub x_forwarded_for : String
  pub x_real_ip : String

-- Unicode's white space, as `strings.TrimSpace` cuts it.
is_space : Char → Bool
is_space c =
    let n = code c in
    leb 9 n && leb n 13
    || n == 32
    || n == 0x85
    || n == 0xa0
    || n == 0x1680
    || leb 0x2000 n && leb n 0x200a
    || n == 0x2028
    || n == 0x2029
    || n == 0x202f
    || n == 0x205f
    || n == 0x3000

trim_left : String → String
unfolding is_space
trim_left empty = ""
trim_left (cons c s) = let rest = trim_left s in if is_space c then rest else cons c s

trim_right : String → String
unfolding is_space
trim_right empty = ""
trim_right (cons c s) =
    let rest = trim_right s in if is_space c && rest == "" then "" else cons c rest

pub trim_space : String → String
unfolding trim_left trim_right
trim_space s = trim_left (trim_right s)

cons_head : Char → List String → List String
cons_head c [] = cons c "" ∷ []
cons_head c (p ∷ ps) = cons c p ∷ ps

-- strings.Split(s, ",")
pub split_commas : String → List String
unfolding cons_head
split_commas empty = "" ∷ []
split_commas (cons c s) =
    let rest = split_commas s in if code c == 44 then "" ∷ rest else cons_head c rest

module _ (net : Net) where
  open net use {Addr, Prefix, parse_addr, unmap, addr_string, prefix_contains}

  trust_all : List String → List Prefix → Option (List Prefix)
  unfolding trim_space
  trust_all [] trusted = some trusted
  trust_all (c ∷ cidrs) trusted = elim (net.parse_prefix (trim_space c)) [
    | none ↦ none
    | some p ↦ trust_all cidrs (trusted ++ net.masked p ∷ [])
  ]

  -- A resolver is its trusted prefixes; `none` is the error of a prefix that does not parse.
  pub new_client_ip_resolver : List String → Option (List Prefix)
  unfolding trust_all
  new_client_ip_resolver cidrs = trust_all cidrs []

  pub trusted_count : List Prefix → ℕ
  trusted_count trusted = length trusted

  any_contains : List Prefix → Addr → Bool
  any_contains [] ip = false
  any_contains (p ∷ trusted) ip = prefix_contains p ip || any_contains trusted ip

  pub is_trusted : List Prefix → Addr → Bool
  unfolding any_contains
  is_trusted trusted ip = any_contains trusted (unmap ip)

  canonical : String → String
  canonical host = elim (parse_addr host) [ none ↦ host | some ip ↦ addr_string (unmap ip) ]

  pub peer_addr : Request → String
  unfolding canonical
  peer_addr r = elim (net.host_of r.remote_addr) [
    | none ↦ canonical r.remote_addr
    | some host ↦ canonical host
  ]

  -- What an entry of the chain says: an address that is not trusted, or nothing.
  stop_at : List Prefix → String → Option Addr
  unfolding trim_space is_trusted
  stop_at trusted part = elim (parse_addr (trim_space part)) [
    | none ↦ none
    | some ip ↦ if is_trusted trusted ip then none else some ip
  ]

  or_else : Option Addr → Option Addr → Option Addr
  or_else (some ip) other = some ip
  or_else none other = other

  -- The walk from the right: the last entry that stops it.
  pub walk : List Prefix → List String → Option Addr
  unfolding stop_at or_else
  walk trusted [] = none
  walk trusted (part ∷ parts) = or_else (walk trusted parts) (stop_at trusted part)

  real_ip : String → String → String
  real_ip xri peer =
      if xri == ""
      then peer
      else elim (parse_addr xri) [ none ↦ peer | some ip ↦ addr_string (unmap ip) ]

  from_headers : Option Addr → Request → String → String
  unfolding real_ip trim_space
  from_headers (some ip) r peer = addr_string (unmap ip)
  from_headers none r peer = real_ip (trim_space r.x_real_ip) peer

  chain : List Prefix → Request → Option Addr
  unfolding split_commas walk
  chain trusted r =
      if r.x_forwarded_for == "" then none else walk trusted (split_commas r.x_forwarded_for)

  believed : List Prefix → Option Addr → Request → String → String
  unfolding from_headers chain is_trusted
  believed trusted none r peer = peer
  believed trusted (some ip) r peer =
      if is_trusted trusted ip then from_headers (chain trusted r) r peer else peer

  pub client_ip : List Prefix → Request → String
  unfolding believed peer_addr
  client_ip [] r = peer_addr r
  client_ip (p ∷ trusted) r =
      let peer = peer_addr r in believed (p ∷ trusted) (parse_addr peer) r peer
