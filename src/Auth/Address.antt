-- ===== src/Auth/Address.antt =====
-- internal/auth/auth.go: the address that a request comes from. The parsing of addresses and networks
-- (net.SplitHostPort, net.ParseIP, net.ParseCIDR, IPNet.Contains) is a parameter.
pub mod Forged
use xktmcp.Prelude.{
  ℕ, Bool, true, false, not, ◌&&◌, ◌||◌, Option, none, some, List, [], ◌∷◌, ◌++◌, ◌==◌, nat_eq,
  list_eq, reverse, if◌then◌else◌,
}
use xktmcp.Prelude.Text.{Text, trim_space}
use xktmcp.Prelude.Split.{split, join}

-- The parts of an http.Request that name an address: the values of X-Forwarded-For and of X-Real-IP
-- in the order of the header, and the TCP peer.
pub record Origin : Type 0 where
  pub forwarded : List Text
  pub real_ip : List Text
  pub remote_addr : Text

-- `split_host` is net.SplitHostPort, for the host.
pub record Net : Type 1 where
  pub Ip : Type 0
  pub Cidr : Type 0
  pub split_host : Text → Option Text
  pub parse_ip : Text → Option Ip
  pub parse_cidr : Text → Option Cidr
  pub contains : Cidr → Ip → Bool

-- h.Get of a header's values
abbrev pub first : List Text → Text
first [] = []
first (v ∷ vs) = v

-- The text before the first comma, if there is one.
unfoldable pub before_comma : Text → Option Text
before_comma [] = none
before_comma (c ∷ s) =
    let rest = before_comma s in
    if c == 44 then some [] else elim rest [ none ↦ none | some p ↦ some (c ∷ p) ]

module _ (net : Net) where
  -- host, _, err := net.SplitHostPort(r.RemoteAddr), with its fallback
  unfoldable pub host_of : Text → Text
  host_of addr = elim (net.split_host addr) [ none ↦ addr | some host ↦ host ]

  -- For logs only.
  unfoldable pub client_ip : Origin → Text
  unfolding host_of before_comma trim_space
  client_ip r =
      if not (first r.forwarded == [])
      then elim (before_comma (first r.forwarded)) [
        | some p ↦ trim_space p
        | none ↦ trim_space (first r.forwarded)
      ]
      else if not (trim_space (first r.real_ip) == [])
      then trim_space (first r.real_ip)
      else host_of r.remote_addr

  -- The loops of `proxyTrusted` and `ipAllowed`. A nil network is `none`.
  unfoldable pub in_any : List (Option net.Cidr) → net.Ip → Bool
  in_any [] ip = false
  in_any (none ∷ cidrs) ip = in_any cidrs ip
  in_any (some cidr ∷ cidrs) ip = net.contains cidr ip || in_any cidrs ip

  -- The loop over the hops, which are listed from the last one on: `client` is the address so far.
  unfoldable pub walk : List (Option net.Cidr) → net.Ip → List Text → net.Ip → net.Ip
  unfolding in_any trim_space
  walk proxies peer [] client = client
  walk proxies peer (hop ∷ hops) client =
      if not (in_any proxies client) then client else elim (net.parse_ip (trim_space hop)) [
        | none ↦ peer
        | some next ↦ walk proxies peer hops next
      ]

  -- X-Real-IP, where there is no X-Forwarded-For.
  unfoldable pub real_ip_or : net.Ip → List Text → net.Ip
  unfolding trim_space
  real_ip_or peer [] = peer
  real_ip_or peer (v ∷ []) = elim (net.parse_ip (trim_space v)) [ none ↦ peer | some ip ↦ ip ]
  real_ip_or peer (v ∷ w ∷ vs) = peer

  -- The end of `securityClientIP`, for a peer that is a trusted proxy.
  unfoldable pub behind_proxy : List (Option net.Cidr) → net.Ip → Origin → net.Ip
  unfolding walk real_ip_or split join
  behind_proxy proxies peer r = elim r.forwarded [
    | [] ↦ real_ip_or peer r.real_ip
    | v ∷ vs ↦ walk proxies peer (reverse (split 44 (join 44 (v ∷ vs)))) peer
  ]

  -- `trust` is `TrustForwardedHeader`; `none` is nil.
  unfoldable pub security_client_ip : Bool → List (Option net.Cidr) → Origin → Option net.Ip
  unfolding host_of behind_proxy in_any trim_space
  security_client_ip trust proxies r = elim (net.parse_ip (trim_space (host_of r.remote_addr))) [
    | none ↦ none
    | some peer ↦
        if not trust || not (in_any proxies peer)
        then some peer
        else some (behind_proxy proxies peer r)
  ]

  -- `none` is the error. No network that this returns is nil.
  unfoldable pub parse_cidrs : List Text → Option (List net.Cidr)
  unfolding trim_space
  parse_cidrs [] = some []
  parse_cidrs (s ∷ items) =
      let rest = parse_cidrs items in
      if trim_space s == [] then rest else elim (net.parse_cidr (trim_space s)) [
        | none ↦ none
        | some n ↦ elim rest [ none ↦ none | some ns ↦ some (n ∷ ns) ]
      ]
