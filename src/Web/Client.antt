-- ===== src/Web/Client.antt =====
-- Who a request comes from: internal/web/clientip.go, and limiterKey of internal/web/ratelimit.go.
-- The package net, which parses and prints addresses, is a parameter.
pub mod Trusted
use itchgrep.Base.{
  Bool, true, false, not, ◌&&◌, Option, none, some, List, [], ◌∷◌, ◌++◌, any, ◌==◌, if◌then◌else◌,
}
use itchgrep.Base.Text.{Text, codes, text_eq}
use itchgrep.Base.Text.Cut.{cut}
use itchgrep.Base.Text.Space.{trim_space}
use itchgrep.Base.Text.Split.{split}

-- `v4_network` is the mask by /24 of an address that is IPv4 or maps one, and `network` the mask of
-- any other by a number of bits; both are printed. `none` is an error.
pub record Net : Type 1 where
  pub Ip : Type 0
  pub Cidr : Type 0
  pub parse_ip : Text → Option Ip
  pub parse_cidr : Text → Option Cidr
  pub contains : Cidr → Ip → Bool
  pub split_host : Text → Option Text
  pub is_v4 : Ip → Bool
  pub v4_network : Ip → Text
  pub network_48 : Ip → Text
  pub network_64 : Ip → Text

-- The socket's address, and the two headers; a header that is not there is empty.
pub record Request : Type 0 where
  pub remote_addr : Text
  pub connecting_ip : Text
  pub forwarded_for : Text

module _ (n : Net) where
  abbrev pub is_ip : Text → Bool
  is_ip t = elim (n.parse_ip t) [ none ↦ false | some _ ↦ true ]

  cidrs_of : List Text → List n.Cidr
  unfolding trim_space
  cidrs_of [] = []
  cidrs_of (p ∷ ps) =
      let rest = cidrs_of ps in
      if text_eq (trim_space p) []
      then rest
      else elim (n.parse_cidr (trim_space p)) [ none ↦ rest | some c ↦ c ∷ rest ]

  unfoldable pub parse_trusted_cidrs : Text → List n.Cidr
  unfolding cidrs_of split
  parse_trusted_cidrs raw = cidrs_of (split b',' raw)

  unfoldable pub host_of : Request → Text
  host_of r = elim (n.split_host r.remote_addr) [ none ↦ r.remote_addr | some host ↦ host ]

  unfoldable pub from_trusted_peer : Request → List n.Cidr → Bool
  unfolding host_of
  from_trusted_peer r cidrs = elim (n.parse_ip (host_of r)) [
    | none ↦ false
    | some ip ↦ any (λ c. n.contains c ip) cidrs
  ]

  unfoldable pub first_forwarded : Request → Text
  unfolding cut trim_space
  first_forwarded r = elim (cut (codes ",") r.forwarded_for) [
    | none ↦ trim_space r.forwarded_for
    | some (before, _) ↦ trim_space before
  ]

  unfoldable pub client_ip : Bool → List n.Cidr → Request → Text
  client_ip trust_proxy cidrs r =
      if trust_proxy && from_trusted_peer r cidrs
      then (if not (text_eq r.connecting_ip []) && is_ip r.connecting_ip
          then r.connecting_ip
          else if not (text_eq r.forwarded_for []) && is_ip (first_forwarded r)
          then first_forwarded r
          else host_of r)
      else host_of r

  -- The bucket of an address.
  unfoldable pub limiter_key : Text → Text
  limiter_key ip = elim (n.parse_ip ip) [
    | none ↦ ip
    | some parsed ↦ if n.is_v4 parsed then ip else n.network_64 parsed ++ codes "/64"
  ]

  unfoldable pub anonymize_ip : Text → Text
  anonymize_ip ip = elim (n.parse_ip ip) [
    | none ↦ codes "unknown"
    | some parsed ↦ if n.is_v4 parsed then n.v4_network parsed else n.network_48 parsed
  ]
