-- ===== src/Web/Client/Trusted.antt =====
-- Whose word is taken for the address of a client: ClientIP of internal/web/clientip.go.
use itchgrep.Base.{
  ◌≡◌, refl, ◌∙◌, ◌⊎◌, inl, inr, Bool, true, false, not, ◌&&◌, List, [], Bool-cases, by_if,
}
use itchgrep.Base.Text.{Text, text_eq}
use itchgrep.Web.Client.{
  Net, Request, is_ip, host_of, from_trusted_peer, first_forwarded, client_ip,
}

and_left : (a b : Bool) → a && b ≡ true → a ≡ true
and_left true b h = refl
and_left false b h = h

and_right : (a b : Bool) → a && b ≡ true → b ≡ true
and_right true b h = h
and_right false b h = cc

module _ (n : Net) where
  same_host : (r r' : Request) → r.remote_addr ≡ r'.remote_addr → host_of n r' ≡ host_of n r
  unfolding host_of
  same_host r r' e = rw e refl

  same_peer :
      (cidrs : List n.Cidr) (r r' : Request)
      → r.remote_addr ≡ r'.remote_addr
      → from_trusted_peer n r' cidrs ≡ from_trusted_peer n r cidrs
  unfolding from_trusted_peer
  same_peer cidrs r r' e = rw (same_host r r' e, from_trusted_peer) refl

  untrusted :
      (trust : Bool) (cidrs : List n.Cidr) (r : Request)
      → trust && from_trusted_peer n r cidrs ≡ false
      → client_ip n trust cidrs r ≡ host_of n r
  unfolding client_ip
  untrusted trust cidrs r h = rw h refl

  headed :
      (trust : Bool) (cidrs : List n.Cidr) (r : Request)
      → (client_ip n trust cidrs r ≡ host_of n r) ⊎ (is_ip n (client_ip n trust cidrs r) ≡ true)
  unfolding client_ip
  headed trust cidrs r =
      let P : Text → Type 0 = λ t. (t ≡ host_of n r) ⊎ (is_ip n t ≡ true) in
      by_if P (trust && from_trusted_peer n r cidrs)
        (λ _.
          by_if P (not (text_eq r.connecting_ip []) && is_ip n r.connecting_ip)
            (λ c. inr (and_right _ _ c))
            (λ _.
              by_if P (not (text_eq r.forwarded_for []) && is_ip n (first_forwarded n r))
                (λ c. inr (and_right _ _ c)) (λ _. inl refl)))
        (λ _. inl refl)

-- Two requests over sockets of one address come from one client, the host of the socket, whatever
-- their headers hold, unless proxy headers are trusted and the address lies in a trusted network;
-- then the client is that host or a text that parses as an address.
pub client_ip_trusted :
    (n : Net) (trust_proxy : Bool) (cidrs : List n.Cidr) (r r' : Request)
    → r.remote_addr ≡ r'.remote_addr
    → ((client_ip n trust_proxy cidrs r ≡ host_of n r)
        × (client_ip n trust_proxy cidrs r' ≡ host_of n r))
      ⊎ ((trust_proxy ≡ true)
          × (from_trusted_peer n r cidrs ≡ true)
          × ((client_ip n trust_proxy cidrs r ≡ host_of n r)
              ⊎ (is_ip n (client_ip n trust_proxy cidrs r) ≡ true)))
client_ip_trusted n trust cidrs r r' e = elim (Bool-cases (trust && from_trusted_peer n r cidrs)) [
  | inl h ↦ inr (and_left trust _ h, and_right trust _ h, headed n trust cidrs r)
  | inr h ↦ inl (
    untrusted n trust cidrs r h,
    untrusted n trust cidrs r' (rw (same_peer n cidrs r r' e) h) ∙ same_host n r r' e,
  )
]
