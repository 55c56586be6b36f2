-- ===== src/Examples/Clients.antt =====
-- The limiter with a few clients, and a client that names itself in a header.
use itchgrep.Base.{
  ◌+◌, ◌-◌, ◌/◌, ◌≤◌, ◌≡◌, ◌≢◌, refl, ◌⊎◌, Bool, true, none, some, List, [], ◌∷◌, arith, length,
}
use itchgrep.Base.Int.{pos_part}
use itchgrep.Base.Text.{Text, codes, text_eq}
use itchgrep.Base.Text.Maps.{lookup}
use itchgrep.Web.Client.{Net, Request, is_ip, host_of, from_trusted_peer, client_ip}
use itchgrep.Web.Client.Trusted.{client_ip_trusted}
use itchgrep.Web.Limiter.{
  max_buckets, back, Arithmetic, Limiter, Call, request, quiet, new_limiter, allow, serve_all,
}
use itchgrep.Web.Limiter.Table.{IsTable}
use itchgrep.Web.Limiter.Served.{serve_all-IsTable, allow-kept}
use itchgrep.Examples.{whole_floats}
use itchgrep.Examples.Plans.{apart}

abbrev whole : Arithmetic whole_floats
whole = record { add = λ a b. a + b; sub = λ a b. a - b; seconds = λ t. pos_part t / 1000000000 }

abbrev empty_table : Limiter whole_floats
empty_table = new_limiter whole_floats whole 5 20

empty_table-IsTable : IsTable empty_table
unfolding lookup
empty_table-IsTable = record {
  linked = record { unique = tt; apart = tt; agree = λ k. refl };
  few = omega arith;
}

abbrev calls : List Call
calls =
    request 1 (codes "10.0.0.1")
    ∷ request 2 (codes "10.0.0.2")
    ∷ request 700000000000 (codes "10.0.0.1")
    ∷ quiet 700000000001
    ∷ []

serve_all-IsTable_example : IsTable (serve_all whole_floats whole calls empty_table)
serve_all-IsTable_example =
    serve_all-IsTable whole_floats whole calls empty_table empty_table-IsTable

abbrev served : Limiter whole_floats
served = serve_all whole_floats whole calls empty_table

other : codes "10.0.0.3" ≢ codes "10.0.0.1"
unfolding text_eq
other = apart (codes "10.0.0.3") (codes "10.0.0.1") refl

allow-kept_example :
    (lookup (codes "10.0.0.1") (allow whole_floats whole 8 (codes "10.0.0.3") served).0.buckets
      ≡ lookup (codes "10.0.0.1") served.buckets)
    ⊎ ((lookup (codes "10.0.0.3") served.buckets ≡ none)
        × (max_buckets ≤ length served.buckets)
        × (back served.order ≡ some (codes "10.0.0.1"))
        × (lookup
              (codes "10.0.0.1")
              (allow whole_floats whole 8 (codes "10.0.0.3") served).0.buckets
            ≡ none))
allow-kept_example =
    allow-kept whole_floats whole 8 (codes "10.0.0.3") (codes "10.0.0.1") served other

-- Addresses that are their own text, all in one network of the proxy.
abbrev net : Net
net = record {
  Ip = Text;
  Cidr = Text;
  parse_ip = λ t. some t;
  parse_cidr = λ t. some t;
  contains = text_eq;
  split_host = λ t. some t;
  is_v4 = λ _. true;
  v4_network = λ t. t;
  network_48 = λ t. t;
  network_64 = λ t. t;
}

abbrev plain : Request
plain = record { remote_addr = codes "10.0.0.9"; connecting_ip = []; forwarded_for = [] }

abbrev spoofed : Request
spoofed = record plain { connecting_ip = codes "1.2.3.4" }

client_ip_trusted_example :
    ((client_ip net true (codes "10.0.0.1" ∷ []) spoofed ≡ host_of net spoofed)
      × (client_ip net true (codes "10.0.0.1" ∷ []) plain ≡ host_of net spoofed))
    ⊎ ((◌≡◌ {A = Bool} true true)
        × (from_trusted_peer net spoofed (codes "10.0.0.1" ∷ []) ≡ true)
        × ((client_ip net true (codes "10.0.0.1" ∷ []) spoofed ≡ host_of net spoofed)
            ⊎ (is_ip net (client_ip net true (codes "10.0.0.1" ∷ []) spoofed) ≡ true)))
client_ip_trusted_example = client_ip_trusted net true (codes "10.0.0.1" ∷ []) spoofed plain refl
