-- ===== src/Auth/Address/Forged.antt =====
-- What a client can forge of the address that decides.
use xktmcp.Prelude.{
  ◌≡◌, ◌∙◌, sym, ap, refl, inl, inr, Bool, true, false, not, Option, some, List, [], ◌∷◌, ◌++◌,
  arith, ◌||◌, nat_eq, list_eq, reverse, Bool-cases, Option-cases,
}
use xktmcp.Prelude.Text.{Text, trim_space}
use xktmcp.Prelude.Split.{split, join, split-append, join-append}
use xktmcp.Auth.Address
use xktmcp.Auth.Address.{Origin, Net}
use mathlib.Core.List.{reverse-append}

module _ (net : Net) (proxies : List (Option net.Cidr)) (peer : net.Ip) where
  -- Once the walk stops at an address that is no proxy, what lies further is not read.
  walk-append :
      (real forged : List Text) (client : net.Ip)
      → Address.in_any net proxies peer ≡ true
      → Address.in_any net proxies (Address.walk net proxies peer real client) ≡ false
      → Address.walk net proxies peer (real ++ forged) client
        ≡ Address.walk net proxies peer real client
  unfolding Address.walk
  walk-append [] [] client p stop = refl
  walk-append [] (f ∷ forged) client p stop = rw stop refl
  walk-append (hop ∷ real) forged client p stop =
      elim (Bool-cases (Address.in_any net proxies client)) [
        | inr out ↦ rw out refl
        | inl here ↦ elim (Option-cases (net.parse_ip (trim_space hop))) [
          | inl bad ↦ rw here (rw bad refl)
          | inr (next, good) ↦
              rw here (rw good (walk-append real forged next p (rw good at (rw here at stop))))
        ]
      ]

hops-append :
    (f : Text) (fs : List Text) (v : Text) (vs : List Text)
    → reverse (split 44 (join 44 ((f ∷ fs) ++ (v ∷ vs))))
      ≡ reverse (split 44 (join 44 (v ∷ vs))) ++ reverse (split 44 (join 44 (f ∷ fs)))
hops-append f fs v vs =
    ap (λ t. reverse (split 44 t)) (join-append 44 f fs v vs)
    ∙ ap reverse (split-append 44 (join 44 (f ∷ fs)) (join 44 (v ∷ vs)))
    ∙ reverse-append (split 44 (join 44 (f ∷ fs))) (split 44 (join 44 (v ∷ vs)))

behind_proxy-forged :
    (net : Net) (proxies : List (Option net.Cidr)) (peer : net.Ip) (r : Origin) (f : Text)
    (fs : List Text) (v : Text) (vs : List Text)
    → r.forwarded ≡ v ∷ vs
    → Address.in_any net proxies peer ≡ true
    → Address.in_any net proxies (Address.behind_proxy net proxies peer r) ≡ false
    → Address.behind_proxy net proxies peer (record r { forwarded = (f ∷ fs) ++ (v ∷ vs) })
      ≡ Address.behind_proxy net proxies peer r
unfolding Address.behind_proxy
behind_proxy-forged net proxies peer r f fs v vs same known stop =
    let read : net.Ip =
      Address.walk net proxies peer (reverse (split 44 (join 44 (v ∷ vs)))) peer in
    let e : Address.behind_proxy net proxies peer r ≡ read = rw same refl in
    ap (λ hops. Address.walk net proxies peer hops peer) (hops-append f fs v vs)
    ∙ walk-append net proxies peer (reverse (split 44 (join 44 (v ∷ vs))))
        (reverse (split 44 (join 44 (f ∷ fs)))) peer known
        (ap (Address.in_any net proxies) (sym e) ∙ stop)
    ∙ sym e

-- The values of X-Forwarded-For that a client puts before those of the proxies change nothing: where
-- the address that decides on access, read without them, is no trusted proxy's, it stays the same.
pub forged_hops_ignored :
    (net : Net) (trust : Bool) (proxies : List (Option net.Cidr)) (r : Origin) (f : Text)
    (fs : List Text) (v : Text) (vs : List Text) (ip : net.Ip)
    → r.forwarded ≡ v ∷ vs
    → Address.security_client_ip net trust proxies r ≡ some ip
    → Address.in_any net proxies ip ≡ false
    → Address.security_client_ip net trust proxies (record r { forwarded = (f ∷ fs) ++ (v ∷ vs) })
      ≡ some ip
unfolding Address.security_client_ip
forged_hops_ignored net trust proxies r f fs v vs ip same h stop =
    elim (Option-cases (net.parse_ip (trim_space (Address.host_of net r.remote_addr)))) [
      | inl bad ↦ absurd (ground (arith, h, bad))
      | inr (peer, good) ↦ elim (Bool-cases (not trust || not (Address.in_any net proxies peer))) [
        | inl direct ↦ ground (arith, h, good, direct)
        | inr proxied ↦
            let e : Address.behind_proxy net proxies peer r ≡ ip =
              ground (arith, h, good, proxied) in
            ground (
              arith,
              good,
              proxied,
              e,
              behind_proxy-forged net proxies peer r f fs v vs same (ground (arith, proxied))
                  (ap (Address.in_any net proxies) e ∙ stop),
            )
      ]
    ]
