-- ===== src/ClientIp/Unforged.antt =====
-- What a caller writes at the left of the chain is not read where a trusted proxy has recorded an
-- address that is not trusted.
use Prim.Native.Char.{code}
use Prim.Native.String.{[] as empty, ◌∷◌ as cons, ◌++◌ as append}
use text.Mathlib.TextLemmas.{cons-append, nil-append, append-ne-nil_of_right_ne-nil}
use gwf.Common.{
  String, refl, inl, inr, false, Option, none, some, List, arith, eq_iff, Bool-cases, ◌≡◌, ◌≢◌, ◌∷◌,
  ◌++◌, ◌==◌, [], String_eq, ℕ_eq,
}
use gwf.ClientIp.{
  Net, Request, cons_head, split_commas, or_else, walk, from_headers, chain, believed, client_ip,
  peer_addr,
}

split-cons_head : (s : String) → (p : String) × (ps : List String) × (split_commas s ≡ p ∷ ps)
unfolding split_commas
split-cons_head empty = ("", [], refl)
split-cons_head (cons c s) =
    let (p, ps, e) = split-cons_head s in
    elim (Bool-cases (code c == 44)) [
      | inl comma ↦ ("", p ∷ ps, rw (comma, e) refl)
      | inr other ↦ (cons c p, ps, rw (other, e) (unfold cons_head in refl))
    ]

-- A text with a comma in the middle is split there.
split_commas-append :
    (a b : String) → split_commas (append a (append "," b)) ≡ split_commas a ++ split_commas b
unfolding split_commas
split_commas-append empty b =
    rw (nil-append (append "," b), cons-append "," "" b, nil-append b) refl
split_commas-append (cons c a) b =
    let (p, ps, e) = split-cons_head a in
    rw (cons-append c a (append "," b), split_commas-append a b, e)
      (elim (Bool-cases (code c == 44)) [
        | inl comma ↦ rw comma refl
        | inr other ↦ rw other (unfold cons_head in refl)
      ])

not_empty : (s : String) → s ≢ "" → (s == "") ≡ false
not_empty s h = ground (arith, eq_iff s "")

module _ (net : Net) where
  walk-append :
      (trusted : List net.Prefix) (far near : List String) (ip : net.Addr)
      → walk net trusted near ≡ some ip
      → walk net trusted (far ++ near) ≡ some ip
  unfolding walk or_else
  walk-append trusted [] near ip h = h
  walk-append trusted (part ∷ far) near ip h = rw (walk-append trusted far near ip h) refl

  chain-append :
      (trusted : List net.Prefix) (r : Request) (forged own : String) (ip : net.Addr)
      → own ≢ ""
      → walk net trusted (split_commas own) ≡ some ip
      → chain net trusted (record r { x_forwarded_for = append forged (append "," own) })
        ≡ chain net trusted (record r { x_forwarded_for = own })
  unfolding chain
  chain-append trusted r forged own ip some_own h =
      let full : (append forged (append "," own) == "") ≡ false =
        not_empty _
          (append-ne-nil_of_right_ne-nil forged (append-ne-nil_of_right_ne-nil "," some_own)) in
      let own_full : (own == "") ≡ false = not_empty own some_own in
      rw
        (
          full,
          own_full,
          split_commas-append forged own,
          walk-append trusted (split_commas forged) (split_commas own) ip h,
          h,
        )
        refl

  from_headers-same :
      (o : Option net.Addr) (r : Request) (a b peer : String)
      → from_headers net o (record r { x_forwarded_for = a }) peer
        ≡ from_headers net o (record r { x_forwarded_for = b }) peer
  unfolding from_headers
  from_headers-same none r a b peer = refl
  from_headers-same (some ip) r a b peer = refl

  believed-append :
      (trusted : List net.Prefix) (peer_ip : Option net.Addr) (r : Request)
      (forged own peer : String) (ip : net.Addr)
      → own ≢ ""
      → walk net trusted (split_commas own) ≡ some ip
      → believed net trusted peer_ip
          (record r { x_forwarded_for = append forged (append "," own) })
          peer
        ≡ believed net trusted peer_ip (record r { x_forwarded_for = own }) peer
  unfolding believed
  believed-append trusted none r forged own peer ip some_own h = refl
  believed-append trusted (some p) r forged own peer ip some_own h =
      rw
        (
          chain-append trusted r forged own ip some_own h,
          from_headers-same (chain net trusted (record r { x_forwarded_for = own })) r
              (append forged (append "," own)) own peer,
        )
        refl

  -- Whatever the caller writes into the header before what the proxies append, and a comma: where the
  -- part that the proxies wrote holds an address that is not trusted, the answer is the one that
  -- this part alone gives.
  pub client_ip_unforged :
      (trusted : List net.Prefix) (r : Request) (forged own : String) (ip : net.Addr)
      → own ≢ ""
      → walk net trusted (split_commas own) ≡ some ip
      → client_ip net trusted (record r { x_forwarded_for = append forged (append "," own) })
        ≡ client_ip net trusted (record r { x_forwarded_for = own })
  unfolding client_ip
  client_ip_unforged [] r forged own ip some_own h = unfold peer_addr in refl
  client_ip_unforged (p ∷ trusted) r forged own ip some_own h =
      unfold peer_addr in
      believed-append (p ∷ trusted) (net.parse_addr (peer_addr net r)) r forged own
        (peer_addr net r) ip some_own h
