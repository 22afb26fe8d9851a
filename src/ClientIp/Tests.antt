-- ===== src/ClientIp/Tests.antt =====
-- Addresses that are texts: those of one letter, of which `t` is trusted.
use gwf.Common.{
  String, refl, none, some, arith, eq_iff, ◌≡◌, ◌||◌, ◌∷◌, ◌==◌, [], if◌then◌else◌, String_eq, ℕ_eq,
}
use gwf.ClientIp.{
  Net, Request, is_space, trim_left, trim_right, trim_space, cons_head, split_commas, any_contains,
  is_trusted, stop_at, or_else, walk, client_ip,
}
use gwf.ClientIp.Unforged.{client_ip_unforged}

abbrev letters : Net
letters = record {
  Addr = String;
  Prefix = String;
  parse_addr = λ s. if s == "t" || s == "u" || s == "v" then some s else none;
  unmap = λ ip. ip;
  addr_string = λ ip. ip;
  parse_prefix = λ s. some s;
  masked = λ p. p;
  prefix_contains = λ p ip. p == ip;
  host_of = λ s. some s;
}

abbrev request : String → Request
request chain = record { remote_addr = "t"; x_forwarded_for = chain; x_real_ip = "" }

split_example : split_commas "v, u,t" ≡ "v" ∷ " u" ∷ "t" ∷ []
unfolding split_commas cons_head
split_example = refl

-- The caller wrote `v`; a proxy recorded `u`.
client_ip_unforged_example :
    client_ip letters ("t" ∷ []) (request "v, u,t") ≡ client_ip letters ("t" ∷ []) (request " u,t")
unfolding walk split_commas cons_head stop_at or_else trim_space trim_left trim_right is_space
    is_trusted any_contains
client_ip_unforged_example =
    client_ip_unforged letters ("t" ∷ []) (request "") "v" " u,t" "u"
      (λ h. ground (arith, (eq_iff " u,t" "").1 h)) refl
