-- ===== src/Origin/Tests.antt =====
-- Tests and witnesses for the request origin.
use gdo_blaq_homekit.Prelude.{
  ℕ, ◌≡◌, ◌↔◌, ◌++◌, ◌&&◌, ◌==◌, refl, true, false, List, [], length, codes, arith,
}
use gdo_blaq_homekit.Origin.{
  separator, is_ipv4, quad_loop, host_len, name_len, index_of, ieq, host_is_local, after_sep,
  authority_len, matches_host, from_own_page,
}
use gdo_blaq_homekit.Origin.Quad.{fields, is_octet, all_octets, is_ipv4-fields}
use gdo_blaq_homekit.Origin.Part.{IsLocal, host_is_local-IsLocal, mdns}
use gdo_blaq_homekit.Origin.Page.{OwnPage, from_own_page-OwnPage, own_page-passes}

abbrev blaq : List ℕ
blaq = codes "blaQ.Local:80"

not_a_quad : is_ipv4 (codes "192.168.1.256") ≡ false
unfolding is_ipv4 quad_loop
not_a_quad = refl

public_name : host_is_local (codes "evil.example") ≡ false
unfolding host_is_local host_len name_len index_of is_ipv4 quad_loop ieq
public_name = refl

bracketed : host_is_local (codes "[fe80::1]:80") ≡ true
unfolding host_is_local host_len name_len index_of is_ipv4 quad_loop ieq
bracketed = refl

passes : from_own_page blaq (codes "http://BLAQ.local:80/") (codes "same-origin") ≡ true
unfolding from_own_page host_is_local host_len name_len index_of is_ipv4 quad_loop ieq matches_host
    after_sep authority_len
passes = refl

cross_site : from_own_page blaq (codes "http://evil.example") [] ≡ false
unfolding from_own_page host_is_local host_len name_len index_of is_ipv4 quad_loop ieq matches_host
    after_sep authority_len
cross_site = refl

is_ipv4-fields_at_input :
    let f = fields (codes "10.0.0.1") in
    is_ipv4 (codes "10.0.0.1") ≡ (is_octet f.0 && all_octets f.1 && length f.1 == 3)
is_ipv4-fields_at_input = is_ipv4-fields (codes "10.0.0.1")

host_is_local-IsLocal_example : (host_is_local blaq ≡ true) ↔ IsLocal blaq
host_is_local-IsLocal_example = host_is_local-IsLocal blaq

from_own_page-OwnPage_example : OwnPage blaq (codes "http://BLAQ.local:80/") (codes "same-origin")
from_own_page-OwnPage_example =
    from_own_page-OwnPage blaq (codes "http://BLAQ.local:80/") (codes "same-origin") passes

blaq-IsLocal : IsLocal blaq
unfolding host_len name_len index_of
blaq-IsLocal = mdns (codes "blaQ") (codes ".Local") refl (ground arith) refl

own_page-passes_at_input :
    (from_own_page blaq (codes "http" ++ separator ++ blaq) (codes "same-origin") ≡ true)
    × (from_own_page blaq (codes "http" ++ separator ++ blaq) [] ≡ true)
own_page-passes_at_input =
    own_page-passes (codes "http") blaq (omega arith) blaq-IsLocal (ground arith) (omega arith)
