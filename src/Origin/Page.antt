-- ===== src/Origin/Page.antt =====
-- Which requests come from the device's own page (request_from_own_page).
use gdo_blaq_homekit.Prelude.{
  ℕ, ◌-◌, ◌≡◌, ◌≢◌, ◌⊎◌, refl, Bool, true, false, inl, inr, not, ◌&&◌, ◌||◌, if◌then◌else◌, List,
  [], ◌∷◌, ◌++◌, length, get_or, codes, bytes_eq, arith,
}
use gdo_blaq_homekit.Origin.{separator, matches_host, is_empty, host_is_local, from_own_page}
use gdo_blaq_homekit.Origin.Local.{bytes_eq_sound}
use gdo_blaq_homekit.Origin.Part.{IsLocal, host_is_local-IsLocal}
use gdo_blaq_homekit.Origin.Named.{Names, NoColon, matches_host-Names, matches_host-own}

-- What a request shows that is let through.
pub record OwnPage (host origin site : List ℕ) : Type 0 where
  pub local : IsLocal host
  pub named : (origin ≡ []) ⊎ Names origin host
  pub fetched : (site ≡ []) ⊎ (site ≡ codes "same-origin") ⊎ (site ≡ codes "none")

is_empty-nil : (s : List ℕ) → is_empty s ≡ true → s ≡ []
is_empty-nil [] h = refl
is_empty-nil (c ∷ s) h = ground (arith, h)

passes :
    (l o m e a b : Bool)
    → (if not l then false else if not o && not m then false else e || a || b) ≡ true
    → (l ≡ true) × ((o ≡ true) ⊎ (m ≡ true)) × ((e ≡ true) ⊎ (a ≡ true) ⊎ (b ≡ true))
passes l o m e a b h = (ground (arith, h), ground (arith, h), ground (arith, h))

-- A request that is let through names a local host; its Origin, if it has one, is a scheme, `://` and
-- that same host and port (in any case, with or without a slash at the end); and its
-- Sec-Fetch-Site, if it has one, is `same-origin` or `none`.
pub from_own_page-OwnPage :
    (host origin site : List ℕ) → from_own_page host origin site ≡ true → OwnPage host origin site
unfolding from_own_page
from_own_page-OwnPage host origin site h =
    let same = codes "same-origin" in
    let alone = codes "none" in
    let (l, o, s) =
      passes (host_is_local host) (is_empty origin) (matches_host origin host) (is_empty site)
        (bytes_eq site same) (bytes_eq site alone) h in
    record {
      local = (host_is_local-IsLocal host).0 l;
      named = elim o [
        | inl e ↦ inl (is_empty-nil origin e)
        | inr m ↦ inr (matches_host-Names origin host m)
      ];
      fetched = elim s [
        | inl e ↦ inl (is_empty-nil site e)
        | inr (inl e) ↦ inr (inl (bytes_eq_sound site same e))
        | inr (inr e) ↦ inr (inr (bytes_eq_sound site alone e))
      ];
    }

-- The device's own page is let through: for a local host that does not end in a slash, the Origin
-- made of a scheme without a colon, `://` and the host, with the Sec-Fetch-Site `same-origin` or none.
pub own_page-passes :
    (scheme host : List ℕ)
    → NoColon scheme
    → IsLocal host
    → host ≢ []
    → get_or host (length host - 1) 0 ≢ b'/'
    → (from_own_page host (scheme ++ separator ++ host) (codes "same-origin") ≡ true)
      × (from_own_page host (scheme ++ separator ++ host) [] ≡ true)
unfolding from_own_page
own_page-passes scheme host hs l h k =
    let a = (host_is_local-IsLocal host).1 l in
    let b = matches_host-own scheme host hs h k in
    (rw (a, b) (ground arith), rw (a, b) (ground arith))
