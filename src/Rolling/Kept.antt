-- ===== src/Rolling/Kept.antt =====
-- What is saved after a sync, over later syncs and a restart.
use gdo_blaq_homekit.Prelude.{
  ℕ, ◌<◌, ◌≡◌, ◌⊎◌, inl, true, false, List, [], ◌∷◌, Option, none, some, arith, refl, ap, ◌∙◌,
  lt→ltb, ◌%◌, not, ◌&&◌, ◌==◌,
}
use gdo_blaq_homekit.Opener.{Esp, esp_ok, is_ok}
use gdo_blaq_homekit.Rolling.{
  protocol, client_id, rolling_code, Nvs, Codes, and_then, set_protocol, set_client_id,
  set_rolling_code, seed, pinnable, pinned_by, load_persisted, save_rolling, save_protocol,
  save_synced, is_v2_saved,
}
use gdo_blaq_homekit.Rolling.Laws.{IsLawful, IsEnum, IsWritable}

-- A report of a sync: its protocol, client id and code.
pub record Synced : Type 0 where
  pub protocol : ℕ
  pub id : ℕ
  pub code : ℕ

-- What is saved over the syncs of one boot.
unfoldable pub save_all : {S : Type 0} → Nvs S → Codes → List Synced → S → S
save_all nvs c [] s = s
save_all nvs c (r ∷ rs) s = save_all nvs c rs (save_synced nvs c r.protocol r.id r.code s)

module _ {S : Type 0} (nvs : Nvs S) (lawful : IsLawful nvs) where
  save_rolling-protocol :
      (id code : ℕ) (s : S) → nvs.get protocol (save_rolling nvs id code s) ≡ nvs.get protocol s
  unfolding save_rolling and_then
  save_rolling-protocol id code s =
      let t = (nvs.set client_id id s).0 in
      let u = (nvs.set rolling_code code t).0 in
      ground (
        arith,
        lawful.set_other client_id protocol id s refl,
        lawful.set_other rolling_code protocol code t refl,
        lawful.commit_get protocol u,
      )

  save_protocol-protocol :
      (c : Codes) (p : ℕ) (s : S)
      → (nvs.get protocol (save_protocol nvs c p s) ≡ nvs.get protocol s)
        ⊎ (nvs.get protocol (save_protocol nvs c p s) ≡ some (p % 256))
  unfolding save_protocol and_then
  save_protocol-protocol c p s =
      let t = (nvs.set protocol (p % 256) s).0 in
      ground (arith, lawful.set_any protocol (p % 256) s, lawful.commit_get protocol t)

  save_protocol-v2 :
      (c : Codes)
      → IsEnum c
      → (p : ℕ) (s : S) → nvs.get protocol s ≡ some c.v2
      → nvs.get protocol (save_protocol nvs c p s) ≡ some c.v2
  unfolding save_protocol and_then is_v2_saved
  save_protocol-v2 c en p s h =
      let t = (nvs.set protocol (p % 256) s).0 in
      ground (arith, h, lawful.set_any protocol (p % 256) s, lawful.commit_get protocol t, en)

  save_synced-v2 :
      (c : Codes)
      → IsEnum c
      → (p id code : ℕ) (s : S) → nvs.get protocol s ≡ some c.v2
      → nvs.get protocol (save_synced nvs c p id code s) ≡ some c.v2
  unfolding save_synced
  save_synced-v2 c en p id code s h =
      ground (
        arith,
        save_protocol-v2 c en p s h,
        save_rolling-protocol id code (save_protocol nvs c p s),
      )

  save_synced-protocol :
      (c : Codes) (p id code : ℕ) (s : S)
      → (nvs.get protocol (save_synced nvs c p id code s) ≡ nvs.get protocol s)
        ⊎ (nvs.get protocol (save_synced nvs c p id code s) ≡ some (p % 256))
  unfolding save_synced
  save_synced-protocol c p id code s =
      ground (
        arith,
        save_protocol-protocol c p s,
        save_rolling-protocol id code (save_protocol nvs c p s),
      )

-- A confirmed V2 is never overwritten: once the flash holds GDO_PROTOCOL_SEC_PLUS_V2, it holds it
-- after any number of syncs of any protocols, also where opening, writing or committing fails.
pub v2-sticky :
    {S : Type 0} (nvs : Nvs S) (c : Codes)
    → IsLawful nvs
    → IsEnum c
    → (rs : List Synced) (s : S) → nvs.get protocol s ≡ some c.v2
    → nvs.get protocol (save_all nvs c rs s) ≡ some c.v2
unfolding save_all
v2-sticky nvs c lawful en [] s h = h
v2-sticky nvs c lawful en (r ∷ rs) s h =
    v2-sticky nvs c lawful en rs (save_synced nvs c r.protocol r.id r.code s)
      (save_synced-v2 nvs lawful c en r.protocol r.id r.code s h)

-- Some report is of protocol `p`.
abbrev pub IsReported : ℕ → List Synced → Type 0
IsReported p [] = ⊥
IsReported p (r ∷ rs) = (r.protocol % 256 ≡ p) ⊎ IsReported p rs

saved-IsReported :
    {S : Type 0} (nvs : Nvs S) (c : Codes)
    → IsLawful nvs
    → (rs : List Synced) (s : S) (p : ℕ) → nvs.get protocol (save_all nvs c rs s) ≡ some p
    → (nvs.get protocol s ≡ some p) ⊎ IsReported p rs
unfolding save_all
saved-IsReported nvs c lawful [] s p h = inl h
saved-IsReported nvs c lawful (r ∷ rs) s p h = ground (
  arith,
  saved-IsReported nvs c lawful rs (save_synced nvs c r.protocol r.id r.code s) p h,
  save_synced-protocol nvs lawful c r.protocol r.id r.code s,
)

pinned-pinnable :
    (c : Codes) (o : Option ℕ) (e : Esp)
    → pinned_by (pinnable c o) e ≡ true
    → (p : ℕ) × (o ≡ some p) × (0 < p) × (p < c.max)
unfolding pinned_by pinnable
pinned-pinnable c none e h = ground (arith, h)
pinned-pinnable c (some p) e h = (p, refl, ground (arith, h), ground (arith, h))

-- A protocol is pinned only if a sync confirmed it: where the flash held no protocol before the
-- syncs and the next load pins one, it is a protocol between 1 and GDO_PROTOCOL_MAX - 1 that the
-- report of one of these syncs has, as the byte that is saved.
pub pinned-IsReported :
    {S : Type 0} (nvs : Nvs S) (c : Codes)
    → IsLawful nvs
    → (rs : List Synced) (s : S) (e : Esp) → nvs.get protocol s ≡ none
    → (load_persisted nvs c e (save_all nvs c rs s)).pinned ≡ true
    → (p : ℕ) × (0 < p) × (p < c.max) × IsReported p rs
unfolding load_persisted
pinned-IsReported nvs c lawful rs s e h pin =
    let u = save_all nvs c rs s in
    let pinned : pinned_by (pinnable c (nvs.get protocol u)) e ≡ true = ground (arith, pin) in
    let (p, found, pos, lt) = pinned-pinnable c (nvs.get protocol u) e pinned in
    (p, pos, lt, ground (arith, saved-IsReported nvs c lawful rs s p found, h))

module _ {S : Type 0} (nvs : Nvs S) (lawful : IsLawful nvs) (w : IsWritable nvs) where
  save_protocol-eq :
      (c : Codes) (p : ℕ) (s : S)
      → (not (p == c.v2) && is_v2_saved c (nvs.get protocol s)) ≡ false
      → save_protocol nvs c p s ≡ (nvs.commit (nvs.set protocol (p % 256) s).0).0
  unfolding save_protocol and_then
  save_protocol-eq c p s h = simp (h, w.opens, w.sets)

  save_rolling-eq :
      (id code : ℕ) (s : S)
      → save_rolling nvs id code s
        ≡ (nvs.commit (nvs.set rolling_code code (nvs.set client_id id s).0).0).0
  unfolding save_rolling and_then
  save_rolling-eq id code s = simp (w.opens, w.sets)

  -- What the flash holds after a restart that follows save_rolling.
  restarted :
      (id code : ℕ) (s : S)
      → let u = nvs.restart (save_rolling nvs id code s) in
        (nvs.open_read u ≡ esp_ok)
        × (nvs.get client_id u ≡ some id)
        × (nvs.get rolling_code u ≡ some code)
        × (nvs.get protocol u ≡ nvs.get protocol s)
  restarted id code s = rw (save_rolling-eq id code s) (
      let t = (nvs.set client_id id s).0 in
      let u = (nvs.set rolling_code code t).0 in
      let ok = w.commits u in
      (
        lawful.restart_open u ok,
        lawful.restart_get client_id u ok
            ∙ lawful.set_other rolling_code client_id code t refl
            ∙ lawful.set_ok client_id id s (w.sets client_id id s),
        lawful.restart_get rolling_code u ok
            ∙ lawful.set_ok rolling_code code t (w.sets rolling_code code t),
        lawful.restart_get protocol u ok
            ∙ lawful.set_other rolling_code protocol code t refl
            ∙ lawful.set_other client_id protocol id s refl,
      ))

  saved_protocol :
      (c : Codes) (p : ℕ) (s : S)
      → (not (p == c.v2) && is_v2_saved c (nvs.get protocol s)) ≡ false
      → p < 256
      → nvs.get protocol (save_protocol nvs c p s) ≡ some p
  saved_protocol c p s h lt = rw (save_protocol-eq c p s h) (
      let t = (nvs.set protocol (p % 256) s).0 in
      lawful.commit_get protocol t
      ∙ lawful.set_ok protocol (p % 256) s (w.sets protocol (p % 256) s)
      ∙ ap some (omega arith))

  save_synced-v2_eq :
      (c : Codes) (id code : ℕ) (s : S)
      → save_synced nvs c c.v2 id code s ≡ save_rolling nvs id code (save_protocol nvs c c.v2 s)
  unfolding save_synced
  save_synced-v2_eq c id code s = ground arith

load_found :
    {S : Type 0} (nvs : Nvs S) (c : Codes) (e : Esp) (u : S) {p id code : ℕ}
    → IsEnum c
    → nvs.open_read u ≡ esp_ok
    → nvs.get client_id u ≡ some id
    → nvs.get rolling_code u ≡ some code
    → nvs.get protocol u ≡ some p
    → 0 < p
    → p < c.max
    → load_persisted nvs c e u ≡ record {
      calls = set_protocol p ∷ set_client_id id ∷ set_rolling_code code ∷ [];
      pinned = is_ok e;
    }
unfolding load_persisted seed pinnable pinned_by
load_found nvs c e u en o hi hr hp pos lt = simp (o, hi, hr, hp, lt→ltb _ _ pos, lt→ltb _ _ lt)

-- A synced Security+ 2.0 opener is found again after a restart: where the flash takes what is saved,
-- the next start calls gdolib with GDO_PROTOCOL_SEC_PLUS_V2, the client id and the rolling code of
-- the report, in this order and with nothing else, whatever was saved before, and pins the protocol
-- exactly if gdolib takes it.
pub save-load_roundtrip :
    {S : Type 0} (nvs : Nvs S) (c : Codes)
    → IsLawful nvs
    → IsWritable nvs
    → IsEnum c
    → (id code : ℕ) (s : S) (e : Esp)
    → load_persisted nvs c e (nvs.restart (save_synced nvs c c.v2 id code s)) ≡ record {
      calls = set_protocol c.v2 ∷ set_client_id id ∷ set_rolling_code code ∷ [];
      pinned = is_ok e;
    }
save-load_roundtrip nvs c lawful w en id code s e =
    let t = save_protocol nvs c c.v2 s in
    let (o, hi, hr, hp) = restarted nvs lawful w id code t in
    let kept =
      saved_protocol nvs lawful w c c.v2 s (ground arith) (omega (arith, en.v2_lt, en.max_le)) in
    rw (save_synced-v2_eq nvs lawful w c id code s)
      (load_found nvs c e _ en o hi hr (hp ∙ kept) en.v2_pos en.v2_lt)
