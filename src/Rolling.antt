-- ===== src/Rolling.antt =====
-- main/gdo-blaq-homekit.cpp: the Security+ 2.0 rolling code and the protocol kept over restarts
-- (gdo_load_persisted_rolling_state, gdo_save_rolling_state, gdo_save_synced_protocol and what
-- GDO_CB_EVENT_SYNCED saves), and gdo_wait_for_identified_protocol. NVS and gdolib are no part of
-- the repository: NVS is the record `Nvs`, an answer of gdolib an argument. Log lines are left out.
pub mod Laws
pub mod Kept
pub mod Tests
use gdo_blaq_homekit.Prelude.{
  ℕ, ◌%◌, Bool, true, false, not, ◌&&◌, if◌then◌else◌, ◌==◌, ltb, List, [], ◌∷◌, ◌++◌, Option, none,
  some,
}
use gdo_blaq_homekit.Opener.{Esp, is_ok, Status, is_real}

-- The keys of the namespace "gdo_rolling".
pub data Key : Type 0 where
  client_id rolling_code protocol : Key

abbrev pub key_code : Key → ℕ
key_code client_id = 0
key_code rolling_code = 1
key_code protocol = 2

-- The namespace, in a flash whose states are `S`: nvs_open() in its two modes, nvs_get_u8() or
-- nvs_get_u32() (`none` for any error), nvs_set_u8() or nvs_set_u32(), nvs_commit(), and the state
-- that is found after a restart.
pub record Nvs (S : Type 0) : Type 0 where
  pub open_read : S → Esp
  pub open_write : S → Esp
  pub get : Key → S → Option ℕ
  pub set : Key → ℕ → S → S × Esp
  pub commit : S → S × Esp
  pub restart : S → S

-- The numbers of GDO_PROTOCOL_SEC_PLUS_V2 and GDO_PROTOCOL_MAX.
pub record Codes : Type 0 where
  pub v2 : ℕ
  pub max : ℕ

-- `commit_err == ESP_OK` chains: the next call is made after a success only.
unfoldable pub and_then : {S : Type 0} → S × Esp → (S → S × Esp) → S × Esp
and_then r f = if is_ok r.1 then f r.0 else r

-- A setter that gdolib is called with at the start.
pub data Seed : Type 0 where
  set_protocol set_client_id set_rolling_code : ℕ → Seed

-- The calls made, in order, and `s_protocol_pinned`.
pub record Loaded : Type 0 where
  pub calls : List Seed
  pub pinned : Bool

unfoldable pub seed : (ℕ → Seed) → Option ℕ → List Seed
seed f none = []
seed f (some n) = f n ∷ []

-- `have_protocol && protocol > 0 && protocol < GDO_PROTOCOL_MAX`.
unfoldable pub pinnable : Codes → Option ℕ → Option ℕ
pinnable c none = none
pinnable c (some p) = if ltb 0 p && ltb p c.max then some p else none

-- Pinned where gdo_set_protocol() was called and answered ESP_OK.
unfoldable pub pinned_by : Option ℕ → Esp → Bool
pinned_by none e = false
pinned_by (some p) e = is_ok e

-- `persisted == GDO_PROTOCOL_SEC_PLUS_V2`, where the key is found.
unfoldable pub is_v2_saved : Codes → Option ℕ → Bool
is_v2_saved c none = false
is_v2_saved c (some p) = p == c.v2

module _ {S : Type 0} (nvs : Nvs S) where
  -- `gdo_save_rolling_state`.
  unfoldable pub save_rolling : ℕ → ℕ → S → S
  unfolding and_then
  save_rolling id code s =
      if not (is_ok (nvs.open_write s))
      then s
      else (and_then (and_then (nvs.set client_id id s) (λ t. nvs.set rolling_code code t))
          (λ t. nvs.commit t)).0

module _ {S : Type 0} (nvs : Nvs S) (c : Codes) where
  -- `gdo_load_persisted_rolling_state`; `answer` is that of gdo_set_protocol().
  unfoldable pub load_persisted : Esp → S → Loaded
  load_persisted answer s =
      if not (is_ok (nvs.open_read s)) then record { calls = []; pinned = false } else record {
        calls =
            seed set_protocol (pinnable c (nvs.get protocol s))
            ++ seed set_client_id (nvs.get client_id s)
            ++ seed set_rolling_code (nvs.get rolling_code s);
        pinned = pinned_by (pinnable c (nvs.get protocol s)) answer;
      }

  -- `gdo_save_synced_protocol`.
  unfoldable pub save_protocol : ℕ → S → S
  unfolding and_then is_v2_saved
  save_protocol p s =
      if not (is_ok (nvs.open_write s))
      then s
      else if not (p == c.v2) && is_v2_saved c (nvs.get protocol s)
      then s
      else (and_then (nvs.set protocol (p % 256) s) (λ t. nvs.commit t)).0

  -- What GDO_CB_EVENT_SYNCED saves, for the protocol, the client id and the code of its report.
  unfoldable pub save_synced : ℕ → ℕ → ℕ → S → S
  save_synced p id code s =
      if p == c.v2 then save_rolling nvs id code (save_protocol p s) else save_protocol p s

-- What `gdo_wait_for_identified_protocol` reads: whether it is called with a `status` and the
-- semaphore exists, `s_gdo_protocol_identified` before and after the wait, whether
-- xSemaphoreTake() succeeds, and what gdo_get_status() answers.
pub record Wait : Type 0 where
  pub usable : Bool
  pub before : Bool
  pub taken : Bool
  pub after : Bool
  pub status : Option Status

unfoldable pub identified_status : Bool → Option Status → Bool
identified_status after none = false
identified_status after (some st) = after && is_real st.protocol

-- `gdo_wait_for_identified_protocol`, without what it leaves in `*status`.
unfoldable pub wait_for_identified : Wait → Bool
wait_for_identified w =
    if not w.usable
    then false
    else if not w.before && not w.taken
    then false
    else identified_status w.after w.status
