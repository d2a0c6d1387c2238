-- ===== src/Rolling/Laws.antt =====
-- What the code relies on of NVS, as ESP-IDF documents it.
use gdo_blaq_homekit.Prelude.{ℕ, ◌<◌, ◌≡◌, ◌⊎◌, false, some, ◌==◌}
use gdo_blaq_homekit.Opener.{esp_ok}
use gdo_blaq_homekit.Rolling.{Key, key_code, Nvs, Codes}

-- A value that was set is found, and only its key changes. A set that fails may still have
-- written. What was committed is found after a restart.
pub record IsLawful {S : Type 0} (nvs : Nvs S) : Type 0 where
  pub set_ok :
      (k : Key) (v : ℕ) (s : S) → (nvs.set k v s).1 ≡ esp_ok → nvs.get k (nvs.set k v s).0 ≡ some v
  pub set_any :
      (k : Key) (v : ℕ) (s : S)
      → (nvs.get k (nvs.set k v s).0 ≡ nvs.get k s) ⊎ (nvs.get k (nvs.set k v s).0 ≡ some v)
  pub set_other :
      (k l : Key) (v : ℕ) (s : S)
      → (key_code k == key_code l) ≡ false
      → nvs.get l (nvs.set k v s).0 ≡ nvs.get l s
  pub commit_get : (k : Key) (s : S) → nvs.get k (nvs.commit s).0 ≡ nvs.get k s
  pub restart_get :
      (k : Key) (s : S)
      → (nvs.commit s).1 ≡ esp_ok
      → nvs.get k (nvs.restart (nvs.commit s).0) ≡ nvs.get k s
  pub restart_open :
      (s : S) → (nvs.commit s).1 ≡ esp_ok → nvs.open_read (nvs.restart (nvs.commit s).0) ≡ esp_ok

-- GDO_PROTOCOL_SEC_PLUS_V2 is a protocol, and one fits a byte.
pub record IsEnum (c : Codes) : Type 0 where
  pub v2_pos : 0 < c.v2
  pub v2_lt : c.v2 < c.max
  pub max_le : c.max < 256

-- Every call that writes succeeds.
pub record IsWritable {S : Type 0} (nvs : Nvs S) : Type 0 where
  pub opens : (s : S) → nvs.open_write s ≡ esp_ok
  pub sets : (k : Key) (v : ℕ) (s : S) → (nvs.set k v s).1 ≡ esp_ok
  pub commits : (s : S) → (nvs.commit s).1 ≡ esp_ok
