-- ===== src/Rolling/Tests.antt =====
-- Tests of the saved rolling code, on a flash that holds the three keys and always works.
use gdo_blaq_homekit.Prelude.{
  ℕ, ◌<◌, ◌≡◌, refl, inr, true, false, List, [], ◌∷◌, Option, none, some, arith, ◌==◌,
}
use gdo_blaq_homekit.Opener.{esp_ok}
use gdo_blaq_homekit.Rolling.{
  Key, key_code, protocol, client_id, rolling_code, Nvs, Codes, set_protocol, set_client_id,
  set_rolling_code, load_persisted, save_synced, save_protocol, save_rolling, and_then, seed,
  pinnable, pinned_by, is_v2_saved,
}
use gdo_blaq_homekit.Rolling.Laws.{IsLawful, IsEnum, IsWritable}
use gdo_blaq_homekit.Rolling.Kept.{
  Synced, save_all, v2-sticky, pinned-IsReported, save-load_roundtrip, IsReported,
}

record Cells : Type 0 where
  client : Option ℕ
  code : Option ℕ
  protocol_cell : Option ℕ

abbrev cell : Key → Cells → Option ℕ
cell client_id s = s.client
cell rolling_code s = s.code
cell protocol s = s.protocol_cell

abbrev put : Key → ℕ → Cells → Cells
put client_id v s = record s { client = some v }
put rolling_code v s = record s { code = some v }
put protocol v s = record s { protocol_cell = some v }

abbrev cells : Nvs Cells
cells = record {
  open_read = λ s. esp_ok;
  open_write = λ s. esp_ok;
  get = cell;
  set = λ k v s. (put k v s, esp_ok);
  commit = λ s. (s, esp_ok);
  restart = λ s. s;
}

abbrev codes_of_gdolib : Codes
codes_of_gdolib = record { v2 = 3; max = 4 }

put-get : (k : Key) (v : ℕ) (s : Cells) → cell k (put k v s) ≡ some v
put-get client_id v s = refl
put-get rolling_code v s = refl
put-get protocol v s = refl

put-other :
    (k l : Key) (v : ℕ) (s : Cells)
    → (key_code k == key_code l) ≡ false
    → cell l (put k v s) ≡ cell l s
put-other client_id client_id v s h = cc
put-other client_id rolling_code v s h = refl
put-other client_id protocol v s h = refl
put-other rolling_code client_id v s h = refl
put-other rolling_code rolling_code v s h = cc
put-other rolling_code protocol v s h = refl
put-other protocol client_id v s h = refl
put-other protocol rolling_code v s h = refl
put-other protocol protocol v s h = cc

cells-IsLawful : IsLawful cells
cells-IsLawful = record {
  set_ok = λ k v s h. put-get k v s;
  set_any = λ k v s. inr (put-get k v s);
  set_other = put-other;
  commit_get = λ k s. refl;
  restart_get = λ k s h. refl;
  restart_open = λ s h. refl;
}

cells-IsWritable : IsWritable cells
cells-IsWritable = record { opens = λ s. refl; sets = λ k v s. refl; commits = λ s. refl }

abbrev erased : Cells
erased = record { client = none; code = none; protocol_cell = none }

abbrev noise : List Synced
noise = record { protocol = 1; id = 0; code = 0 } ∷ record { protocol = 3; id = 7; code = 21 } ∷ []

enum : IsEnum codes_of_gdolib
enum = omega arith

v2-sticky_example :
    cell protocol (save_all cells codes_of_gdolib noise (put protocol 3 erased)) ≡ some 3
v2-sticky_example =
    v2-sticky cells codes_of_gdolib cells-IsLawful enum noise (put protocol 3 erased) refl

save-load_roundtrip_example :
    load_persisted cells codes_of_gdolib esp_ok
      (save_synced cells codes_of_gdolib 3 1_638 763 erased)
    ≡ record {
      calls = set_protocol 3 ∷ set_client_id 1_638 ∷ set_rolling_code 763 ∷ [];
      pinned = true;
    }
save-load_roundtrip_example =
    save-load_roundtrip cells codes_of_gdolib cells-IsLawful cells-IsWritable enum 1_638 763 erased
      esp_ok

noise_pins :
    (load_persisted cells codes_of_gdolib esp_ok
      (save_all cells codes_of_gdolib noise erased)).pinned
    ≡ true
unfolding load_persisted pinned_by pinnable save_all save_synced save_rolling save_protocol and_then
    is_v2_saved
noise_pins = refl

pinned-IsReported_at_input : (p : ℕ) × (0 < p) × (p < 4) × IsReported p noise
pinned-IsReported_at_input =
    pinned-IsReported cells codes_of_gdolib cells-IsLawful noise erased esp_ok refl noise_pins

nothing_saved :
    load_persisted cells codes_of_gdolib esp_ok erased ≡ record { calls = []; pinned = false }
unfolding load_persisted seed pinnable pinned_by
nothing_saved = refl
