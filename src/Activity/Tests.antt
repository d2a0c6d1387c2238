-- ===== src/Activity/Tests.antt =====
-- Tests and witnesses for the activity history.
use gdo_blaq_homekit.Prelude.{ℕ, ◌≡◌, refl, List, [], ◌∷◌, codes}
use gdo_blaq_homekit.Activity.{Entry, boot, repeats, store, activity_record, activity_read}
use gdo_blaq_homekit.Activity.Newest.{Call, record_all}

abbrev says : List ℕ → ℕ → Call
says message wall = record {
  source = codes "opener";
  message = message;
  uptime_ms = 1;
  wall = wall;
}

-- The second call repeats the first, and the third has nothing to say.
abbrev calls : List Call
calls =
    says (codes "Open") 5
    ∷ says (codes "Open") 6
    ∷ says [] 7
    ∷ says (codes "Closed") 1704067200
    ∷ []

abbrev unix_times : List Entry → List ℕ
unix_times [] = []
unix_times (e ∷ es) = e.unix_time ∷ unix_times es

drops_repeats : unix_times (activity_read 9 (record_all calls boot)) ≡ 0 ∷ 1704067200 ∷ []
unfolding activity_read record_all activity_record repeats store
drops_repeats = refl
