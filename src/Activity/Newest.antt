-- ===== src/Activity/Newest.antt =====
-- What the history holds of all events.
use gdo_blaq_homekit.Prelude.{
  ℕ, ◌+◌, ◌-◌, ◌%◌, ◌^◌, ◌≡◌, not, ◌&&◌, if◌then◌else◌, ◌==◌, min, List, [], ◌∷◌, ◌++◌, length,
  get_or,
}
use gdo_blaq_homekit.Prelude.Ring.{Holds}
use gdo_blaq_homekit.Activity.{
  Entry, History, capacity, zeroed, prepared, same_texts, activity_record,
}

-- The last of a list of entries.
abbrev pub newest : List Entry → Entry
newest es = get_or es (length es - 1) zeroed

-- One call of activity_record().
pub record Call : Type 0 where
  pub source : List ℕ
  pub message : List ℕ
  pub uptime_ms : ℕ
  pub wall : ℕ

-- The whole history as a list, as one call extends it: an empty message and a repetition of the
-- newest texts add nothing, and numbers count up from 1.
abbrev pub extend : List ℕ → List ℕ → ℕ → ℕ → List Entry → List Entry
extend source [] uptime_ms wall es = es
extend source (c ∷ message) uptime_ms wall es =
    let e = prepared source (c ∷ message) uptime_ms wall in
    if not (length es == 0) && same_texts (newest es) e
    then es
    else es ++ record e { id = (length es + 1) % 2 ^ 32 } ∷ []

abbrev pub all_events : List Call → List Entry → List Entry
all_events [] es = es
all_events (c ∷ cs) es = all_events cs (extend c.source c.message c.uptime_ms c.wall es)

unfoldable pub record_all : List Call → History → History
record_all [] s = s
record_all (c ∷ cs) s = record_all cs (activity_record c.source c.message c.uptime_ms c.wall s)

-- The ring stands where the entries stored so far have brought it.
pub record Ring (es : List Entry) (s : History) : Type 0 where
  pub full_length : length s.entries ≡ capacity
  pub position : s.next ≡ length es % capacity
  pub filled : s.count ≡ min capacity (length es)
  pub numbered : s.sequence ≡ length es % 2 ^ 32
  pub holds : Holds zeroed s.entries capacity es
