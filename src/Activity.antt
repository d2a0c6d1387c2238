-- ===== src/Activity.antt =====
-- main/activity_history.cpp: the ring of the newest events, shown on the diagnostics page.
pub mod Newest
pub mod Tests
use gdo_blaq_homekit.Prelude.{
  ℕ, ◌+◌, ◌-◌, ◌%◌, ◌^◌, ◌==◌, Bool, true, false, not, ◌&&◌, ◌||◌, if◌then◌else◌, ltb, leb, List,
  [], ◌∷◌, length, take, replicate, set, get_or, bytes_eq,
}
use gdo_blaq_homekit.Prelude.Ring.{copy}
use gdo_blaq_homekit.Schedule.{min_valid_epoch}

-- `activity_entry_t`. Texts are the bytes before the NUL.
pub record Entry : Type 0 where
  pub id : ℕ
  pub uptime_ms : ℕ
  pub unix_time : ℕ
  pub source : List ℕ
  pub message : List ℕ

-- ACTIVITY_HISTORY_CAPACITY.
abbrev pub capacity : ℕ
capacity = 32

-- A zeroed entry.
abbrev pub zeroed : Entry
zeroed = record { id = 0; uptime_ms = 0; unix_time = 0; source = []; message = [] }

-- The static variables.
pub record History : Type 0 where
  pub entries : List Entry
  pub next : ℕ
  pub count : ℕ
  pub sequence : ℕ

abbrev pub boot : History
boot = record { entries = replicate capacity zeroed; next = 0; count = 0; sequence = 0 }

-- The entry that a call prepares; `snprintf` cuts a text to its array.
abbrev pub prepared : List ℕ → List ℕ → ℕ → ℕ → Entry
prepared source message uptime_ms wall = record {
  id = 0;
  uptime_ms = uptime_ms;
  unix_time = if leb min_valid_epoch wall then wall else 0;
  source = take 23 source;
  message = take 127 message;
}

-- The two texts of two entries are the same.
abbrev pub same_texts : Entry → Entry → Bool
same_texts a b = bytes_eq a.source b.source && bytes_eq a.message b.message

-- `s_activity[previous]` repeats the new entry.
unfoldable pub repeats : Entry → History → Bool
repeats entry s =
    not (s.count == 0)
    && same_texts (get_or s.entries ((s.next + capacity - 1) % capacity) zeroed) entry

-- The entry takes its number and its place.
unfoldable pub store : Entry → History → History
store entry s = record {
  entries = set s.entries s.next (record entry { id = (s.sequence + 1) % 2 ^ 32 });
  next = (s.next + 1) % capacity;
  count = if ltb s.count capacity then s.count + 1 else s.count;
  sequence = (s.sequence + 1) % 2 ^ 32;
}

-- `activity_record`; the pointers of its callers are not NULL. The two times are what
-- esp_timer_get_time() / 1000 and time() give.
unfoldable pub activity_record : List ℕ → List ℕ → ℕ → ℕ → History → History
activity_record source [] uptime_ms wall s = s
activity_record source (c ∷ message) uptime_ms wall s =
    let entry = prepared source (c ∷ message) uptime_ms wall in
    if repeats entry s then s else store entry s

-- `activity_read`: the entries that it copies; `out` is not NULL.
unfoldable pub activity_read : ℕ → History → List Entry
activity_read out_capacity s =
    if out_capacity == 0
    then []
    else (let n = if ltb out_capacity s.count then out_capacity else s.count in
        copy s.entries capacity ((s.next + capacity - n) % capacity) n zeroed)
