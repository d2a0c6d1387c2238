-- ===== src/Log/Newest.antt =====
-- What the log ring gives back of everything that was logged.
use native.Mathlib.Nat.{mod-add-mod, mod-eq_of_lt, mod-lt, mod-le, add-mod_right, mod_self}
use gdo_blaq_homekit.Prelude.{
  ℕ, ◌+◌, ◌-◌, ◌%◌, ◌≤◌, ◌<◌, ◌≡◌, refl, sym, ap, ◌∙◌, Bool, true, false, if◌then◌else◌, ltb, leb,
  min, ◌≢◌, Bool-cases, inl, inr, dec_lt, List, [], ◌∷◌, ◌++◌, append_assoc, append-nil, Option,
  none, some, length, take, drop, set, length-append, length-set, arith,
}
use gdo_blaq_homekit.Prelude.Ring.{last, Holds, Holds-write, copy-Holds, copy_round}
use gdo_blaq_homekit.Log.{
  Log, boot, init, put, put_all, line_max, ring_vprintf, used, log_used, log_read,
}

-- The ring stands where the bytes written so far have brought it.
pub record Ring (written : List ℕ) (s : Log) : Type 0 where
  pub is_ready : s.ready ≡ true
  pub has_room : 0 < s.capacity
  pub full_length : length s.buf ≡ s.capacity
  pub position : s.write_pos ≡ length written % s.capacity
  pub unwrapped : s.wrapped ≡ false → length written < s.capacity
  pub wraps : s.wrapped ≡ true → s.capacity ≤ length written
  pub holds : Holds 0 s.buf s.capacity written

next_place :
    (n cap : ℕ) → 0 < cap → (n + 1) % cap ≡ (if leb cap (n % cap + 1) then 0 else n % cap + 1)
next_place n cap pos = elim (dec_lt (n % cap + 1) cap) [
  | yes k ↦ sym (mod-add-mod n cap 1) ∙ mod-eq_of_lt k ∙ ground (arith, k)
  | no k ↦
      (let e : n % cap + 1 ≡ cap = omega (arith, k, mod-lt n pos) in
        sym (mod-add-mod n cap 1) ∙ ap (λ (x : ℕ). x % cap) e ∙ mod_self cap ∙ ground (arith, k))
]

module _ (c : ℕ) (written : List ℕ) (s : Log) (r : Ring written s) where
  put-room : (put c s).capacity ≡ s.capacity
  unfolding put
  put-room = ground arith

  put-ready : (put c s).ready ≡ true
  unfolding put
  put-ready = ground (arith, r.is_ready)

  put-buf : (put c s).buf ≡ set s.buf s.write_pos c
  unfolding put
  put-buf = ground arith

  put-position : (put c s).write_pos ≡ (length written + 1) % s.capacity
  unfolding put
  put-position = ground (arith, r.position, next_place (length written) s.capacity r.has_room)

  put-unwrapped : (put c s).wrapped ≡ false → length written + 1 < s.capacity
  unfolding put
  put-unwrapped h =
      ground (arith, h, r.position, r.unwrapped, mod-eq_of_lt {n = length written} {m = s.capacity})

  put-wraps : (put c s).wrapped ≡ true → s.capacity ≤ length written + 1
  unfolding put
  put-wraps h = ground (arith, h, r.position, r.wraps, mod-le (length written) s.capacity)

  put-Holds : Holds 0 (put c s).buf s.capacity (written ++ c ∷ [])
  put-Holds =
      rw (put-buf, r.position)
        (Holds-write 0 s.buf s.capacity written c r.has_room r.full_length r.holds)

  put-Ring : Ring (written ++ c ∷ []) (put c s)
  put-Ring =
      let n = length-append written (c ∷ []) in
      record {
        is_ready = put-ready;
        has_room = omega (arith, r.has_room, put-room);
        full_length =
            ap length put-buf ∙ length-set s.buf s.write_pos c ∙ r.full_length ∙ sym put-room;
        position = rw (put-room, n) put-position;
        unwrapped = λ h. omega (arith, put-unwrapped h, put-room, n);
        wraps = λ h. omega (arith, put-wraps h, put-room, n);
        holds = rw put-room put-Holds;
      }

put_all-Ring :
    (line written : List ℕ) (s : Log) → Ring written s → Ring (written ++ line) (put_all line s)
unfolding put_all
put_all-Ring [] written s r = rw (append-nil written) r
put_all-Ring (c ∷ line) written s r =
    rw (sym (append_assoc written (c ∷ []) line))
      (put_all-Ring line (written ++ c ∷ []) (put c s) (put-Ring c written s r))

-- Where the reading loop starts, up to whole rounds.
start_round :
    (written : List ℕ) (s : Log) (want : ℕ)
    → Ring written s
    → want ≤ used s
    → ((if s.wrapped then s.write_pos else 0) + (used s - want)) % s.capacity
      ≡ (length written - want) % s.capacity
start_round written s want r le = elim (Bool-cases s.wrapped) [
  | inl w ↦
      (let e : want ≤ s.capacity = ground (arith, w, le) in
        rw (w, r.position)
          (mod-add-mod (length written) s.capacity (s.capacity - want)
            ∙ ap (λ (x : ℕ). x % s.capacity) (omega (arith, r.wraps w, e))
            ∙ add-mod_right (length written - want) s.capacity))
  | inr w ↦
      (let e : s.write_pos ≡ length written = r.position ∙ mod-eq_of_lt (r.unwrapped w) in
        rw (w, e) (ap (λ (x : ℕ). x % s.capacity) (omega arith)))
]

used-Ring : (written : List ℕ) (s : Log) → Ring written s → used s ≡ min s.capacity (length written)
used-Ring written s r = elim (Bool-cases s.wrapped) [
  | inl w ↦ ground (arith, w, r.wraps)
  | inr w ↦ ground (arith, w, r.position, r.unwrapped w, mod-eq_of_lt (r.unwrapped w))
]

read-Ring :
    (written : List ℕ) (s : Log) (n : ℕ)
    → Ring written s
    → n ≢ 0
    → log_read n true s ≡ last (min n s.capacity) written
unfolding log_read
read-Ring written s n r h =
    let u = used-Ring written s r in
    let want = if ltb (used s) n then used s else n in
    let w : want ≡ min n (min s.capacity (length written)) = ground (arith, u) in
    let k : length written - want ≡ length written - min n s.capacity = omega (arith, w) in
    let from = start_round written s want r (omega (arith, w, u)) in
    let read =
      copy_round 0 s.buf s.capacity ((if s.wrapped then s.write_pos else 0) + (used s - want))
        (length written - want) want from
      ∙ copy-Holds 0 s.buf s.capacity written (length written - want) want r.holds
          (omega (arith, w)) (omega (arith, w))
      ∙ ap (λ (x : ℕ). drop x written) k in
    ground (arith, r.is_ready, read)

-- One call of the logger: the text that it formats, and whether it had the mutex.
abbrev pub Call : Type 0
Call = Option (List ℕ) × Bool

unfoldable pub log_all : List Call → Log → Log
log_all [] s = s
log_all ((text, taken) ∷ calls) s = log_all calls (ring_vprintf text taken s)

-- The bytes that a run of calls logs: at most 255 of each text, and none without the mutex.
abbrev pub logged : List Call → List ℕ
logged [] = []
logged ((none, taken) ∷ calls) = logged calls
logged ((some text, taken) ∷ calls) = (if taken then take line_max text else []) ++ logged calls

vprintf-Ring :
    (text : List ℕ) (taken : Bool) (written : List ℕ) (s : Log)
    → Ring written s
    → Ring
        (written ++ (if taken then take line_max text else []))
        (ring_vprintf (some text) taken s)
unfolding ring_vprintf
vprintf-Ring text true written s r = simp r.is_ready (put_all-Ring (take line_max text) written s r)
vprintf-Ring text false written s r = simp (r.is_ready, append-nil written) r

log_all-Ring :
    (calls : List Call) (written : List ℕ) (s : Log)
    → Ring written s
    → Ring (written ++ logged calls) (log_all calls s)
unfolding log_all
log_all-Ring [] written s r = rw (append-nil written) r
log_all-Ring ((none, taken) ∷ calls) written s r =
    log_all-Ring calls written (ring_vprintf none taken s) (unfold ring_vprintf in r)
log_all-Ring ((some text, taken) ∷ calls) written s r =
    rw (sym (append_assoc written (if taken then take line_max text else []) (logged calls))) (
      log_all-Ring calls (written ++ (if taken then take line_max text else []))
        (ring_vprintf (some text) taken s) (vprintf-Ring text taken written s r))

init-Ring :
    (capacity : ℕ) (memory : List ℕ)
    → 0 < capacity
    → length memory ≡ capacity
    → Ring [] (init capacity true true memory boot)
unfolding init
init-Ring capacity memory pos full = record {
  is_ready = refl;
  has_room = pos;
  full_length = full;
  position = sym (mod-eq_of_lt pos);
  unwrapped = λ h. pos;
  wraps = λ h. ground (arith, h);
  holds = λ j lt. absurd (omega (arith, lt));
}

put_all-capacity : (line : List ℕ) (s : Log) → (put_all line s).capacity ≡ s.capacity
unfolding put_all put
put_all-capacity [] s = refl
put_all-capacity (c ∷ line) s = ground (arith, put_all-capacity line (put c s))

vprintf-capacity :
    (text : Option (List ℕ)) (taken : Bool) (s : Log)
    → (ring_vprintf text taken s).capacity ≡ s.capacity
unfolding ring_vprintf
vprintf-capacity none taken s = refl
vprintf-capacity (some text) taken s = ground (arith, put_all-capacity (take line_max text) s)

log_all-capacity : (calls : List Call) (s : Log) → (log_all calls s).capacity ≡ s.capacity
unfolding log_all
log_all-capacity [] s = refl
log_all-capacity ((text, taken) ∷ calls) s =
    log_all-capacity calls (ring_vprintf text taken s) ∙ vprintf-capacity text taken s

-- After any run of log calls on a ring of any positive capacity, a read with the mutex returns the
-- newest bytes logged, in order, as many as the ring and the reader's buffer hold, and the number
-- of bytes in use is that of all logged, or the capacity. Each call logs at most 255 bytes of its
-- text, and none if vsnprintf() fails or it does not get the mutex.
pub log_read-log_all :
    (calls : List Call) (capacity n : ℕ) (memory : List ℕ)
    → 0 < capacity
    → length memory ≡ capacity
    → n ≢ 0
    → let s = log_all calls (init capacity true true memory boot) in
      (log_read n true s ≡ last (min n capacity) (logged calls))
      × (log_used true s ≡ min capacity (length (logged calls)))
unfolding log_used init
log_read-log_all calls capacity n memory pos full h =
    let s = log_all calls (init capacity true true memory boot) in
    let r =
      log_all-Ring calls [] (init capacity true true memory boot)
        (init-Ring capacity memory pos full) in
    let e : s.capacity ≡ capacity = log_all-capacity calls (init capacity true true memory boot) in
    (
      read-Ring (logged calls) s n r h ∙ ap (λ (x : ℕ). last (min n x) (logged calls)) e,
      ground (arith, r.is_ready, e, used-Ring (logged calls) s r),
    )
