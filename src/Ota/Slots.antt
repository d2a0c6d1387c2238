-- ===== src/Ota/Slots.antt =====
-- Which slots are blocked, after any requests.
use gdo_blaq_homekit.Prelude.{
  ℕ, zero, suc, ◌+◌, ◌≡◌, take, inl, inr, refl, Bool, true, false, Bool-cases, not, ◌||◌,
  if◌then◌else◌, ◌==◌, ==_iff, ltb, List, [], ◌∷◌, Option, none, some, arith,
}
use gdo_blaq_homekit.Prelude.Int.{ℤ, pos, negsuc}
use gdo_blaq_homekit.Opener.{Esp, is_ok}
use gdo_blaq_homekit.Admin.{Response, is_accepted}
use gdo_blaq_homekit.Control.Settings.{Write, write_result}
use gdo_blaq_homekit.Ota.{
  FlashCall, begin, set_boot, end, Ota, Answer, done, refused, length_required, conflict, too_large,
  bad_request, server_error, Image, receive_loop, slot_eligible, block_slot, clear_pending, Upload,
  write_image, write_blocked, start_upload, firmware_receive, firmware_update, confirm_slot,
  confirm_expiry_ms, firmware_confirm, firmware_cancel, Rollback, rollback_to, firmware_rollback,
}
use gdo_blaq_homekit.Ota.Whole.{IsWhole, receive_loop-IsWhole}

-- A slot was erased.
abbrev pub erased : ℕ → List FlashCall → Bool
erased slot [] = false
erased slot (begin k ∷ calls) = slot == k || erased slot calls
erased slot (set_boot k ∷ calls) = erased slot calls
erased slot (end i ∷ calls) = erased slot calls

-- The last image that was accepted, unless an erase came after it.
abbrev pub last_image : List FlashCall → Option Image
last_image [] = none
last_image (begin k ∷ calls) = none
last_image (set_boot k ∷ calls) = last_image calls
last_image (end i ∷ calls) = some i

-- What is pending is the last image, whole, and its time is the one that is kept.
abbrev pub HasImage : Ota → Type 0
HasImage s =
    (slot : ℕ)
    → s.pending_partition ≡ some slot
    → (i : Image) × (last_image s.trace ≡ some i)
      × (i.slot ≡ slot)
      × (i.ended ≡ s.pending_since_ms)
      × IsWhole i.size i.pieces

-- Every slot that was erased is blocked, and what is pending is in an erased slot.
pub record Safe (s : Ota) : Type 0 where
  pub blocked : (slot : ℕ) → erased slot s.trace ≡ true → s.flags slot ≡ some 1
  pub pending : (slot : ℕ) → s.pending_partition ≡ some slot → erased slot s.trace ≡ true
  pub image : HasImage s

choose :
    {B : Type 0} (b : Bool) (x y : Ota × B)
    → (b ≡ true → Safe x.0)
    → (b ≡ false → Safe y.0)
    → Safe (if b then x else y).0
choose true x y h k = h refl
choose false x y h k = k refl

pub block_slot-HasImage :
    (slot : ℕ) (b : Bool) (w : Write) (s : Ota) → HasImage s → HasImage (block_slot slot b w s).0
unfolding block_slot
block_slot-HasImage slot b w s h = elim (Bool-cases (is_ok (write_result w))) [
  | inl e ↦ rw e h
  | inr e ↦ rw e h
]

block_slot-Safe : (slot : ℕ) (w : Write) (s : Ota) → Safe s → Safe (block_slot slot true w s).0
unfolding block_slot
block_slot-Safe slot w s h = record {
  blocked = λ k e. ground (arith, h.blocked k, e);
  pending = λ k e. ground (arith, h.pending k, e);
  image = block_slot-HasImage slot true w s h.image;
}

blocked_flag :
    (slot : ℕ) (w : Write) (s : Ota)
    → (block_slot slot true w s).1 ≡ true
    → (block_slot slot true w s).0.flags slot ≡ some 1
unfolding block_slot
blocked_flag slot w s e = ground (arith, e)

-- The slot is erased, and nothing is pending.
cleared-Safe :
    (slot : ℕ) (s : Ota)
    → Safe s
    → s.flags slot ≡ some 1
    → Safe (record (clear_pending s) { upload_in_progress = false; trace = begin slot ∷ s.trace })
cleared-Safe slot s h f = record {
  blocked = λ k e. elim (Bool-cases (k == slot)) [
    | inl eq ↦
        (let same : k ≡ slot = (==_iff k slot).0 eq in ground (arith, same, f, h.blocked k, e, eq))
    | inr ne ↦ ground (arith, f, h.blocked k, e, ne)
  ];
  pending = λ k e. absurd (ground (arith, e));
  image = λ k e. absurd (ground (arith, e));
}

-- The state once esp_ota_end() has accepted an image.
abbrev image_accepted : ℕ → ℕ → Upload → Ota → Ota
image_accepted slot size u t = record t {
  upload_in_progress = false;
  pending_partition = some slot;
  pending_since_ms = u.now;
  pending_version = take 31 u.version;
  trace = end (record { slot = slot; ended = u.now; size = size; pieces = u.pieces }) ∷ t.trace;
}

accepted-Safe :
    (slot size : ℕ) (u : Upload) (s : Ota)
    → Safe s
    → s.flags slot ≡ some 1
    → IsWhole size u.pieces
    → Safe (
        image_accepted slot size u
          (record (clear_pending s) { upload_in_progress = true; trace = begin slot ∷ s.trace }))
accepted-Safe slot size u s h f w = record {
  blocked = (cleared-Safe slot s h f).blocked;
  pending = λ k e. ground (arith, e);
  image = λ k e. (
    record { slot = slot; ended = u.now; size = size; pieces = u.pieces },
    refl,
    ground (arith, e),
    refl,
    w,
  );
}

write_image-Safe :
    (slot size : ℕ) (u : Upload) (s : Ota)
    → Safe s
    → s.flags slot ≡ some 1
    → Safe (write_image slot size u s).0
unfolding write_image
write_image-Safe slot size u s h f =
    let t = record (clear_pending s) { upload_in_progress = true; trace = begin slot ∷ s.trace } in
    let stopped : Safe (record t { upload_in_progress = false }) = cleared-Safe slot s h f in
    let refused_image : Ota × Answer = (record t { upload_in_progress = false }, bad_request) in
    let accepted_image : Ota × Answer = (image_accepted slot size u t, done) in
    choose (not (is_ok u.begun)) (record t { upload_in_progress = false }, server_error)
      (if not (receive_loop size u.pieces)
        then refused_image
        else if not (is_ok u.ended)
        then refused_image
        else accepted_image)
      (λ b. stopped)
      (λ b.
        choose (not (receive_loop size u.pieces)) refused_image
          (if not (is_ok u.ended) then refused_image else accepted_image) (λ c. stopped)
          (λ c.
            choose (not (is_ok u.ended)) refused_image accepted_image (λ d. stopped)
              (λ d.
                accepted-Safe slot size u s h f
                  (receive_loop-IsWhole size u.pieces (ground (arith, c))))))

write_blocked-Safe :
    (slot size : ℕ) (u : Upload) (r : Ota × Bool)
    → Safe r.0
    → (r.1 ≡ true → r.0.flags slot ≡ some 1)
    → Safe (write_blocked slot size u r).0
unfolding write_blocked
write_blocked-Safe slot size u (s, true) h f = write_image-Safe slot size u s h (f refl)
write_blocked-Safe slot size u (s, false) h f = h

either : (b : Bool) (x y : Ota × Answer) → Safe x.0 → Safe y.0 → Safe (if b then x else y).0
either b x y h k = choose b x y (λ e. h) (λ e. k)

start_upload-Safe :
    (target : Option (ℕ × ℕ)) (size : ℕ) (u : Upload) (s : Ota)
    → Safe s
    → Safe (start_upload target size u s).0
unfolding start_upload
start_upload-Safe none size u s h = h
start_upload-Safe (some (slot, room)) size u s h =
    let go = write_blocked slot size u (block_slot slot true u.blocked s) in
    either (ltb room size) (s, too_large) (if not u.allocated then (s, server_error) else go) h
      (either (not u.allocated) (s, server_error) go h
        (write_blocked-Safe slot size u (block_slot slot true u.blocked s)
          (block_slot-Safe slot u.blocked s h) (blocked_flag slot u.blocked s)))

firmware_update-Safe :
    (a : Response) (size : ℤ) (u : Upload) (s : Ota) → Safe s → Safe (firmware_update a size u s).0
unfolding firmware_update firmware_receive
firmware_update-Safe a (pos zero) u s h =
    either (is_accepted a) (s, length_required) (s, refused) h h
firmware_update-Safe a (negsuc n) u s h =
    either (is_accepted a) (s, length_required) (s, refused) h h
firmware_update-Safe a (pos (suc n)) u s h =
    let go = start_upload u.target (suc n) u s in
    either (is_accepted a) (if s.upload_in_progress then (s, conflict) else go) (s, refused)
      (either s.upload_in_progress (s, conflict) go h (start_upload-Safe u.target (suc n) u s h)) h

clear-Safe : (s : Ota) → Safe s → Safe (clear_pending s)
clear-Safe s h = record {
  blocked = h.blocked;
  pending = λ k e. ground (arith, e);
  image = λ k e. absurd (ground (arith, e));
}

boot-Safe : (slot : ℕ) (s : Ota) → Safe s → Safe (record s { trace = set_boot slot ∷ s.trace })
boot-Safe slot s h = record { blocked = h.blocked; pending = h.pending; image = h.image }

confirm_slot-Safe :
    (p : Option ℕ) (now : ℕ) (set : Esp) (s : Ota) → Safe s → Safe (confirm_slot p now set s).0
unfolding confirm_slot
confirm_slot-Safe none now set s h = h
confirm_slot-Safe (some slot) now set s h =
    let booted = record (clear_pending s) { trace = set_boot slot ∷ s.trace } in
    either (ltb (s.pending_since_ms + confirm_expiry_ms) now) (clear_pending s, bad_request)
      (if is_ok set then (booted, done) else (s, server_error)) (clear-Safe s h)
      (either (is_ok set) (booted, done) (s, server_error)
        (boot-Safe slot (clear_pending s) (clear-Safe s h)) h)

rollback_to-Safe : (p : Option ℕ) (r : Rollback) (s : Ota) → Safe s → Safe (rollback_to p r s).0
unfolding rollback_to
rollback_to-Safe none r s h = h
rollback_to-Safe (some slot) r s h =
    let booted = record s { trace = set_boot slot ∷ s.trace } in
    either (not r.described || not (slot_eligible r.opened slot s)) (s, bad_request)
      (if is_ok r.set then (booted, done) else (s, server_error)) h
      (either (is_ok r.set) (booted, done) (s, server_error) (boot-Safe slot s h) h)

-- The requests about firmware.
pub data Op : Type 0 where
  update : Response → ℤ → Upload → Op
  confirm : Response → ℕ → Esp → Op
  cancel : Response → Op
  rollback : Response → Rollback → Op

unfoldable pub apply : Op → Ota → Ota × Answer
apply (update a size u) s = firmware_update a size u s
apply (confirm a now set) s = firmware_confirm a now set s
apply (cancel a) s = firmware_cancel a s
apply (rollback a r) s = firmware_rollback a r s

unfoldable pub run : List Op → Ota → Ota
run [] s = s
run (op ∷ ops) s = run ops (apply op s).0

apply-Safe : (op : Op) (s : Ota) → Safe s → Safe (apply op s).0
unfolding apply firmware_confirm firmware_cancel firmware_rollback
apply-Safe (update a size u) s h = firmware_update-Safe a size u s h
apply-Safe (confirm a now set) s h =
    either (is_accepted a) (confirm_slot s.pending_partition now set s) (s, refused)
      (confirm_slot-Safe s.pending_partition now set s h) h
apply-Safe (cancel a) s h =
    either (is_accepted a) (clear_pending s, done) (s, refused) (clear-Safe s h) h
apply-Safe (rollback a r) s h =
    either (not (is_accepted a)) (s, refused)
      (if s.upload_in_progress then (s, conflict) else rollback_to r.other r s) h
      (either s.upload_in_progress (s, conflict) (rollback_to r.other r s) h
        (rollback_to-Safe r.other r s h))

pub run-Safe : (ops : List Op) (s : Ota) → Safe s → Safe (run ops s)
unfolding run
run-Safe [] s h = h
run-Safe (op ∷ ops) s h = run-Safe ops (apply op s).0 (apply-Safe op s h)

-- The state at power-on, with any flags.
abbrev pub power_on : (ℕ → Option ℕ) → Ota
power_on flags = record {
  upload_in_progress = false;
  pending_partition = none;
  pending_since_ms = 0;
  pending_version = [];
  flags = flags;
  trace = [];
}

pub power_on-Safe : (flags : ℕ → Option ℕ) → Safe (power_on flags)
power_on-Safe flags = record {
  blocked = λ k e. ground (arith, e);
  pending = λ k e. ground (arith, e);
  image = λ k e. absurd (ground (arith, e));
}
