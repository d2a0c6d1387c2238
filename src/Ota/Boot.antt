-- ===== src/Ota/Boot.antt =====
-- Which images can become the one that boots.
use gdo_blaq_homekit.Prelude.{
  ℕ, ◌+◌, ◌≤◌, ◌≡◌, inl, inr, refl, ap, sym, subst, ◌∙◌, true, false, Bool-cases, List, ◌∷◌, Option,
  none, some, arith,
}
use gdo_blaq_homekit.Opener.{Esp}
use gdo_blaq_homekit.Admin.{Response, is_accepted}
use gdo_blaq_homekit.Ota.{
  Image, set_boot, Ota, Answer, done, slot_eligible, confirm_slot, firmware_confirm, Rollback,
  rollback_to, firmware_rollback,
}
use gdo_blaq_homekit.Ota.Whole.{IsWhole}
use gdo_blaq_homekit.Ota.Slots.{
  erased, last_image, Safe, Op, run, run-Safe, power_on, power_on-Safe,
}

rollback_to-done :
    (slot : ℕ) (r : Rollback) (s : Ota)
    → Safe s
    → (rollback_to (some slot) r s).1 ≡ done
    → erased slot s.trace ≡ false
unfolding rollback_to slot_eligible
rollback_to-done slot r s h e = elim (Bool-cases (erased slot s.trace)) [
  | inl k ↦ (let b = h.blocked slot k in absurd (ground (arith, e, b)))
  | inr k ↦ k
]

-- Whatever requests came since power-on, a rollback that is carried out goes to a slot that no upload
-- has erased since then: not to an image that was never confirmed, cancelled or cut short.
pub rollback-erased :
    (ops : List Op) (flags : ℕ → Option ℕ) (a : Response) (r : Rollback) (slot : ℕ)
    → r.other ≡ some slot
    → (firmware_rollback a r (run ops (power_on flags))).1 ≡ done
    → erased slot (run ops (power_on flags)).trace ≡ false
unfolding firmware_rollback
rollback-erased ops flags a r slot e d =
    let s = run ops (power_on flags) in
    rollback_to-done slot r s (run-Safe ops (power_on flags) (power_on-Safe flags))
      (ground (arith, d, ap (λ x. (rollback_to x r s).1) e))

-- A boot of a slot, out of a pending upload.
pub record Boots (now : ℕ) (slot : ℕ) (s t : Ota) : Type 0 where
  pub pending : s.pending_partition ≡ some slot
  pub in_time : now ≤ s.pending_since_ms + 600000
  pub booted : t.trace ≡ set_boot slot ∷ s.trace
  pub used_up : t.pending_partition ≡ none

confirm_slot-done :
    (p : Option ℕ) (now : ℕ) (set : Esp) (s : Ota)
    → s.pending_partition ≡ p
    → (confirm_slot p now set s).1 ≡ done
    → (slot : ℕ) × Boots now slot s (confirm_slot p now set s).0
unfolding confirm_slot
confirm_slot-done none now set s e d = absurd (ground (arith, d))
confirm_slot-done (some slot) now set s e d = (
  slot,
  record {
    pending = e;
    in_time = ground (arith, d);
    booted = ground (arith, d);
    used_up = ground (arith, d);
  },
)

accepted :
    (a : Response) (now : ℕ) (set : Esp) (s : Ota)
    → (firmware_confirm a now set s).1 ≡ done
    → (is_accepted a ≡ true)
      × (firmware_confirm a now set s ≡ confirm_slot s.pending_partition now set s)
unfolding firmware_confirm
accepted a now set s d = elim (Bool-cases (is_accepted a)) [
  | inl e ↦ (e, rw e refl)
  | inr e ↦ absurd (ground (arith, d, e))
]

-- Whatever requests came since power-on, a confirmation that is carried out has the admin password,
-- and boots the slot of the pending upload: one that an upload erased, and whose image, of which as
-- many bytes came and were written as were announced, was accepted by esp_ota_end() at most ten
-- minutes ago, with no erase since then; nothing is pending then, so it is carried out only once.
pub confirm-Boots :
    (ops : List Op) (flags : ℕ → Option ℕ) (a : Response) (now : ℕ) (set : Esp)
    → (firmware_confirm a now set (run ops (power_on flags))).1 ≡ done
    → let s = run ops (power_on flags) in
      (is_accepted a ≡ true)
      × ((slot : ℕ) × Boots now slot s (firmware_confirm a now set s).0
          × (erased slot s.trace ≡ true)
          × ((i : Image) × (last_image s.trace ≡ some i)
              × (i.slot ≡ slot)
              × (now ≤ i.ended + 600000)
              × IsWhole i.size i.pieces))
confirm-Boots ops flags a now set d =
    let s = run ops (power_on flags) in
    let safe = run-Safe ops (power_on flags) (power_on-Safe flags) in
    let (ok, same) = accepted a now set s d in
    let (slot, b) =
      confirm_slot-done s.pending_partition now set s refl (sym (ap (λ x. x.1) same) ∙ d) in
    let (i, last, same_slot, kept, whole) = safe.image slot b.pending in
    (
      ok,
      (
        slot,
        subst (λ (x : Ota × Answer). Boots now slot s x.0) (sym same) b,
        safe.pending slot b.pending,
        (i, last, same_slot, omega (arith, kept, b.in_time), whole),
      ),
    )
