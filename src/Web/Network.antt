-- ===== src/Web/Network.antt =====
-- main/diag_webserver.cpp: wait_for_network_and_start_task, which starts the server once there is a
-- network, and records a boot that got so far. mDNS is left out.
use gdo_blaq_homekit.Prelude.{
  ℕ, zero, suc, ◌+◌, ◌-◌, ◌%◌, ◌≤◌, ◌<◌, ◌≡◌, refl, inl, inr, Bool, true, false, Bool-cases, not,
  ◌&&◌, if◌then◌else◌, ◌==◌, Option, none, some, arith, ==_iff,
}
use gdo_blaq_homekit.Opener.{Esp, is_ok}
use gdo_blaq_homekit.Control.Settings.{Write}
use gdo_blaq_homekit.Ota.{Ota, block_slot}
use gdo_blaq_homekit.Ota.Slots.{erased, Safe, block_slot-HasImage}

-- What one round of the wait finds: whether the interface has an address, and whether a lookup of
-- WIFI_STA_DEF gives an interface.
pub record Poll : Type 0 where
  pub address : Bool
  pub lookup : Bool

-- `netif`, after a round that is the `attempts`-th without an address.
abbrev pub netif_after : ℕ → Poll → Bool → Bool
netif_after attempts p netif = if attempts % 10 == 0 && not netif then p.lookup else netif

-- The wait, on fuel: the number of rounds without an address. Round `i` finds `rounds i`.
unfoldable pub wait : ℕ → (ℕ → Poll) → ℕ → Bool → Option ℕ
wait zero rounds i netif = none
wait (suc fuel) rounds i netif =
    let rest = wait fuel rounds (suc i) (netif_after (suc i) (rounds i) netif) in
    if netif && (rounds i).address then some i else rest

-- From round `n` on the network is there.
abbrev pub IsUpFrom : (ℕ → Poll) → ℕ → Type 0
IsUpFrom rounds n = (i : ℕ) → n ≤ i → ((rounds i).address ≡ true) × ((rounds i).lookup ≡ true)

-- The wait ends, in round `bound` at the latest.
abbrev pub EndsBy : ℕ → Option ℕ → Type 0
EndsBy bound r = (i : ℕ) × (r ≡ some i) × (i ≤ bound)

wait-found :
    (fuel : ℕ) (rounds : ℕ → Poll) (i : ℕ)
    → (rounds i).address ≡ true
    → wait (suc fuel) rounds i true ≡ some i
unfolding wait
wait-found fuel rounds i a = ground (arith, a)

wait-skip :
    (fuel : ℕ) (rounds : ℕ → Poll) (i bound : ℕ) (netif : Bool)
    → i ≤ bound
    → EndsBy bound (wait fuel rounds (suc i) (netif_after (suc i) (rounds i) netif))
    → EndsBy bound (wait (suc fuel) rounds i netif)
unfolding wait
wait-skip fuel rounds i bound netif le (r, e, b) = elim (Bool-cases (netif && (rounds i).address)) [
  | inl k ↦ (i, rw k refl, le)
  | inr k ↦ (r, rw k e, b)
]

-- Once the network is there, the interface is found in the next round that is a multiple of ten.
wait-up :
    (d fuel : ℕ) (rounds : ℕ → Poll) (n i bound : ℕ) (netif : Bool)
    → IsUpFrom rounds n
    → n ≤ i
    → suc i + d ≤ bound
    → (suc i + d) % 10 ≡ 0
    → d + 1 < fuel
    → EndsBy bound (wait fuel rounds i netif)
wait-up d zero rounds n i bound netif up le b m f = absurd (omega arith)
wait-up d (suc fuel) rounds n i bound true up le b m f =
    (i, wait-found fuel rounds i (up i le).0, omega arith)
wait-up zero (suc zero) rounds n i bound false up le b m f = absurd (omega arith)
wait-up zero (suc (suc fuel)) rounds n i bound false up le b m f =
    let due : (suc i % 10 == 0) ≡ true = ground arith in
    let there : netif_after (suc i) (rounds i) false ≡ true = ground (arith, due, up i le) in
    wait-skip (suc fuel) rounds i bound false (omega arith)
      (rw there (suc i, wait-found fuel rounds (suc i) (up (suc i) (omega arith)).0, omega arith))
wait-up (suc d) (suc fuel) rounds n i bound false up le b m f =
    wait-skip fuel rounds i bound false (omega arith) (
      wait-up d fuel rounds n (suc i) bound (netif_after (suc i) (rounds i) false) up (omega arith)
        (omega arith) (omega arith) (omega arith))

wait-from :
    (k fuel : ℕ) (rounds : ℕ → Poll) (n i : ℕ) (netif : Bool)
    → IsUpFrom rounds n
    → n ≡ i + k
    → k + 11 < fuel
    → EndsBy (n + 10) (wait fuel rounds i netif)
wait-from k zero rounds n i netif up e f = absurd (omega arith)
wait-from zero (suc fuel) rounds n i netif up e f =
    wait-up ((10 - suc i % 10) % 10) (suc fuel) rounds n i (n + 10) netif up (omega arith)
      (omega arith) (omega arith) (omega arith)
wait-from (suc k) (suc fuel) rounds n i netif up e f =
    wait-skip fuel rounds i (n + 10) netif (omega arith) (
      wait-from k fuel rounds n (suc i) (netif_after (suc i) (rounds i) netif) up (omega arith)
        (omega arith))

-- The wait for the network ends: where from round `n` on there is an address and WIFI_STA_DEF can be
-- looked up, the wait ends after at most n + 10 rounds, also if the interface was not there at
-- first.
pub wait-ends :
    (fuel : ℕ) (rounds : ℕ → Poll) (n : ℕ) (netif : Bool)
    → ((i : ℕ) → n ≤ i → ((rounds i).address ≡ true) × ((rounds i).lookup ≡ true))
    → n + 11 < fuel
    → (i : ℕ) × (wait fuel rounds 0 netif ≡ some i) × (i ≤ n + 10)
wait-ends fuel rounds n netif up f = wait-from n fuel rounds n 0 netif up (omega arith) f

-- A boot that got so far is kept: the slot that runs is a good one to go back to.
unfoldable pub mark_valid : Esp → Option ℕ → Write → Ota → Ota
mark_valid marked none w s = s
mark_valid marked (some slot) w s = if is_ok marked then (block_slot slot false w s).0 else s

-- Recording a good boot keeps what makes a rollback safe: every slot that was erased since power-on
-- stays blocked, where the slot that runs is none of them.
pub mark_valid-Safe :
    (marked : Esp) (running : Option ℕ) (w : Write) (s : Ota)
    → Safe s
    → ((slot : ℕ) → running ≡ some slot → erased slot s.trace ≡ false)
    → Safe (mark_valid marked running w s)
unfolding mark_valid block_slot
mark_valid-Safe marked none w s h r = h
mark_valid-Safe marked (some slot) w s h r = record {
  blocked = λ k e. elim (Bool-cases (k == slot)) [
    | inl eq ↦
        (let same : k ≡ slot = (==_iff k slot).0 eq in
          let no : erased k s.trace ≡ false = rw same (r slot refl) in
          absurd (ground (arith, no, e)))
    | inr ne ↦ ground (arith, h.blocked k, e, ne)
  ];
  pending = λ k e. ground (arith, h.pending k, e);
  image = elim (Bool-cases (is_ok marked)) [
    | inl e ↦ rw e (block_slot-HasImage slot false w s h.image)
    | inr e ↦ rw e h.image
  ];
}
