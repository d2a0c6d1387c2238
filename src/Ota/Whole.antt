-- ===== src/Ota/Whole.antt =====
-- When an upload is whole.
use gdo_blaq_homekit.Prelude.{
  ℕ, ◌+◌, ◌-◌, ◌≤◌, ◌≡◌, ◌≢◌, ap, min, ◌++◌, inl, inr, refl, true, Bool-cases, ◌==◌, List, [], ◌∷◌,
  arith,
}
use gdo_blaq_homekit.Opener.{is_ok}
use gdo_blaq_homekit.Ota.{Piece, receive_loop, chunk_size}

abbrev pub total : List Piece → ℕ
total [] = 0
total (p ∷ ps) = p.received + total ps

-- Each piece has bytes, and was written.
abbrev pub AllWritten : List Piece → Type 0
AllWritten [] = Unit {0}
AllWritten (p ∷ ps) = ((p.received ≢ 0) × (is_ok p.written ≡ true)) × AllWritten ps

-- As many bytes as were announced came and were written.
pub record IsWhole (size : ℕ) (pieces : List Piece) : Type 0 where
  pub got : List Piece
  pub rest : List Piece
  pub split : pieces ≡ got ++ rest
  pub all_written : AllWritten got
  pub enough : size ≤ total got

pub receive_loop-IsWhole :
    (size : ℕ) (pieces : List Piece) → receive_loop size pieces ≡ true → IsWhole size pieces
unfolding receive_loop
receive_loop-IsWhole size [] h = record {
  got = [];
  rest = [];
  split = refl;
  all_written = tt;
  enough = ground (arith, h);
}
receive_loop-IsWhole size (p ∷ pieces) h = elim (Bool-cases (size == 0)) [
  | inl e ↦ record {
    got = [];
    rest = p ∷ pieces;
    split = refl;
    all_written = tt;
    enough = ground (arith, e);
  }
  | inr e ↦
      (let more = size - min p.received (min size chunk_size) in
        let w = receive_loop-IsWhole more pieces (ground (arith, h, e)) in
        record {
          got = p ∷ w.got;
          rest = w.rest;
          split = ap (λ r. p ∷ r) w.split;
          all_written = ((ground (arith, h, e), ground (arith, h, e)), w.all_written);
          enough = ground (arith, w.enough);
        })
]
