-- ===== src/Command/Glove/Laws.antt =====
-- The ranges of the glove's indices.
use encos_cli.Base.{ℕ, suc, ◌-◌, ◌^◌, ◌<◌, ◌≤◌, ◌≡◌, ◌≢◌, ◌∷◌, Bytes, ok, arith, Ensures}
use encos_cli.Number.{decimal}
use encos_cli.Target.IntegerLaws.{parse_integer-decimal, parse_integer_space_minus}
use encos_cli.Command.Glove.{parse_glove_finger_idx, parse_glove_encoder_mask}

-- A decimal finger or encoder index is accepted exactly within its range.
pub parse_glove_finger_idx-decimal :
    (n : ℕ)
    → n < 2 ^ 63
    → (n < 5 → parse_glove_finger_idx (decimal n) ≡ ok n)
      × (5 ≤ n → (r : ℕ) → parse_glove_finger_idx (decimal n) ≢ ok r)
unfolding parse_glove_finger_idx
parse_glove_finger_idx-decimal n h = (
  λ lt. rw (parse_integer-decimal n "finger_idx" h) (ground arith),
  λ ge r. rw (parse_integer-decimal n "finger_idx" h) (ground arith),
)

-- Behind a space a negative finger passes: -(n + 1) is less than five, and the cast to eight bits
-- makes it 255 - n.
pub parse_glove_finger_idx_space_minus :
    (n : ℕ) → n < 2 ^ 8 → parse_glove_finger_idx (b' ' ∷ b'-' ∷ decimal (suc n)) ≡ ok (255 - n)
unfolding parse_glove_finger_idx
parse_glove_finger_idx_space_minus n h =
    rw (parse_integer_space_minus n "finger_idx" (omega arith)) (ground arith)

-- An accepted mask is not zero, and has only the ten bits of the encoders, whatever the text.
pub parse_glove_encoder_mask-Ensures :
    (value : Bytes) → Ensures (λ m. (m ≢ 0) × (m < 2 ^ 10)) (parse_glove_encoder_mask value)
unfolding parse_glove_encoder_mask
parse_glove_encoder_mask-Ensures value = ground arith
