-- ===== src/Play/Loss/Laws.antt =====
-- What the loss window holds, and what it counts.
use encos_cli.Base.{
  ℕ, ◌+◌, ◌^◌, ◌≤◌, ◌<◌, ◌≡◌, refl, sym, ap, ◌∙◌, ◌⊎◌, List, [], ◌∷◌, ◌++◌, append-nil,
  append_assoc, All, arith, Bool-cases, inl, inr,
}
use encos_cli.Play.Loss.{
  PlayPacketCounts, Sample, back_or, front_or, went_back, clear_if_reset, drop_expired, sub_uint64,
  update,
}
use encos_cli.Play.Loss.Order.{
  IsWindow, IsOld, WentBack, IsWindow_snoc, back_or-All, drop_expired-IsOld, drop_expired-IsWindow,
  drop_expired-back, drop_expired-front, front_rest, first-IsBefore,
}

sub_uint64-exact : (a b : ℕ) → a < 2 ^ 64 → b ≤ a → sub_uint64 a b + b ≡ a
sub_uint64-exact a b h p = omega arith

-- What an update leaves and returns. The samples and the new one are split into those that are
-- dropped and a window of those that are kept. Only the new one is kept if the counters went back,
-- and else only old ones are dropped. The first one that is kept is no more than three seconds old, and the counts are
-- the differences from it, with no wrap-around.
pub record IsUpdate (samples : List Sample) (newest : Sample) (u : List Sample × PlayPacketCounts)
    : Type 0 where
  pub ordered : IsWindow u.0
  pub dropped : List Sample
  pub split : samples ++ (newest ∷ []) ≡ dropped ++ u.0
  pub expired :
      (WentBack samples newest.counts.sent newest.counts.received × (u.0 ≡ newest ∷ []))
      ⊎ All (IsOld newest.time) dropped
  pub first : Sample
  pub rest : List Sample
  pub kept : u.0 ≡ first ∷ rest
  pub in_time : newest.time ≤ first.time + 3000000000
  pub sent_since : u.1.sent + first.counts.sent ≡ newest.counts.sent
  pub received_since : u.1.received + first.counts.received ≡ newest.counts.received

-- The samples that stay when the counters are compared.
pub record IsCleared (samples cleared : List Sample) (newest : Sample) : Type 0 where
  pub before : List Sample
  pub all : samples ≡ before ++ cleared
  pub why :
      (WentBack samples newest.counts.sent newest.counts.received × (cleared ≡ [])) ⊎ (before ≡ [])
  pub window : IsWindow (cleared ++ (newest ∷ []))

clear_if_reset-IsCleared :
    (samples : List Sample) (newest : Sample)
    → IsWindow samples
    → All (λ x. x.time ≤ newest.time) samples
    → IsCleared samples (clear_if_reset samples newest.counts.sent newest.counts.received) newest
unfolding clear_if_reset
clear_if_reset-IsCleared [] newest h t = record {
  before = [];
  all = refl;
  why = inr refl;
  window = tt;
}
clear_if_reset-IsCleared (x ∷ xs) newest h t =
    let earlier = back_or-All (λ y. y.time ≤ newest.time) x xs t in
    elim (Bool-cases (went_back (back_or x xs) newest.counts.sent newest.counts.received)) [
      | inl e ↦ rw e (record {
        before = x ∷ xs;
        all = sym (append-nil (x ∷ xs));
        why = inl (ground arith, refl);
        window = tt;
      })
      | inr e ↦ rw e (record {
        before = [];
        all = refl;
        why = inr refl;
        window = IsWindow_snoc x xs newest h (earlier, ground arith, ground arith);
      })
    ]

-- What is dropped, on the samples that stay when the counters are compared.
drop_cleared :
    (samples cleared : List Sample) (newest : Sample)
    → IsCleared samples cleared newest
    → (dropped : List Sample) × (samples ++ (newest ∷ [])
        ≡ dropped ++ drop_expired newest.time (cleared ++ (newest ∷ [])))
      × ((WentBack samples newest.counts.sent newest.counts.received
            × (drop_expired newest.time (cleared ++ (newest ∷ [])) ≡ newest ∷ []))
          ⊎ All (IsOld newest.time) dropped)
unfolding drop_expired
drop_cleared samples cleared newest h =
    let (old, split, olds) = drop_expired-IsOld newest.time (cleared ++ (newest ∷ [])) in
    let l = drop_expired newest.time (cleared ++ (newest ∷ [])) in
    (
      h.before ++ old,
      ap (λ s. s ++ (newest ∷ [])) h.all
          ∙ append_assoc h.before cleared (newest ∷ [])
          ∙ ap (λ s. h.before ++ s) split
          ∙ sym (append_assoc h.before old l),
      elim h.why [ inl (back, none) ↦ inl (back, rw none refl) | inr none ↦ inr (rw none olds) ],
    )

-- From a window in which nothing is later than now, and with 64-bit counters, an update keeps the
-- samples in order. It drops a front part of them: all but the new one if a counter went back, and
-- else only samples more than three seconds old; the first one that it keeps is no older than that,
-- and it returns the packets since that one.
pub update-IsUpdate :
    (samples : List Sample) (now sent received : ℕ)
    → IsWindow samples
    → All (λ x. x.time ≤ now) samples
    → sent < 2 ^ 64
    → received < 2 ^ 64
    → IsUpdate samples
        (record { time = now; counts = record { sent = sent; received = received } })
        (update samples now sent received)
unfolding update
update-IsUpdate samples now sent received h t p q =
    let newest : Sample = record {
      time = now;
      counts = record { sent = sent; received = received };
    } in
    let cleared = clear_if_reset samples sent received in
    let l = drop_expired now (cleared ++ (newest ∷ [])) in
    let c = clear_if_reset-IsCleared samples newest h t in
    let ordered : IsWindow l = drop_expired-IsWindow now (cleared ++ (newest ∷ [])) c.window in
    let (dropped, split, expired) = drop_cleared samples cleared newest c in
    let (rest, e) = front_rest l newest (drop_expired-back now cleared newest) in
    let (_, b, d) = first-IsBefore l newest rest e ordered (drop_expired-back now cleared newest) in
    record {
      ordered = ordered;
      dropped = dropped;
      split = split;
      expired = expired;
      first = front_or newest l;
      rest = rest;
      kept = e;
      in_time = drop_expired-front now cleared newest newest refl;
      sent_since = sub_uint64-exact sent _ p b;
      received_since = sub_uint64-exact received _ q d;
    }
