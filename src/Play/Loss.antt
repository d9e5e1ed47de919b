-- ===== src/Play/Loss.antt =====
-- src/cli/play.cc: `PlayLossWindow`, the packets of the last three seconds.
-- Times are numbers of nanoseconds; `time < now - 3s` is written with the sum, since a time is no
-- less than zero here and signed there.
pub mod Order
pub mod Laws
use encos_cli.Base.{
  ℕ, ◌+◌, ◌-◌, ◌^◌, ◌%◌, Bool, false, ◌||◌, List, [], ◌∷◌, ◌++◌, ltb, if◌then◌else◌,
}

pub record PlayPacketCounts : Type 0 where
  pub sent : ℕ
  pub received : ℕ

pub record Sample : Type 0 where
  pub time : ℕ
  pub counts : PlayPacketCounts

-- `samples.back()`; of an empty queue, which the code does not ask, it is `d`.
abbrev pub back_or : Sample → List Sample → Sample
back_or d [] = d
back_or d (x ∷ xs) = back_or x xs

abbrev pub front_or : Sample → List Sample → Sample
front_or d [] = d
front_or d (x ∷ xs) = x

abbrev pub went_back : Sample → ℕ → ℕ → Bool
went_back last sent received = ltb sent last.counts.sent || ltb received last.counts.received

-- The counters were reset: the queue starts anew.
unfoldable pub clear_if_reset : List Sample → ℕ → ℕ → List Sample
clear_if_reset [] sent received = []
clear_if_reset (x ∷ xs) sent received =
    if went_back (back_or x xs) sent received then [] else x ∷ xs

abbrev pub window : ℕ
window = 3000000000

unfoldable pub drop_expired : ℕ → List Sample → List Sample
drop_expired now [] = []
drop_expired now (x ∷ []) = x ∷ []
drop_expired now (x ∷ y ∷ xs) =
    let rest = drop_expired now (y ∷ xs) in if ltb (x.time + window) now then rest else x ∷ y ∷ xs

-- A difference of two `uint64_t`.
abbrev pub sub_uint64 : ℕ → ℕ → ℕ
sub_uint64 a b = (a + 2 ^ 64 - b) % 2 ^ 64

abbrev pub since : Sample → ℕ → ℕ → PlayPacketCounts
since first sent received = record {
  sent = sub_uint64 sent first.counts.sent;
  received = sub_uint64 received first.counts.received;
}

unfoldable pub update : List Sample → ℕ → ℕ → ℕ → List Sample × PlayPacketCounts
unfolding clear_if_reset drop_expired
update samples now sent received =
    let sample : Sample = record {
      time = now;
      counts = record { sent = sent; received = received };
    } in
    let samples' = drop_expired now (clear_if_reset samples sent received ++ (sample ∷ [])) in
    (samples', since (front_or sample samples') sent received)
