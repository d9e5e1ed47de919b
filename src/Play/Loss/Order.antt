-- ===== src/Play/Loss/Order.antt =====
-- src/cli/play.cc: the order of the samples of `PlayLossWindow`, and those that expire.
use encos_cli.Base.{
  ℕ, ◌+◌, ◌≤◌, ◌<◌, ◌≡◌, refl, ap, ◌⊎◌, List, [], ◌∷◌, ◌++◌, All, arith, Bool-cases, inl, inr, ltb,
}
use encos_cli.Play.Loss.{Sample, back_or, front_or, window, drop_expired}

-- Taken no later, with counters that are no larger.
abbrev pub IsBefore : Sample → Sample → Type 0
IsBefore x y =
    (x.time ≤ y.time) × (x.counts.sent ≤ y.counts.sent) × (x.counts.received ≤ y.counts.received)

-- In the order of time, and the counters go up with it.
abbrev pub IsWindow : List Sample → Type 0
IsWindow [] = Unit
IsWindow (x ∷ []) = Unit
IsWindow (x ∷ y ∷ xs) = IsBefore x y × IsWindow (y ∷ xs)

-- More than three seconds ago.
abbrev pub IsOld : ℕ → Sample → Type 0
IsOld now x = x.time + 3000000000 < now

-- A counter is below that of the newest sample.
abbrev pub WentBack : List Sample → ℕ → ℕ → Type 0
WentBack [] sent received = ⊥
WentBack (x ∷ xs) sent received =
    (sent < (back_or x xs).counts.sent) ⊎ (received < (back_or x xs).counts.received)

IsBefore-trans : (x y z : Sample) → IsBefore x y → IsBefore y z → IsBefore x z
IsBefore-trans x y z (a, b, c) (d, e, f) = (omega arith, omega arith, omega arith)

IsWindow_tail : (x : Sample) (xs : List Sample) → IsWindow (x ∷ xs) → IsWindow xs
IsWindow_tail x [] h = tt
IsWindow_tail x (y ∷ xs) (b, h) = h

IsWindow_first : (x : Sample) (xs : List Sample) → IsWindow (x ∷ xs) → IsBefore x (back_or x xs)
IsWindow_first x [] h = (omega arith, omega arith, omega arith)
IsWindow_first x (y ∷ xs) (b, h) = IsBefore-trans x y (back_or y xs) b (IsWindow_first y xs h)

pub IsWindow_snoc :
    (x : Sample) (xs : List Sample) (n : Sample)
    → IsWindow (x ∷ xs)
    → IsBefore (back_or x xs) n
    → IsWindow (x ∷ xs ++ (n ∷ []))
IsWindow_snoc x [] n h b = (b, tt)
IsWindow_snoc x (y ∷ xs) n (b, h) l = (b, IsWindow_snoc y xs n h l)

pub back_or-All :
    (P : Sample → Type 0) (x : Sample) (xs : List Sample) → All P (x ∷ xs) → P (back_or x xs)
back_or-All P x [] (h, hs) = h
back_or-All P x (y ∷ xs) (h, hs) = back_or-All P y xs hs

-- What is dropped is a front part, all of it old.
pub drop_expired-IsOld :
    (now : ℕ) (l : List Sample)
    → (dropped : List Sample) × (l ≡ dropped ++ drop_expired now l) × All (IsOld now) dropped
unfolding drop_expired
drop_expired-IsOld now [] = ([], refl, tt)
drop_expired-IsOld now (x ∷ []) = ([], refl, tt)
drop_expired-IsOld now (x ∷ y ∷ xs) = elim (Bool-cases (ltb (x.time + window) now)) [
  | inl e ↦
      let (dropped, split, old) = drop_expired-IsOld now (y ∷ xs) in
      (x ∷ dropped, rw e (ap (λ l. x ∷ l) split), (ground arith, old))
  | inr e ↦ ([], rw e refl, tt)
]

pub drop_expired-IsWindow : (now : ℕ) (l : List Sample) → IsWindow l → IsWindow (drop_expired now l)
unfolding drop_expired
drop_expired-IsWindow now [] h = tt
drop_expired-IsWindow now (x ∷ []) h = tt
drop_expired-IsWindow now (x ∷ y ∷ xs) h = elim (Bool-cases (ltb (x.time + window) now)) [
  | inl e ↦ rw e (drop_expired-IsWindow now (y ∷ xs) (IsWindow_tail x (y ∷ xs) h))
  | inr e ↦ rw e h
]

back_or-snoc : (l : List Sample) (x d : Sample) → back_or d (l ++ (x ∷ [])) ≡ x
back_or-snoc [] x d = refl
back_or-snoc (a ∷ l) x d = back_or-snoc l x a

-- The newest sample stays, as the last one.
pub drop_expired-back :
    (now : ℕ) (l : List Sample) (x d : Sample) → back_or d (drop_expired now (l ++ (x ∷ []))) ≡ x
unfolding drop_expired
drop_expired-back now [] x d = refl
drop_expired-back now (a ∷ []) x d = elim (Bool-cases (ltb (a.time + window) now)) [
  | inl e ↦ rw e refl
  | inr e ↦ rw e refl
]
drop_expired-back now (a ∷ b ∷ l) x d = elim (Bool-cases (ltb (a.time + window) now)) [
  | inl e ↦ rw e (drop_expired-back now (b ∷ l) x d)
  | inr e ↦ rw e (back_or-snoc l x b)
]

-- The oldest sample that stays is the newest one, or no older than three seconds.
pub drop_expired-front :
    (now : ℕ) (l : List Sample) (x d : Sample)
    → x.time ≡ now
    → now ≤ (front_or d (drop_expired now (l ++ (x ∷ [])))).time + window
unfolding drop_expired
drop_expired-front now [] x d h = omega arith
drop_expired-front now (a ∷ []) x d h = elim (Bool-cases (ltb (a.time + window) now)) [
  | inl e ↦ rw e (omega arith)
  | inr e ↦ rw e (ground arith)
]
drop_expired-front now (a ∷ b ∷ l) x d h = elim (Bool-cases (ltb (a.time + window) now)) [
  | inl e ↦ rw e (drop_expired-front now (b ∷ l) x d h)
  | inr e ↦ rw e (ground arith)
]

-- A list whose last element does not depend on what an empty one would give is not empty.
pub front_rest :
    (l : List Sample) (x : Sample)
    → ((d : Sample) → back_or d l ≡ x)
    → (rest : List Sample) × (l ≡ front_or x l ∷ rest)
front_rest [] x h = absurd (later_time x (h (record x { time = x.time + 1 })))
  where
    later_time : (x : Sample) → record x { time = x.time + 1 } ≡ x → ⊥
    later_time x e = let t : x.time + 1 ≡ x.time = ap (λ (y : Sample). y.time) e in omega arith
front_rest (y ∷ l) x h = (l, refl)

pub first-IsBefore :
    (l : List Sample) (x : Sample) (rest : List Sample)
    → l ≡ front_or x l ∷ rest
    → IsWindow l
    → ((d : Sample) → back_or d l ≡ x)
    → IsBefore (front_or x l) x
first-IsBefore [] x rest e h back = (omega arith, omega arith, omega arith)
first-IsBefore (y ∷ l) x rest e h back = rw (back y) at (IsWindow_first y l h)
