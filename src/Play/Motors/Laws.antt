-- ===== src/Play/Motors/Laws.antt =====
-- Reading and sending positions stays in range when there is a position for each motor, and a send
-- addresses each motor once.
use encos_cli.Base.{
  ℕ, zero, suc, ◌+◌, ◌≡◌, refl, ap, sym, ◌∙◌, true, List, [], ◌∷◌, ◌++◌, map, Result, ok, err,
  ◌>>=◌, length, length-map, arith, Bool-cases, inl, inr,
}
use encos_cli.Trajectory.Numbers.{Numbers}
use encos_cli.Play.Motors.{
  PlayNumbers, MotorCall, pvt_control, pos_control, hold_control, commit, PlaySettings,
  use_pvt_control, motor_call, motor_calls, send_holding_positions, send_positions,
  read_current_positions, interpolate_clamped, interpolate_positions,
  interpolate_degrees_to_radians, send_interpolated_positions,
}

-- The call returns, with a postcondition.
abbrev pub Succeeds {ℓ} : {A : Type ℓ} → (A → Type 0) → Result A → Type 0
Succeeds P (ok a) = P a
Succeeds P (err e) = ⊥

pub Succeeds-bind {ℓ κ} :
    {A : Type ℓ} {B : Type κ} (P : A → Type 0) (Q : B → Type 0) (m : Result A) (f : A → Result B)
    → Succeeds P m
    → ((a : A) → P a → Succeeds Q (f a))
    → Succeeds Q (m >>= f)
Succeeds-bind P Q (ok a) f h k = k a h
Succeeds-bind P Q (err e) f h k = absurd h

-- Whom a call of the driver is for.
pub data CallTarget : Type 0 where
  to_motor : ℕ → CallTarget
  to_holding : ℕ → CallTarget
  to_adapters : CallTarget

abbrev pub call_target : {F : Type 0} → MotorCall F → CallTarget
call_target (pvt_control i kp kd position vel tor) = to_motor i
call_target (pos_control i position speed current) = to_motor i
call_target (hold_control i position speed current) = to_holding i
call_target commit = to_adapters

-- `from`, `from + 1`, … for so many targets.
abbrev targets_from : (ℕ → CallTarget) → ℕ → ℕ → List CallTarget
targets_from target from zero = []
targets_from target from (suc n) = target from ∷ targets_from target (from + 1) n

-- Every motor of the trajectory once, every one that is held once, and the commit.
abbrev pub frame : {F : Type 0} → PlaySettings F → List CallTarget
frame s =
    targets_from to_motor 0 s.motors
    ++ (targets_from to_holding 0 (length s.holding) ++ (to_adapters ∷ []))

pub map-append :
    {A B : Type 0} (f : A → B) (xs ys : List A) → map f (xs ++ ys) ≡ map f xs ++ map f ys
map-append f [] ys = refl
map-append f (x ∷ xs) ys = ap (λ l. f x ∷ l) (map-append f xs ys)

module _ {F : Type 0} where
  motor_call-target :
      (s : PlaySettings F) (i : ℕ) (p : F) → call_target (motor_call s i p) ≡ to_motor i
  unfolding motor_call
  motor_call-target s i p = elim (Bool-cases (use_pvt_control s)) [
    | inl e ↦ rw e refl
    | inr e ↦ rw e refl
  ]

  motor_calls-targets :
      (s : PlaySettings F) (motors index : ℕ) (positions : List F)
      → length positions ≡ motors
      → Succeeds
          (λ calls. map call_target calls ≡ targets_from to_motor index motors)
          (motor_calls s motors index positions)
  unfolding motor_calls
  motor_calls-targets s zero index positions h = refl
  motor_calls-targets s (suc motors) index [] h = absurd (omega arith)
  motor_calls-targets s (suc motors) index (p ∷ positions) h =
      Succeeds-bind (λ calls. map call_target calls ≡ targets_from to_motor (index + 1) motors) _
        (motor_calls s motors (index + 1) positions) _
        (motor_calls-targets s motors (index + 1) positions (omega arith))
        λ calls e. rw (motor_call-target s index p, e) refl

  holding-targets :
      (s : PlaySettings F) (index : ℕ) (holding : List F)
      → map call_target (send_holding_positions s index holding)
        ≡ targets_from to_holding index (length holding)
  unfolding send_holding_positions
  holding-targets s index [] = refl
  holding-targets s index (p ∷ holding) =
      ap (λ l. to_holding index ∷ l) (holding-targets s (index + 1) holding)

  -- A send of a position for each motor makes the calls of one frame.
  pub send_positions-frame :
      (s : PlaySettings F) (positions : List F)
      → length positions ≡ s.motors
      → Succeeds (λ calls. map call_target calls ≡ frame s) (send_positions s positions)
  unfolding send_positions
  send_positions-frame s positions h =
      Succeeds-bind (λ calls. map call_target calls ≡ targets_from to_motor 0 s.motors) _
        (motor_calls s s.motors 0 positions) _ (motor_calls-targets s s.motors 0 positions h)
        λ calls e.
          rw
            (
              map-append call_target calls (send_holding_positions s 0 s.holding ++ (commit ∷ [])),
              map-append call_target (send_holding_positions s 0 s.holding) (commit ∷ []),
              e,
              holding-targets s 0 s.holding,
            )
            refl

  -- A reading that does not fail has the position of each motor.
  pub read_current_positions-length :
      (motors : List (Result F))
      → (read_current_positions motors).1 ≡ true
      → length (read_current_positions motors).0 ≡ length motors
  unfolding read_current_positions
  read_current_positions-length [] h = refl
  read_current_positions-length (err e ∷ motors) h = cc
  read_current_positions-length (ok p ∷ motors) h = ap suc (read_current_positions-length motors h)

module _ (N : Numbers) (P : PlayNumbers N.Double N.Float) where
  open N use {Double, Float}
  open P use {clamp_unit, degrees_to_radians}

  abbrev HasLength : ℕ → List Float → Type 0
  HasLength n l = length l ≡ n

  interpolate_clamped-HasLength :
      (starts ends : List Float) (progress : Double)
      → length ends ≡ length starts
      → Succeeds (HasLength (length starts)) (interpolate_clamped N P starts ends progress)
  unfolding interpolate_clamped
  interpolate_clamped-HasLength [] ends progress h = refl
  interpolate_clamped-HasLength (a ∷ starts) [] progress h = absurd (omega arith)
  interpolate_clamped-HasLength (a ∷ starts) (b ∷ ends) progress h =
      Succeeds-bind (HasLength (length starts)) (HasLength (suc (length starts)))
        (interpolate_clamped N P starts ends progress) _
        (interpolate_clamped-HasLength starts ends progress (omega arith)) λ rest e. ap suc e

  pub interpolate_positions-HasLength :
      (starts ends : List Float) (progress : Double) (n : ℕ)
      → length starts ≡ n
      → length ends ≡ n
      → Succeeds (HasLength n) (interpolate_positions N P starts ends progress)
  unfolding interpolate_positions
  interpolate_positions-HasLength starts ends progress n h k =
      Succeeds_as (interpolate_clamped N P starts ends (clamp_unit progress)) h
        (interpolate_clamped-HasLength starts ends (clamp_unit progress) (k ∙ sym h))
    where
      Succeeds_as :
          (r : Result (List Float)) {m : ℕ}
          → m ≡ n
          → Succeeds (HasLength m) r
          → Succeeds (HasLength n) r
      Succeeds_as r e s = rw e at s

  pub interpolate_degrees-HasLength :
      (starts ends : List Float) (progress : Double) (n : ℕ)
      → length starts ≡ n
      → length ends ≡ n
      → Succeeds (HasLength n) (interpolate_degrees_to_radians N P starts ends progress)
  unfolding interpolate_degrees_to_radians
  interpolate_degrees-HasLength starts ends progress n h k =
      interpolate_positions-HasLength starts (map degrees_to_radians ends) progress n h
        (length-map ends degrees_to_radians ∙ k)

  pub send_interpolated-frame :
      (s : PlaySettings Float) (positions : List Float)
      → length positions ≡ s.motors
      → Succeeds
          (λ calls. map call_target calls ≡ frame s)
          (send_interpolated_positions N P s positions)
  unfolding send_interpolated_positions
  send_interpolated-frame s positions h =
      send_positions-frame s (map degrees_to_radians positions)
        (length-map positions degrees_to_radians ∙ h)
