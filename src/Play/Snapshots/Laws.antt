-- ===== src/Play/Snapshots/Laws.antt =====
-- The order of the live table: no motor is lost, and missing values stand last.
use encos_cli.Base.{
  ℕ, ◌≡◌, refl, Bool, true, false, not, ◌&&◌, Option, none, some, List, [], ◌∷◌, Bytes, ltb, arith,
  if◌then◌else◌,
}
use encos_cli.Base.Int.{ℤ, ltb_ℤ}
use encos_cli.Base.Sort.{sort_by, IsSorted, sort_by-perm, sort_by-IsSorted}
use encos_cli.Play.Snapshots.{
  PlaySortColumn, PlayMotorSnapshot, Comparisons, Comparison, before, same, after, comparison,
  bytes_less, option_less, lexicographic, identity_less, adapter_text, compare_float, loss,
  compare_primary, is_nan_at, directed, snapshot_less, sort_play_motor_snapshots, by_adapter,
  by_slave, by_bus, by_id, by_position, by_speed, by_current, by_torque, by_motor_temperature,
  by_mos_temperature, by_sent, by_received, by_loss, by_loss3s, by_error, slave_or_zero,
}
use mathlib.Core.List.{Perm}

-- IEEE 754: of two numbers at most one is less than the other.
pub record IsAsymmetric {F : Type 0} (C : Comparisons F) : Type 0 where
  pub floats : (x y : F) → C.less_float x y ≡ true → C.less_float y x ≡ false
  pub doubles : (x y : C.Double) → C.less_double x y ≡ true → C.less_double y x ≡ false

ltb-asym : (a b : ℕ) → ltb a b ≡ true → ltb b a ≡ false
ltb-asym a b h = ground arith

ltb_ℤ-asym : (a b : ℤ) → ltb_ℤ a b ≡ true → ltb_ℤ b a ≡ false
ltb_ℤ-asym a b h = ground arith

bytes_less-asym : (a b : Bytes) → bytes_less a b ≡ true → bytes_less b a ≡ false
unfolding bytes_less
bytes_less-asym [] [] h = refl
bytes_less-asym [] (y ∷ b) h = refl
bytes_less-asym (x ∷ a) [] h = cc
bytes_less-asym (x ∷ a) (y ∷ b) h = ground (arith, bytes_less-asym a b)

option_less-asym : (a b : Option ℤ) → option_less a b ≡ true → option_less b a ≡ false
option_less-asym none none h = refl
option_less-asym none (some y) h = refl
option_less-asym (some x) none h = cc
option_less-asym (some x) (some y) h = ltb_ℤ-asym x y h

lexicographic-asym :
    (less greater rest back : Bool)
    → (less ≡ true → greater ≡ false)
    → (rest ≡ true → back ≡ false)
    → lexicographic less greater rest ≡ true
    → lexicographic greater less back ≡ false
lexicographic-asym true true rest back h k e = h refl
lexicographic-asym true false rest back h k e = refl
lexicographic-asym false true rest back h k e = cc
lexicographic-asym false false rest back h k e = k e

identity_less-asym :
    {F : Type 0} (l r : PlayMotorSnapshot F) → identity_less l r ≡ true → identity_less r l ≡ false
unfolding identity_less
identity_less-asym l r =
    lexicographic-asym _ _ _ _ (bytes_less-asym l.adapter_type r.adapter_type) (
      lexicographic-asym _ _ _ _ (bytes_less-asym l.adapter_id r.adapter_id) (
        lexicographic-asym _ _ _ _ (option_less-asym l.slave_id r.slave_id) (
          lexicographic-asym _ _ _ _ (ltb_ℤ-asym l.bus_id r.bus_id) (
            lexicographic-asym _ _ _ _ (ltb_ℤ-asym l.motor_id r.motor_id)
              (bytes_less-asym l.name r.name)))))

-- A comparison the other way round.
abbrev flip : Comparison → Comparison
flip before = after
flip same = same
flip after = before

comparison-flip :
    (less greater : Bool)
    → (less ≡ true → greater ≡ false)
    → comparison greater less ≡ flip (comparison less greater)
comparison-flip true true h = absurd (no (h refl))
  where
    no : true ≡ false → ⊥
    no e = cc
comparison-flip true false h = refl
comparison-flip false true h = refl
comparison-flip false false h = refl

directed-asym :
    (ascending : Bool) (c : Comparison) (identity back : Bool)
    → (identity ≡ true → back ≡ false)
    → directed ascending c identity ≡ true
    → directed ascending (flip c) back ≡ false
directed-asym true before identity back h e = refl
directed-asym false before identity back h e = cc
directed-asym ascending same identity back h e = h e
directed-asym true after identity back h e = cc
directed-asym false after identity back h e = refl

module _ {F : Type 0} (C : Comparisons F) where
  open C use {is_nan}

  -- No row with a number stands behind one without.
  abbrev pub NanLast : PlaySortColumn → List (PlayMotorSnapshot F) → Type 0
  NanLast column [] = Unit
  NanLast column (x ∷ []) = Unit
  NanLast column (x ∷ y ∷ l) =
      (is_nan_at C column x ≡ true → is_nan_at C column y ≡ true) × NanLast column (y ∷ l)

module _ {F : Type 0} (C : Comparisons F) (asym : IsAsymmetric C) where
  open C use {is_nan, less_float, less_double, code}

  compare_float-flip : (x y : F) → compare_float C y x ≡ flip (compare_float C x y)
  unfolding compare_float
  compare_float-flip x y =
      by_nan (is_nan x) (is_nan y) _ _
        (comparison-flip (less_float x y) (less_float y x) (asym.floats x y))
    where
      by_nan :
          (a b : Bool) (c d : Comparison)
          → d ≡ flip c
          → (if b && not a then after else if not b && a then before else d)
            ≡ flip (if a && not b then after else if not a && b then before else c)
      by_nan true true c d e = e
      by_nan true false c d e = refl
      by_nan false true c d e = refl
      by_nan false false c d e = e

  loss-flip :
      (s r s' r' : ℕ)
      → comparison
          (less_double (loss C s' r') (loss C s r))
          (less_double (loss C s r) (loss C s' r'))
        ≡ flip (
            comparison
              (less_double (loss C s r) (loss C s' r'))
              (less_double (loss C s' r') (loss C s r)))
  loss-flip s r s' r' = comparison-flip _ _ (asym.doubles (loss C s r) (loss C s' r'))

  compare_primary-flip :
      (column : PlaySortColumn) (l r : PlayMotorSnapshot F)
      → compare_primary C column r l ≡ flip (compare_primary C column l r)
  unfolding compare_primary
  compare_primary-flip by_adapter l r =
      comparison-flip _ _ (bytes_less-asym (adapter_text l) (adapter_text r))
  compare_primary-flip by_slave l r =
      comparison-flip _ _ (ltb_ℤ-asym (slave_or_zero l.slave_id) (slave_or_zero r.slave_id))
  compare_primary-flip by_bus l r = comparison-flip _ _ (ltb_ℤ-asym l.bus_id r.bus_id)
  compare_primary-flip by_id l r = comparison-flip _ _ (ltb_ℤ-asym l.motor_id r.motor_id)
  compare_primary-flip by_position l r = compare_float-flip l.position_rad r.position_rad
  compare_primary-flip by_speed l r = compare_float-flip l.speed_rad_s r.speed_rad_s
  compare_primary-flip by_current l r = compare_float-flip l.current_a r.current_a
  compare_primary-flip by_torque l r = compare_float-flip l.torque_nm r.torque_nm
  compare_primary-flip by_motor_temperature l r =
      compare_float-flip l.motor_temperature_c r.motor_temperature_c
  compare_primary-flip by_mos_temperature l r =
      compare_float-flip l.mos_temperature_c r.mos_temperature_c
  compare_primary-flip by_sent l r = comparison-flip _ _ (ltb-asym l.sent r.sent)
  compare_primary-flip by_received l r = comparison-flip _ _ (ltb-asym l.received r.received)
  compare_primary-flip by_loss l r = loss-flip l.sent l.received r.sent r.received
  compare_primary-flip by_loss3s l r =
      loss-flip l.window_sent l.window_received r.window_sent r.window_received
  compare_primary-flip by_error l r = comparison-flip _ _ (ltb-asym (code l.error) (code r.error))

  snapshot_less-asym :
      (column : PlaySortColumn) (ascending : Bool) (l r : PlayMotorSnapshot F)
      → snapshot_less C column ascending l r ≡ true
      → snapshot_less C column ascending r l ≡ false
  unfolding snapshot_less
  snapshot_less-asym column ascending l r = rw (compare_primary-flip column l r) (
      by_nan (is_nan_at C column l) (is_nan_at C column r) _ _ (
        directed-asym ascending (compare_primary C column l r) (identity_less l r)
          (identity_less r l) (identity_less-asym l r)))
    where
      by_nan :
          (a b x y : Bool)
          → (x ≡ true → y ≡ false)
          → (if a && not b then false else if not a && b then true else x) ≡ true
          → (if b && not a then false else if not b && a then true else y) ≡ false
      by_nan true true x y h e = h e
      by_nan true false x y h e = cc
      by_nan false true x y h e = refl
      by_nan false false x y h e = h e

  nan_stays :
      (column : PlaySortColumn) (ascending : Bool) (x y : PlayMotorSnapshot F)
      → snapshot_less C column ascending y x ≡ false
      → is_nan_at C column x ≡ true
      → is_nan_at C column y ≡ true
  unfolding snapshot_less
  nan_stays column ascending x y h e = by_nan (is_nan_at C column y) (is_nan_at C column x) _ h e
    where
      by_nan :
          (b a d : Bool)
          → (if b && not a then false else if not b && a then true else d) ≡ false
          → a ≡ true
          → b ≡ true
      by_nan true a d h e = refl
      by_nan false true d h e = cc
      by_nan false false d h e = cc

  sorted-NanLast :
      (column : PlaySortColumn) (ascending : Bool) (l : List (PlayMotorSnapshot F))
      → IsSorted (snapshot_less C column ascending) l
      → NanLast C column l
  sorted-NanLast column ascending [] h = tt
  sorted-NanLast column ascending (x ∷ []) h = tt
  sorted-NanLast column ascending (x ∷ y ∷ l) (p, h) =
      (nan_stays column ascending x y p, sorted-NanLast column ascending (y ∷ l) h)

  -- If floating-point numbers compare asymmetrically, then for each column and direction the sorted
  -- snapshots are the given ones, in the order of the comparison, and those whose value in the column
  -- is not a number stand behind the others, in both directions.
  pub sort_play_motor_snapshots_lem :
      (snapshots : List (PlayMotorSnapshot F)) (column : PlaySortColumn) (ascending : Bool)
      → Perm (sort_play_motor_snapshots C snapshots column ascending) snapshots
        × IsSorted
            (snapshot_less C column ascending)
            (sort_play_motor_snapshots C snapshots column ascending)
        × NanLast C column (sort_play_motor_snapshots C snapshots column ascending)
  unfolding sort_play_motor_snapshots
  sort_play_motor_snapshots_lem snapshots column ascending =
      let sorted =
        sort_by-IsSorted (snapshot_less C column ascending) (snapshot_less-asym column ascending)
          snapshots in
      (
        sort_by-perm (snapshot_less C column ascending) snapshots,
        sorted,
        sorted-NanLast column ascending (sort_by (snapshot_less C column ascending) snapshots)
            sorted,
      )
