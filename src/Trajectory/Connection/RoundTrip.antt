-- ===== src/Trajectory/Connection/RoundTrip.antt =====
-- A connection is read back from its text.
use encos_cli.Base.{
  ℕ, suc, ◌^◌, ◌<◌, ◌≡◌, ◌≢◌, refl, ◌∙◌, ap, Option, none, some, List, [], ◌∷◌, ◌++◌, append-nil,
  Bytes, Lacks, ok, arith, has_empty, is_empty, false,
}
use encos_cli.Base.Int.{ℤ, pos, negsuc, IsInt32}
use encos_cli.Number.{to_string}
use encos_cli.Number.RoundTrip.{
  stoi-to_string, stoul-decimal, decimal-Lacks, decimal-StartsWithDigit,
}
use encos_cli.Trajectory.Connection.{
  MotorConnection, split_colon_separated, to_int, to_motor_id, parse_motor_connection,
  format_connection,
}

pub split-Lacks : (p : Bytes) → Lacks b':' p → split_colon_separated p ≡ p ∷ []
unfolding split_colon_separated
split-Lacks [] h = refl
split-Lacks (c ∷ p) (hc, h) = ground (arith, split-Lacks p h)

pub split-append :
    (p rest : Bytes)
    → Lacks b':' p
    → split_colon_separated (p ++ (b':' ∷ rest)) ≡ p ∷ split_colon_separated rest
unfolding split_colon_separated
split-append [] rest h = refl
split-append (c ∷ p) rest (hc, h) = ground (arith, split-append p rest h)

pub to_string-Lacks : (z : ℤ) → Lacks b':' (to_string z)
unfolding to_string
to_string-Lacks (pos n) = decimal-Lacks b':' n (omega arith)
to_string-Lacks (negsuc n) = (omega arith, decimal-Lacks b':' (suc n) (omega arith))

to_int-to_string : (z : ℤ) → IsInt32 z → to_int (to_string z) ≡ ok z
to_int-to_string z h =
    let e = rw append-nil at (stoi-to_string z [] h tt) in unfold to_int in rw e refl

to_motor_id-to_string : (n : ℕ) → n < 2 ^ 16 → to_motor_id (to_string (pos n)) ≡ ok n
to_motor_id-to_string n h =
    let e = rw append-nil at (stoul-decimal n [] (omega arith) tt) in
    unfold to_motor_id to_string in rw e (ground arith)

is_empty-to_string : (z : ℤ) → is_empty (to_string z) ≡ false
unfolding to_string
is_empty-to_string (pos n) = let (c, t, e, d) = decimal-StartsWithDigit n in rw e refl
is_empty-to_string (negsuc n) = refl

abbrev pub IsName : Bytes → Type 0
IsName s = (s ≢ []) × Lacks b':' s

abbrev pub IsSlave : Option ℤ → Type 0
IsSlave none = Unit
IsSlave (some s) = IsInt32 s

-- Names that are not empty and hold no colon, and numbers of their types.
pub record IsConnection (c : MotorConnection) : Type 0 where
  pub type_named : IsName c.adapter_type
  pub id_named : IsName c.adapter_id
  pub slave : IsSlave c.slave_id
  pub bus : IsInt32 c.bus_id
  pub motor : c.motor_id < 2 ^ 16

pub not_empty : (s : Bytes) → s ≢ [] → is_empty s ≡ false
not_empty [] h = absurd (h refl)
not_empty (c ∷ s) h = refl

module _ (type id : Bytes) (bus : ℤ) (motor : ℕ) (lt : Lacks b':' type) (li : Lacks b':' id) where
  tail_parts : List Bytes
  tail_parts = to_string bus ∷ to_string (pos motor) ∷ []

  split_tail : split_colon_separated (to_string bus ++ (b':' ∷ to_string (pos motor))) ≡ tail_parts
  unfolding tail_parts
  split_tail =
      split-append (to_string bus) _ (to_string-Lacks bus)
      ∙ ap (◌∷◌ (to_string bus)) (split-Lacks _ (to_string-Lacks (pos motor)))

  abbrev connection : Option ℤ → MotorConnection
  connection slave = record {
    adapter_type = type;
    adapter_id = id;
    slave_id = slave;
    bus_id = bus;
    motor_id = motor;
  }

  split_none : split_colon_separated (format_connection (connection none)) ≡ type ∷ id ∷ tail_parts
  unfolding format_connection
  split_none =
      split-append type _ lt ∙ ap (◌∷◌ type) (split-append id _ li ∙ ap (◌∷◌ id) split_tail)

  split_some :
      (slave : ℤ)
      → split_colon_separated (format_connection (connection (some slave)))
        ≡ type ∷ id ∷ to_string slave ∷ tail_parts
  unfolding format_connection
  split_some slave =
      split-append type _ lt
      ∙ ap (◌∷◌ type) (
          split-append id _ li
          ∙ ap (◌∷◌ id) (
              split-append (to_string slave) _ (to_string-Lacks slave)
              ∙ ap (◌∷◌ (to_string slave)) split_tail))

  read_back :
      (slave : Option ℤ)
      → type ≢ []
      → id ≢ []
      → IsSlave slave
      → IsInt32 bus
      → motor < 2 ^ 16
      → parse_motor_connection (format_connection (connection slave)) ≡ ok (connection slave)
  unfolding parse_motor_connection has_empty tail_parts
  read_back none ht hi hs hb hm =
      rw
        (
          split_none,
          not_empty type ht,
          not_empty id hi,
          is_empty-to_string bus,
          is_empty-to_string (pos motor),
          to_int-to_string bus hb,
          to_motor_id-to_string motor hm,
        )
        refl
  read_back (some slave) ht hi hs hb hm =
      rw
        (
          split_some slave,
          not_empty type ht,
          not_empty id hi,
          is_empty-to_string slave,
          is_empty-to_string bus,
          is_empty-to_string (pos motor),
          to_int-to_string slave hs,
          to_int-to_string bus hb,
          to_motor_id-to_string motor hm,
        )
        refl

-- `ParseMotorConnection` undoes `FormatConnection`, with or without a slave, on a connection whose
-- adapter type and id are not empty and have no colon, and whose slave, bus and motor numbers have
-- the ranges of their types, two of `int32_t` and a `uint16_t`.
pub parse_motor_connection-format_connection :
    (c : MotorConnection) → IsConnection c → parse_motor_connection (format_connection c) ≡ ok c
parse_motor_connection-format_connection c h =
    read_back c.adapter_type c.adapter_id c.bus_id c.motor_id h.type_named.1 h.id_named.1 c.slave_id
      h.type_named.0 h.id_named.0 h.slave h.bus h.motor
