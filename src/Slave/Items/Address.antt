-- ===== src/Slave/Items/Address.antt =====
-- `slave set` and `ip set` say the same.
use encos_cli.Base.{
  ℕ, ◌+◌, ◌%◌, ◌/◌, ◌≤◌, ◌≡◌, refl, Bool, true, false, Option, some, [], ◌∷◌, ◌++◌, Bytes, codes,
  leb, ok, ◌>>=◌, length, is_empty, str_eq, arith,
}
use encos_cli.Number.{decimal, stoul}
use encos_cli.Firmware.Status.{all_digits}
use encos_cli.Number.RoundTrip.{decimal-All}
use encos_cli.Firmware.Status.Laws.{decimal-not_empty, all_digits-All, stoul-value}
use encos_cli.Slave.Request.{slave_number}
use encos_cli.Slave.Items.{saved, ip_commands, slave_commands, parse_item}
use encos_cli.Slave.Items.Digits.{length-decimal}

slave_number-digits :
    (text : Bytes) (id : ℕ)
    → is_empty text ≡ false
    → length text ≤ 3
    → all_digits text ≡ true
    → stoul 10 text ≡ ok (id, [])
    → id ≤ 252
    → slave_number text ≡ ok id
unfolding slave_number
slave_number-digits text id full short digits value h =
    let l : leb (length text) 3 ≡ true = ground arith in
    let b : leb id 252 ≡ true = ground arith in rw (full, l, digits, value, b) refl

slave_number-decimal : (id : ℕ) → id ≤ 252 → slave_number (decimal id) ≡ ok id
slave_number-decimal id h =
    slave_number-digits (decimal id) id (decimal-not_empty id) (length-decimal id (omega arith))
      (all_digits-All (decimal id) (decimal-All id)) (stoul-value id (omega arith)) h

slave_set :
    (inet_pton : Bytes → Option ℕ) (help : Bytes) (serial : Bool) (text : Bytes)
    → parse_item inet_pton help serial (codes "slave" ∷ codes "set" ∷ text ∷ [])
      ≡ (slave_number text >>= (λ id. ok (slave_commands id)))
unfolding parse_item str_eq
slave_set inet_pton help serial text = refl

ip_set :
    (inet_pton : Bytes → Option ℕ) (help : Bytes) (serial : Bool) (text : Bytes)
    → parse_item inet_pton help serial (codes "ip" ∷ codes "set" ∷ text ∷ [])
      ≡ ip_commands text (inet_pton text)
unfolding parse_item str_eq
ip_set inet_pton help serial text = refl

ip_accepted :
    (text : Bytes) (id : ℕ)
    → id ≤ 252
    → ip_commands text (some (0xc0a86400 + (id + 1))) ≡ ok (saved (codes "NET SETIP " ++ text))
ip_accepted text id h =
    let high : (0xc0a86400 + (id + 1)) / 256 ≡ 0xc0a864 = omega arith in
    let low : (0xc0a86400 + (id + 1)) % 256 ≡ id + 1 = omega arith in rw (high, low) (ground arith)

-- A slave's number and the address behind it are set by the same commands: `slave set N` and
-- `ip set 192.168.100.(N+1)` agree for N up to 252, where the C library reads that address.
pub parse_item-slave_ip :
    (inet_pton : Bytes → Option ℕ) (help : Bytes) (serial : Bool) (id : ℕ)
    → id ≤ 252
    → inet_pton (codes "192.168.100." ++ decimal (id + 1)) ≡ some (0xc0a86400 + (id + 1))
    → parse_item inet_pton help serial (codes "slave" ∷ codes "set" ∷ decimal id ∷ [])
      ≡ parse_item inet_pton help serial
          (codes "ip" ∷ codes "set" ∷ (codes "192.168.100." ++ decimal (id + 1)) ∷ [])
parse_item-slave_ip inet_pton help serial id h known =
    rw
      (
        slave_set inet_pton help serial (decimal id),
        ip_set inet_pton help serial (codes "192.168.100." ++ decimal (id + 1)),
        slave_number-decimal id h,
        known,
        ip_accepted (codes "192.168.100." ++ decimal (id + 1)) id h,
      )
      refl
