-- ===== src/Slave/Packets/Scan.antt =====
-- The slaves that a scan finds, in order.
use encos_cli.Base.{
  ℕ, ◌-◌, ◌≤◌, ◌<◌, ◌≡◌, refl, sym, Bool, true, false, not, ◌&&◌, Option, none, List, [], ◌∷◌,
  Bytes, ltb, ◌==◌, if◌then◌else◌, ok, length, str_eq_iff, ==_iff, arith, All, Bool-cases, inl, inr,
  Ensures, Ensures-bind, Ensures-ok, Ensures-throw_if,
}
use mathlib.Core.Path.{subst}
use encos_cli.Base.Vectors.{replicate, slice, get_or}
use encos_cli.Firmware.Words.{little_endian}
use encos_cli.Slave.Request.{any_nonzero}
use encos_cli.Slave.Packets.{
  packet, Datagram, is_response, response_tests, all_hold, first_response, Devices, find_device,
  set_device, is_slave_address, agrees, scan_packet, scan_packets, collect, scan,
}

-- The numbers of the slaves ascend, and none is above 252.
abbrev Above : ℕ → Devices → Type 0
Above n = All (λ d. n < d.0)

abbrev pub IsAscending : Devices → Type 0
IsAscending [] = Unit
IsAscending (d ∷ devices) = All (λ e. d.0 < e.0) devices × IsAscending devices

set_device-All :
    (P : ℕ × Bytes → Type 0) (id : ℕ) (uuid : Bytes) (devices : Devices)
    → P (id, uuid)
    → All P devices
    → All P (set_device id uuid devices)
unfolding set_device
set_device-All P id uuid [] h hs = (h, tt)
set_device-All P id uuid (d ∷ devices) h (hd, hs) = elim (Bool-cases (ltb id d.0)) [
  | inl e ↦ rw e (h, (hd, hs))
  | inr e ↦ elim (Bool-cases (id == d.0)) [
    | inl e' ↦ rw (e, e') (h, hs)
    | inr e' ↦ rw (e, e') (hd, set_device-All P id uuid devices h hs)
  ]
]

Above-weaken : (m n : ℕ) (devices : Devices) → m ≤ n → Above n devices → Above m devices
Above-weaken m n [] h hs = tt
Above-weaken m n (d ∷ devices) h (hd, hs) = (omega arith, Above-weaken m n devices h hs)

set_device-IsAscending :
    (id : ℕ) (uuid : Bytes) (devices : Devices)
    → IsAscending devices
    → IsAscending (set_device id uuid devices)
unfolding set_device
set_device-IsAscending id uuid [] h = (tt, tt)
set_device-IsAscending id uuid ((n, other) ∷ devices) (above, h) = elim (Bool-cases (ltb id n)) [
  | inl e ↦
      let lt : id < n = ground arith in
      rw e ((lt, Above-weaken id n devices (omega arith) above), (above, h))
  | inr e ↦ elim (Bool-cases (id == n)) [
    | inl e' ↦
        let same : n ≡ id = ground arith in rw (e, e') (subst (λ k. Above k devices) same above, h)
    | inr e' ↦
        let gt : n < id = ground arith in
        rw (e, e')
          (
            set_device-All (λ d. n < d.0) id uuid devices gt above,
            set_device-IsAscending id uuid devices h,
          )
  ]
]

-- A number that a slave may have, and a UUID that is not all zeros.
abbrev pub IsDevice : ℕ × Bytes → Type 0
IsDevice (id, uuid) = (id ≤ 252) × (any_nonzero uuid ≡ true)

abbrev pub IsScan : Devices → Type 0
IsScan devices = IsAscending devices × All IsDevice devices

and_left : (a b : Bool) → (a && b) ≡ true → a ≡ true
and_left true b h = refl
and_left false b h = cc

and_right : (a b : Bool) → (a && b) ≡ true → b ≡ true
and_right true b h = h
and_right false b h = cc

slave_bound : (p : Bytes) → is_slave_address p ≡ true → get_or p 31 0 - 1 ≤ 252
unfolding is_slave_address
slave_bound p h = ground arith

scan_packet-IsScan :
    (p : Bytes) (devices : Devices) → IsScan devices → Ensures IsScan (scan_packet p devices)
unfolding scan_packet
scan_packet-IsScan p devices (ascending, each) =
    let uuid : Bytes = slice p 12 16 in
    let id : ℕ = get_or p 31 0 - 1 in
    elim (Bool-cases (is_slave_address p && any_nonzero uuid)) [
      | inl e ↦ rw e (
          Ensures-throw_if IsScan (not (agrees (find_device id devices) uuid)) _
            (ok (set_device id uuid devices))
            (λ h. (
              set_device-IsAscending id uuid devices ascending,
              set_device-All IsDevice id uuid devices
                  (
                    slave_bound p (and_left (is_slave_address p) (any_nonzero uuid) e),
                    and_right (is_slave_address p) (any_nonzero uuid) e,
                  )
                  each,
            )))
      | inr e ↦ rw e (ascending, each)
    ]

scan_packets-IsScan :
    (packets : List Bytes) (devices : Devices)
    → IsScan devices
    → Ensures IsScan (scan_packets packets devices)
unfolding scan_packets
scan_packets-IsScan [] devices h = h
scan_packets-IsScan (p ∷ packets) devices h =
    Ensures-bind IsScan IsScan (scan_packet p devices) (scan_packets packets)
      (scan_packet-IsScan p devices h) (scan_packets-IsScan packets)

-- Whatever datagrams arrive, a scan that returns lists slaves in the order of their numbers, each
-- number once and none above 252, and none of the UUIDs is zero.
pub scan-IsScan :
    (request : ℕ) (arrived : List Datagram) (devices : Devices)
    → scan request arrived ≡ ok devices
    → IsScan devices
unfolding scan
scan-IsScan request arrived devices h =
    let found : List Bytes =
      collect 2 (replicate 16 0) none (packet 1 request (replicate 16 0)) arrived in
    Ensures-ok IsScan (scan_packets found []) (scan_packets-IsScan found [] (tt, tt)) h

abbrev Answers : Bytes → Bytes → Bytes → Type 0
Answers response request uuid =
    (length response ≡ 256)
    × (little_endian (slice response 8 4) ≡ little_endian (slice request 8 4))
    × (slice response 12 16 ≡ uuid)

all_hold-All : (tests : List Bool) → all_hold tests ≡ true → All (λ b. b ≡ true) tests
unfolding all_hold
all_hold-All [] h = tt
all_hold-All (test ∷ tests) h =
    (and_left test (all_hold tests) h, all_hold-All tests (and_right test (all_hold tests) h))

is_response-Answers :
    (uuid : Bytes) (wanted : Option Bytes) (request : Bytes) (d : Datagram)
    → is_response 13 true uuid wanted request d ≡ true
    → Answers d.bytes request uuid
unfolding is_response
is_response-Answers uuid wanted request d h =
    let (size, (t2, (t3, (t4, (t5, (t6, (echo, (t8, (t9, (t10, (same, end))))))))))) =
      all_hold-All (response_tests 13 true uuid wanted request d) h in
    (
      (==_iff (length d.bytes) 256).0 size,
      (==_iff (little_endian (slice d.bytes 8 4)) (little_endian (slice request 8 4))).0 echo,
      sym ((str_eq_iff uuid (slice d.bytes 12 16)).0 same),
    )

-- What a command gets is the bytes of a datagram that passes every test: of 256 bytes, from port
-- 5001, with the number of the request and the UUID of the target.
pub first_response-matches :
    (uuid : Bytes) (wanted : Option Bytes) (request : Bytes) (arrived : List Datagram)
    (response : Bytes)
    → first_response 13 true uuid wanted request arrived ≡ ok response
    → (length response ≡ 256)
      × (little_endian (slice response 8 4) ≡ little_endian (slice request 8 4))
      × (slice response 12 16 ≡ uuid)
unfolding first_response
first_response-matches uuid wanted request [] response h = cc
first_response-matches uuid wanted request (d ∷ arrived) response h =
    elim (Bool-cases (is_response 13 true uuid wanted request d)) [
      | inl e ↦
          let found : (if true
                then ok d.bytes
                else first_response 13 true uuid wanted request arrived)
              ≡ ok response =
            rw e at h in
          let same : d.bytes ≡ response = ground (arith, found) in
          subst (λ r. Answers r request uuid) same (is_response-Answers uuid wanted request d e)
      | inr e ↦ first_response-matches uuid wanted request arrived response (rw e at h)
    ]
