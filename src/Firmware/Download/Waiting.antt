-- ===== src/Firmware/Download/Waiting.antt =====
-- The two loops of DownloadFirmware: what they leave in the log.
use encos_cli.Base.{
  ℕ, zero, suc, ◌-◌, ◌≡◌, codes, arith, refl, Bool, true, Option, some, List, [], ◌∷◌, Bytes, ltb,
  if◌then◌else◌, is_empty, str_eq, ◌=:◌, Result, ok, err, Bool-cases, Result-cases, inl, inr,
}
use encos_cli.Firmware.Download.{
  Identity, Platform, Action, sent, written, Session, mount, on_volume, wait_for_volume, parsed,
  ask_status, confirmed_result, on_status, on_port, wait_for_startup, rest_of,
}
use encos_cli.Firmware.Status.{OtaStatus, parse_ota_status, ota_confirmed, check_ota_result}
use encos_cli.Firmware.Status.Laws.{check_ota_result-eq-ok}
use encos_cli.Firmware.Download.Posts.{Post, Post-if}

-- What the log says was written, and how often the gateway was asked to enter the bootloader.
unfoldable pub writes : List Action → List (Bytes × Bytes)
writes [] = []
writes (sent endpoint text ∷ log) = writes log
writes (written path bytes ∷ log) = (path, bytes) ∷ writes log

unfoldable pub entries : List Action → ℕ
unfolding str_eq
entries [] = 0
entries (sent endpoint text ∷ log) =
    let before = entries log in if text =: "OTA ENTER" then suc before else before
entries (written path bytes ∷ log) = entries log

-- The firmware has started and confirmed the slot it runs in, and no other is on trial.
abbrev pub IsConfirmed : OtaStatus → Type 0
IsConfirmed s = (s.ready ≡ 1) × (s.confirmed ≡ s.slot) × (s.pending ≡ 0xffffffff)

pub ota_confirmed-IsConfirmed : (s : OtaStatus) → ota_confirmed s ≡ true → IsConfirmed s
unfolding ota_confirmed
ota_confirmed-IsConfirmed s h = ground arith

-- The status that may end the download.
abbrev pub IsInstalled : OtaStatus → ℕ → OtaStatus → Type 0
IsInstalled before version after =
    IsConfirmed after × (after.slot ≡ 1 - before.slot) × (after.version ≡ version)

parsed-eq-ok :
    (answer : Result Bytes) (status : OtaStatus)
    → parsed answer ≡ ok status
    → (reply : Bytes) × (answer ≡ ok reply) × (parse_ota_status reply ≡ ok status)
parsed-eq-ok (err e) status h = cc
parsed-eq-ok (ok reply) status h = (reply, refl, h)

module _ {W : Type 0} (platform : Platform W) where
  open platform use {now, sleep_for, find_volume, find_port, command}

  abbrev SameLog : List Action → Result Bytes → Session W → Type 0
  SameLog log r s = s.log ≡ log

  on_volume-SameLog :
      (log : List Action) (found : Result Bytes) (s : Session W)
      (again : Option (Result Bytes × Session W))
      → s.log ≡ log
      → Post (SameLog log) again
      → Post (SameLog log) (on_volume platform found s again)
  on_volume-SameLog log (err e) s again h ha = h
  on_volume-SameLog log (ok volume) s again h ha =
      Post-if (SameLog log) (is_empty volume) again (some (ok volume, s)) ha h

  -- Waiting for the volume does nothing to the gateway.
  pub wait_for_volume-SameLog :
      (fuel : ℕ) (identity : Identity) (start deadline : ℕ) (attempted : Bool) (s : Session W)
      → Post (SameLog s.log) (wait_for_volume platform fuel identity start deadline attempted s)
  unfolding wait_for_volume
  wait_for_volume-SameLog zero identity start deadline attempted s = tt
  wait_for_volume-SameLog (suc fuel) identity start deadline attempted s =
      let found = find_volume identity s.world in
      let mounted = mount platform attempted start identity found.1 in
      let next : Session W = rest_of platform s (sleep_for 200 mounted.1) in
      Post-if (SameLog s.log) (ltb (now s.world) deadline)
        (on_volume platform found.0 (rest_of platform s found.1)
          (wait_for_volume platform fuel identity start deadline mounted.0 next))
        (some (ok [], s))
        (on_volume-SameLog s.log found.0 (rest_of platform s found.1)
          (wait_for_volume platform fuel identity start deadline mounted.0 next) refl
          (wait_for_volume-SameLog fuel identity start deadline mounted.0 next))
        refl

  -- The last thing that was done to the gateway: on the port that was found for this identity it was
  -- asked for its status, and the reply reads as this one.
  pub record IsAnswer (identity : Identity) (status : OtaStatus) (s : Session W) : Type 0 where
    pub before_port : W
    pub port : Bytes
    pub reply : Bytes
    pub earlier : List Action
    pub found : (find_port identity before_port).0 ≡ ok port
    pub replied :
        (command port (codes "OTA STATUS") (find_port identity before_port).1).0 ≡ ok reply
    pub ended : (command port (codes "OTA STATUS") (find_port identity before_port).1).1 ≡ s.world
    pub last : s.log ≡ sent port (codes "OTA STATUS") ∷ earlier
    pub read : parse_ota_status reply ≡ ok status

  -- What the second loop leaves: the same writes and entries, and a status that was answered and
  -- checked.
  abbrev pub AfterStartup :
      Identity → OtaStatus → ℕ → List Action → Result OtaStatus → Session W → Type 0
  AfterStartup identity before version log (err e) s =
      (writes s.log ≡ writes log) × (entries s.log ≡ entries log)
  AfterStartup identity before version log (ok status) s =
      IsInstalled before version status
      × IsAnswer identity status s
      × (writes s.log ≡ writes log)
      × (entries s.log ≡ entries log)

  module _ (identity : Identity) (before : OtaStatus) (version : ℕ) (log : List Action) where
    abbrev Kept : Session W → Type 0
    Kept s = (writes s.log ≡ writes log) × (entries s.log ≡ entries log)

    confirmed_result-After :
        (status : OtaStatus) (s : Session W)
        → ota_confirmed status ≡ true
        → IsAnswer identity status s
        → Kept s
        → Post
            (AfterStartup identity before version log)
            (confirmed_result platform before status version s)
    confirmed_result-After status s h a (kw, ke) =
        elim (Result-cases (check_ota_result before status version)) [
          | inl (done, e) ↦
              let (c, slot, same) = check_ota_result-eq-ok before status version e in
              rw e ((ota_confirmed-IsConfirmed status c, slot, same), a, kw, ke)
          | inr (e', e) ↦ rw e (kw, ke)
        ]

    on_status-After :
        (last_error : Bytes) (status : Result OtaStatus) (s : Session W)
        (again : Bytes → Option (Result OtaStatus × Session W))
        → ((answered : OtaStatus) → status ≡ ok answered → IsAnswer identity answered s)
        → Kept s
        → ((e : Bytes) → Post (AfterStartup identity before version log) (again e))
        → Post
            (AfterStartup identity before version log)
            (on_status platform before version last_error status s again)
    on_status-After last_error (err e) s again a h ha = ha (platform.what e)
    on_status-After last_error (ok status) s again a h ha =
        elim (Bool-cases (ota_confirmed status)) [
          | inl e ↦ rw e (confirmed_result-After status s e (a status refl) h)
          | inr e ↦ rw e (ha last_error)
        ]

    on_port-After :
        (last_error : Bytes) (port : Result Bytes) (w : W) (earlier : List Action)
        (again : Bytes → Session W → Option (Result OtaStatus × Session W))
        → (find_port identity w).0 ≡ port
        → Kept (record { world = (find_port identity w).1; log = earlier })
        → ((e : Bytes) (t : Session W)
            → Kept t
            → Post (AfterStartup identity before version log) (again e t))
        → Post (AfterStartup identity before version log) (
            on_port platform before version last_error port
              (record { world = (find_port identity w).1; log = earlier })
              again)
    unfolding writes entries
    on_port-After last_error (err e) w earlier again f h ha = h
    on_port-After last_error (ok port) w earlier again f h ha =
        let s : Session W = record { world = (find_port identity w).1; log = earlier } in
        Post-if (AfterStartup identity before version log) (is_empty port) (again last_error s)
          (on_status platform before version last_error (ask_status platform port s).0
            (ask_status platform port s).1 (λ e. again e (ask_status platform port s).1))
          (ha last_error s h)
          (on_status-After last_error (ask_status platform port s).0 (ask_status platform port s).1
            (λ e. again e (ask_status platform port s).1)
            (λ status p.
              let (reply, replied, read) =
                parsed-eq-ok (command port (codes "OTA STATUS") s.world).0 status p in
              record {
                before_port = w;
                port = port;
                reply = reply;
                earlier = earlier;
                found = f;
                replied = replied;
                ended = refl;
                last = refl;
                read = read;
              })
            h (λ e. ha e (ask_status platform port s).1 h))

    pub wait_for_startup-After :
        (fuel : ℕ) (deadline : ℕ) (last_error : Bytes) (s : Session W)
        → Kept s
        → Post
            (AfterStartup identity before version log)
            (wait_for_startup platform fuel identity deadline before version last_error s)
    unfolding wait_for_startup
    wait_for_startup-After zero deadline last_error s h = tt
    wait_for_startup-After (suc fuel) deadline last_error s h =
        elim (Bool-cases (ltb (now s.world) deadline)) [
          | inl e ↦ rw e (
              on_port-After last_error (find_port identity s.world).0 s.world s.log _ refl h
                (λ e' t ht.
                  wait_for_startup-After fuel deadline e'
                    (rest_of platform t (sleep_for 500 t.world)) ht))
          | inr e ↦ rw e h
        ]
