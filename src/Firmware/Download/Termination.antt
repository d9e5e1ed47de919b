-- ===== src/Firmware/Download/Termination.antt =====
-- The loops of DownloadFirmware end within the fuel, since each round sleeps.
use encos_cli.Base.{
  ℕ, zero, suc, ◌+◌, ◌-◌, ◌*◌, ◌≤◌, ◌≡◌, refl, Bool, true, false, Option, none, some, [], Bytes,
  codes, ltb, if◌then◌else◌, is_empty, Result, ok, err, arith, ltb→lt, Bool-cases, inl, inr,
}
use encos_cli.Firmware.Download.{
  Identity, Platform, Session, Run, continue, mount, on_volume, wait_for_volume, ask_status,
  confirmed_result, on_status, on_port, wait_for_startup, rest_of,
}
use encos_cli.Firmware.Status.{OtaStatus, ota_confirmed}

-- What the clock and the waiting promise: the clock never goes back, and a sleep lasts as long as it
-- is asked to.
pub record IsForward {W : Type 0} (p : Platform W) : Type 0 where
  pub sleeps : (ms : ℕ) (w : W) → p.now w + ms ≤ p.now (p.sleep_for ms w)
  pub volume_later : (i : Identity) (w : W) → p.now w ≤ p.now (p.find_volume i w).1
  pub mount_later : (i : Identity) (w : W) → p.now w ≤ p.now (p.try_mount i w).1
  pub port_later : (i : Identity) (w : W) → p.now w ≤ p.now (p.find_port i w).1
  pub command_later : (e t : Bytes) (w : W) → p.now w ≤ p.now (p.command e t w).1

abbrev pub ends : {A : Type 0} → Option A → Bool
ends none = false
ends (some a) = true

abbrev pub Ends : {A : Type 0} → Option A → Type 0
Ends o = ends o ≡ true

Ends-if :
    {A : Type 0} (b : Bool) (x y : Option A)
    → (b ≡ true → Ends x)
    → Ends y
    → Ends (if b then x else y)
Ends-if true x y hx hy = hx refl
Ends-if false x y hx hy = hy

pub Ends-continue :
    {W A B : Type 0} (rest : A → Run W B) (o : Option (Result A × Session W))
    → Ends o
    → ((a : A) (s : Session W) → Ends (rest a s))
    → Ends (continue rest o)
Ends-continue rest none h f = absurd (no h)
  where
    no : false ≡ true → ⊥
    no e = cc
Ends-continue rest (some (err e, s)) h f = refl
Ends-continue rest (some (ok a, s)) h f = f a s

pub Ends-result :
    {W A B : Type 0} (rest : A → Run W B) (r : Result A) (s : Session W)
    → ((a : A) → Ends (rest a s))
    → Ends (continue rest (some (r, s)))
Ends-result rest (err e) s f = refl
Ends-result rest (ok a) s f = f a

past : (n deadline : ℕ) → deadline ≤ n → ltb n deadline ≡ true → ⊥
past n deadline h e = omega (arith, ltb→lt n deadline e)

module _ {W : Type 0} (platform : Platform W) (forward : IsForward platform) where
  open platform use {now, sleep_for, find_volume, find_port, try_mount}

  mount_later_lem :
      (attempted : Bool) (start : ℕ) (identity : Identity) (w : W)
      → now w ≤ now (mount platform attempted start identity w).1
  mount_later_lem true start identity w = omega arith
  mount_later_lem false start identity w = elim (Bool-cases (ltb 5000 (now w - start))) [
    | inl e ↦ rw e (forward.mount_later identity w)
    | inr e ↦ rw e (omega arith)
  ]

  on_volume-Ends :
      (found : Result Bytes) (s : Session W) (again : Option (Result Bytes × Session W))
      → Ends again
      → Ends (on_volume platform found s again)
  on_volume-Ends (err e) s again h = refl
  on_volume-Ends (ok volume) s again h =
      Ends-if (is_empty volume) again (some (ok volume, s)) (λ e. h) refl

  -- One round more than the sleeps that fit before the deadline is enough.
  pub wait_for_volume-Ends :
      (rounds : ℕ) (identity : Identity) (start deadline : ℕ) (attempted : Bool) (s : Session W)
      → deadline ≤ now s.world + 200 * rounds
      → Ends (wait_for_volume platform (suc rounds) identity start deadline attempted s)
  unfolding wait_for_volume
  wait_for_volume-Ends zero identity start deadline attempted s h =
      Ends-if (ltb (now s.world) deadline) _ (some (ok [], s))
        (λ e. absurd (past (now s.world) deadline (omega arith) e)) refl
  wait_for_volume-Ends (suc rounds) identity start deadline attempted s h =
      let found = find_volume identity s.world in
      let mounted = mount platform attempted start identity found.1 in
      let next : Session W = rest_of platform s (sleep_for 200 mounted.1) in
      let later : deadline ≤ now next.world + 200 * rounds = omega (
        arith,
        forward.volume_later identity s.world,
        mount_later_lem attempted start identity found.1,
        forward.sleeps 200 mounted.1,
      ) in
      Ends-if (ltb (now s.world) deadline) _ (some (ok [], s))
        (λ e.
          on_volume-Ends found.0 (rest_of platform s found.1)
            (wait_for_volume platform (suc rounds) identity start deadline mounted.0 next)
            (wait_for_volume-Ends rounds identity start deadline mounted.0 next later))
        refl

  on_status-Ends :
      (before : OtaStatus) (version : ℕ) (last_error : Bytes) (status : Result OtaStatus)
      (s : Session W) (again : Bytes → Option (Result OtaStatus × Session W))
      → ((e : Bytes) → Ends (again e))
      → Ends (on_status platform before version last_error status s again)
  on_status-Ends before version last_error (err e) s again h = h (platform.what e)
  on_status-Ends before version last_error (ok status) s again h =
      Ends-if (ota_confirmed status) (confirmed_result platform before status version s)
        (again last_error) (λ e. refl) (h last_error)

  on_port-Ends :
      (before : OtaStatus) (version : ℕ) (last_error : Bytes) (port : Result Bytes) (s : Session W)
      (again : Bytes → Session W → Option (Result OtaStatus × Session W))
      → ((e : Bytes) (t : Session W) → now s.world ≤ now t.world → Ends (again e t))
      → Ends (on_port platform before version last_error port s again)
  on_port-Ends before version last_error (err e) s again h = refl
  on_port-Ends before version last_error (ok port) s again h =
      Ends-if (is_empty port) (again last_error s)
        (on_status platform before version last_error (ask_status platform port s).0
          (ask_status platform port s).1 (λ e. again e (ask_status platform port s).1))
        (λ e. h last_error s (omega arith))
        (on_status-Ends before version last_error (ask_status platform port s).0
          (ask_status platform port s).1 (λ e. again e (ask_status platform port s).1)
          (λ e.
            h e (ask_status platform port s).1
              (forward.command_later port (codes "OTA STATUS") s.world)))

  pub wait_for_startup-Ends :
      (rounds : ℕ) (identity : Identity) (deadline : ℕ) (before : OtaStatus) (version : ℕ)
      (last_error : Bytes) (s : Session W)
      → deadline ≤ now s.world + 500 * rounds
      → Ends (wait_for_startup platform (suc rounds) identity deadline before version last_error s)
  unfolding wait_for_startup
  wait_for_startup-Ends zero identity deadline before version last_error s h =
      Ends-if (ltb (now s.world) deadline) _ _
        (λ e. absurd (past (now s.world) deadline (omega arith) e)) refl
  wait_for_startup-Ends (suc rounds) identity deadline before version last_error s h =
      let found = find_port identity s.world in
      Ends-if (ltb (now s.world) deadline) _ _
        (λ e.
          on_port-Ends before version last_error found.0 (rest_of platform s found.1) _
            (λ e' t later.
              wait_for_startup-Ends rounds identity deadline before version e'
                (rest_of platform t (sleep_for 500 t.world))
                (omega
                  (arith, forward.port_later identity s.world, forward.sleeps 500 t.world, later))))
        refl
