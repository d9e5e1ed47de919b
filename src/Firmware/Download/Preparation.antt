-- ===== src/Firmware/Download/Preparation.antt =====
-- The first lines of DownloadFirmware, which only ask for the gateway's status.
use encos_cli.Base.{
  ◌+◌, ◌≡◌, ◌⊎◌, refl, ◌&&◌, ◌∷◌, Bytes, codes, ltb, ◌==◌, length, bind-eq-ok, Result, ok, err, inl,
  inr,
}
use mathlib.Core.Path.{subst}
use encos_cli.Firmware.Words.{require, require-eq-ok}
use encos_cli.Firmware.Load.{File, load_ota_firmware}
use encos_cli.Firmware.Package.{make_ota_package}
use encos_cli.Firmware.Status.{OtaStatus, parse_ota_status, ota_confirmed}
use encos_cli.Firmware.Status.Laws.{IsStatus, parse_ota_status-IsStatus}
use encos_cli.Firmware.Download.{
  Identity, Platform, sent, Session, Plan, is_hex, plan_from, prepare,
}
use encos_cli.Firmware.Download.Posts.{Post, Post-result}
use encos_cli.Firmware.Download.Waiting.{IsConfirmed, ota_confirmed-IsConfirmed}

-- What is planned for a payload and a reply to OTA STATUS: the confirmed status that the reply reads
-- as, the version behind its own, and the package of the payload with that version.
abbrev pub IsPlanned : Identity → Bytes → Bytes → Plan → Type 0
IsPlanned identity reply payload plan =
    (plan.identity ≡ identity)
    × (parse_ota_status reply ≡ ok plan.before)
    × IsConfirmed plan.before
    × IsStatus plan.before
    × (plan.version ≡ plan.before.version + 1)
    × (make_ota_package payload plan.version ≡ ok plan.upgrade)

assembled :
    (payload reply : Bytes) (identity : Identity) (before : OtaStatus) (upgrade : Bytes)
    (plan : Plan)
    → parse_ota_status reply ≡ ok before
    → IsConfirmed before
    → IsStatus before
    → make_ota_package payload (before.version + 1) ≡ ok upgrade
    → ok (record {
      identity = identity;
      before = before;
      version = before.version + 1;
      upgrade = upgrade;
    })
      ≡ ok plan
    → IsPlanned identity reply payload plan
assembled payload reply identity before upgrade plan p c i m h =
    let whole : Plan = record {
      identity = identity;
      before = before;
      version = before.version + 1;
      upgrade = upgrade;
    } in
    let same : whole ≡ plan = cc in
    subst (IsPlanned identity reply payload) same (refl, p, c, i, refl, m)

plan_from-IsPlanned :
    (payload : Bytes) (identity : Identity) (reply : Bytes) (plan : Plan)
    → plan_from payload identity reply ≡ ok plan
    → IsPlanned identity reply payload plan
unfolding plan_from
plan_from-IsPlanned payload identity reply plan h =
    let (before, e1, h1) = bind-eq-ok (parse_ota_status reply) _ h in
    let (d1, e2, h2) = bind-eq-ok (require (ota_confirmed before) _) _ h1 in
    let (d2, e3, h3) = bind-eq-ok (require (ltb before.version 0xfffffffe) _) _ h2 in
    let (upgrade, e4, h4) = bind-eq-ok (make_ota_package payload (before.version + 1)) _ h3 in
    assembled payload reply identity before upgrade plan e1
      (ota_confirmed-IsConfirmed before (require-eq-ok (ota_confirmed before) _ e2))
      (parse_ota_status-IsStatus reply before e1) e4 h4

module _ {W : Type 0} (platform : Platform W) (endpoint filename extension : Bytes)
    (file : File) where
  -- The gateway is asked for its status at most.
  abbrev pub AfterPrepare : Session W → Result Plan → Session W → Type 0
  AfterPrepare s (err e) t = (t.log ≡ s.log) ⊎ (t.log ≡ sent endpoint (codes "OTA STATUS") ∷ s.log)
  AfterPrepare s (ok plan) t =
      (t.log ≡ sent endpoint (codes "OTA STATUS") ∷ s.log)
      × (payload : Bytes) × (identity : Identity) × (reply : Bytes) × (load_ota_firmware filename
            extension file
          ≡ ok payload)
      × ((platform.identify endpoint s.world).0 ≡ ok identity)
      × ((platform.command endpoint (codes "OTA STATUS") (platform.identify endpoint s.world).1).0
          ≡ ok reply)
      × IsPlanned identity reply payload plan

  pub prepare-After :
      (s : Session W) → Post (AfterPrepare s) (prepare platform endpoint filename extension file s)
  unfolding prepare
  prepare-After s =
      let identified = platform.identify endpoint s.world in
      let answered = platform.command endpoint (codes "OTA STATUS") identified.1 in
      let Q = AfterPrepare s in
      Post-result Q _ (load_ota_firmware filename extension file) s (λ e. inl refl)
        (λ payload h.
          Post-result Q _ identified.0 _ (λ e. inl refl)
            (λ identity h1.
              Post-result Q _ (require (length identity.serial == 32 && is_hex identity.serial) _) _
                (λ e. inl refl)
                (λ done h2.
                  Post-result Q _ answered.0 _ (λ e. inr refl)
                    (λ reply h3.
                      result payload identity reply (plan_from payload identity reply)
                        (record {
                          world = answered.1;
                          log = sent endpoint (codes "OTA STATUS") ∷ s.log;
                        })
                        h h1 h3 (plan_from-IsPlanned payload identity reply) refl))))
    where
      result :
          (payload : Bytes) (identity : Identity) (reply : Bytes) (r : Result Plan) (t : Session W)
          → load_ota_firmware filename extension file ≡ ok payload
          → (platform.identify endpoint s.world).0 ≡ ok identity
          → (platform.command endpoint
              (codes "OTA STATUS")
              (platform.identify endpoint s.world).1).0
            ≡ ok reply
          → ((plan : Plan) → r ≡ ok plan → IsPlanned identity reply payload plan)
          → t.log ≡ sent endpoint (codes "OTA STATUS") ∷ s.log
          → AfterPrepare s r t
      result payload identity reply (err e) t h i a f same = inr same
      result payload identity reply (ok plan) t h i a f same =
          (same, payload, identity, reply, h, i, a, f plan refl)
