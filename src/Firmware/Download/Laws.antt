-- ===== src/Firmware/Download/Laws.antt =====
-- DownloadFirmware: what a success means, what a failure leaves, and that it ends.
use encos_cli.Base.{
  ℕ, suc, ◌+◌, ◌/◌, ◌≡◌, ◌⊎◌, refl, ap, ◌∙◌, true, false, not, ◌&&◌, some, [], ◌∷◌, Bytes, codes,
  ◌==◌, length, is_empty, str_eq, ◌=:◌, Result, ok, err, Error, arith, throw_if, runtime_error,
}
use mathlib.Core.Path.{subst}
use encos_cli.Firmware.Words.{require}
use encos_cli.Firmware.Load.{File, load_ota_firmware}
use encos_cli.Firmware.Package.{make_ota_package, firmware_image}
use encos_cli.Firmware.Package.Blocks.{unpack}
use encos_cli.Firmware.Package.Laws.{
  DescribesPayload, unpack-pack, firmware_image-DescribesPayload, make_ota_package-eq-ok,
}
use encos_cli.Firmware.Status.{OtaStatus, parse_ota_status}
use encos_cli.Firmware.Download.{
  Identity, continue, Platform, sent, written, Session, Plan, path_join, prepare, is_hex, install,
  write_and_wait, download_firmware, wait_for_volume,
}
use encos_cli.Firmware.Download.Posts.{Post, Post-weaken, Post-continue, Post-some}
use encos_cli.Firmware.Download.Waiting.{writes, entries, IsConfirmed, IsAnswer}
use encos_cli.Firmware.Download.Installation.{AfterInstall, install-After}
use encos_cli.Firmware.Download.Termination.{
  IsForward, ends, Ends, Ends-continue, Ends-result, wait_for_volume-Ends, wait_for_startup-Ends,
}
use encos_cli.Firmware.Download.Preparation.{AfterPrepare, prepare-After}

-- The package that was written holds the payload, with the version that was confirmed.
abbrev pub CarriesPayload : Bytes → Bytes → ℕ → Type 0
CarriesPayload upgrade payload version =
    (image : Bytes) × (unpack ((4096 + length payload + 479) / 480) 0 version
        (4096 + length payload) upgrade
      ≡ some image)
    × DescribesPayload image payload version

package-CarriesPayload :
    (payload : Bytes) (version : ℕ) (upgrade : Bytes)
    → make_ota_package payload version ≡ ok upgrade
    → CarriesPayload upgrade payload version
package-CarriesPayload payload version upgrade h =
    let (small, word, same) = make_ota_package-eq-ok payload version upgrade h in
    (
      firmware_image payload version,
      subst
          (λ u.
            unpack ((4096 + length payload + 479) / 480) 0 version (4096 + length payload) u
            ≡ some (firmware_image payload version))
          same (unpack-pack payload version small word),
      firmware_image-DescribesPayload payload version small word,
    )

module _ {W : Type 0} (platform : Platform W) (fuel : ℕ) (endpoint filename extension : Bytes)
    (file : File) (s : Session W) where
  -- What a download that returns has done: the prior status is what the gateway's reply read as
  -- before the reboot, and the status that is returned is what its last reply reads as.
  pub record IsDownloaded (status : OtaStatus) (s' : Session W) : Type 0 where
    pub payload : Bytes
    pub identity : Identity
    pub reply : Bytes
    pub before : OtaStatus
    pub upgrade : Bytes
    pub path : Bytes
    pub loaded : load_ota_firmware filename extension file ≡ ok payload
    pub identified : (platform.identify endpoint s.world).0 ≡ ok identity
    pub replied :
        (platform.command endpoint (codes "OTA STATUS") (platform.identify endpoint s.world).1).0
        ≡ ok reply
    pub reported : parse_ota_status reply ≡ ok before
    pub was_confirmed : IsConfirmed before
    pub carries : CarriesPayload upgrade payload (before.version + 1)
    pub entered : entries s'.log ≡ suc (entries s.log)
    pub wrote : writes s'.log ≡ (path, upgrade) ∷ writes s.log
    pub answered : IsAnswer platform identity status s'
    pub is_confirmed : IsConfirmed status
    pub other_slot : status.slot + before.slot ≡ 1
    pub next_version : status.version ≡ before.version + 1

  abbrev AfterDownload : Result OtaStatus → Session W → Type 0
  AfterDownload (err e) s' = Unit
  AfterDownload (ok status) s' = IsDownloaded status s'

  installed-AfterDownload :
      (plan : Plan) (t : Session W)
      → AfterPrepare platform endpoint filename extension file s (ok plan) t
      → (r : Result OtaStatus) (s' : Session W) → AfterInstall platform endpoint plan t.log r s'
      → AfterDownload r s'
  unfolding writes entries
  installed-AfterDownload plan t h (err e) s' k = tt
  installed-AfterDownload plan t
        (same, payload, identity, reply, loaded, identified, replied, (i, p, c, st, v, m))
        (ok status) s' (ke, path, kw, (confirmed, slot, version), answer) =
      record {
        payload = payload;
        identity = identity;
        reply = reply;
        before = plan.before;
        upgrade = plan.upgrade;
        path = path;
        loaded = loaded;
        identified = identified;
        replied = replied;
        reported = p;
        was_confirmed = c;
        carries =
            package-CarriesPayload payload (plan.before.version + 1) plan.upgrade
              (subst (λ n. make_ota_package payload n ≡ ok plan.upgrade) v m);
        entered = ke ∙ ap (λ l. suc (entries l)) same;
        wrote = kw ∙ ap (λ l. (path, plan.upgrade) ∷ writes l) same;
        answered = subst (λ i. IsAnswer platform i status s') i answer;
        is_confirmed = confirmed;
        other_slot = let small = st.0 in omega arith;
        next_version = version ∙ v;
      }

  download-After :
      Post AfterDownload (download_firmware platform fuel endpoint filename extension file s)
  unfolding download_firmware
  download-After =
      Post-continue (AfterPrepare platform endpoint filename extension file s) AfterDownload
        (install platform fuel endpoint) (prepare platform endpoint filename extension file s)
        (prepare-After platform endpoint filename extension file s) (λ e t h. tt)
        (λ plan t h.
          Post-weaken (AfterInstall platform endpoint plan t.log) AfterDownload
            (install platform fuel endpoint plan t) (installed-AfterDownload plan t h)
            (install-After platform endpoint plan fuel t))

-- When the download returns, the file was loaded, the gateway's reply to its first question read as a
-- confirmed status, it was asked once to enter the bootloader, one package was written, which carries
-- the loaded payload with the version of that status plus one, and the gateway's last reply, on the
-- port that was found for its identity, reads as the status that is returned: confirmed, of that
-- version plus one, and in the other one of the slots 0 and 1.
pub download_firmware_success :
    {W : Type 0} (platform : Platform W) (fuel : ℕ) (endpoint filename extension : Bytes)
    (file : File) (s s' : Session W) (status : OtaStatus)
    → download_firmware platform fuel endpoint filename extension file s ≡ some (ok status, s')
    → IsDownloaded platform fuel endpoint filename extension file s status s'
download_firmware_success platform fuel endpoint filename extension file s s' status h =
    Post-some (AfterDownload platform fuel endpoint filename extension file s)
      (download_firmware platform fuel endpoint filename extension file s)
      (download-After platform fuel endpoint filename extension file s) h

-- When what comes before the reboot fails, the download ends with its error, and all that the
-- gateway was asked is its status, once at most.
pub download_firmware_refused :
    {W : Type 0} (platform : Platform W) (fuel : ℕ) (endpoint filename extension : Bytes)
    (file : File) (s s' : Session W) (e : Error)
    → prepare platform endpoint filename extension file s ≡ some (err e, s')
    → (download_firmware platform fuel endpoint filename extension file s ≡ some (err e, s'))
      × ((s'.log ≡ s.log) ⊎ (s'.log ≡ sent endpoint (codes "OTA STATUS") ∷ s.log))
unfolding download_firmware
download_firmware_refused platform fuel endpoint filename extension file s s' e h = (
  ap (continue (install platform fuel endpoint)) h,
  Post-some (AfterPrepare platform endpoint filename extension file s)
      (prepare platform endpoint filename extension file s)
      (prepare-After platform endpoint filename extension file s) h,
)

module _ {W : Type 0} (platform : Platform W) where
  prepare-Ends :
      (endpoint filename extension : Bytes) (file : File) (s : Session W)
      → Ends (prepare platform endpoint filename extension file s)
  unfolding prepare
  prepare-Ends endpoint filename extension file s =
      Ends-result _ (load_ota_firmware filename extension file) s (λ payload.
        Ends-result _ (platform.identify endpoint s.world).0 _ (λ identity.
          Ends-result _ (require (length identity.serial == 32 && is_hex identity.serial) _) _
            (λ done.
              Ends-result _
                (platform.command endpoint (codes "OTA STATUS")
                  (platform.identify endpoint s.world).1).0
                _ (λ reply. refl))))

  module _ (forward : IsForward platform) (plan : Plan) where
    write_and_wait-Ends :
        (volume : Bytes) (s : Session W) → Ends (write_and_wait platform 201 plan volume s)
    unfolding write_and_wait
    write_and_wait-Ends volume s =
        let found = platform.find_volume plan.identity s.world in
        let path : Bytes = path_join volume (codes "usb_device_update.upd") in
        let wrote = platform.write_package path plan.upgrade found.1 in
        let t : Session W = record { world = wrote.1; log = written path plan.upgrade ∷ s.log } in
        Ends-result _ (require (not (is_empty volume)) _) s (λ d1. Ends-result _ found.0 _ (λ again.
          Ends-result _ (require (str_eq again volume) _) _ (λ d2. Ends-result _ wrote.0 t (λ d3.
            wait_for_startup-Ends platform forward 200 plan.identity (platform.now wrote.1 + 100000)
              plan.before plan.version [] t (omega arith)))))

    install-Ends : (endpoint : Bytes) (s : Session W) → Ends (install platform 201 endpoint plan s)
    unfolding install
    install-Ends endpoint s =
        let entered = platform.command endpoint (codes "OTA ENTER") s.world in
        let t : Session W = record {
          world = entered.1;
          log = sent endpoint (codes "OTA ENTER") ∷ s.log;
        } in
        Ends-result _ entered.0 t (λ reply.
          Ends-result _
            (throw_if (not (reply =: "OK OTA REBOOT")) (runtime_error "Cannot enter OTA: " reply)) t
            (λ done.
              Ends-continue (write_and_wait platform 201 plan)
                (wait_for_volume platform 201 plan.identity (platform.now t.world)
                  (platform.now t.world + 40000) false t)
                (wait_for_volume-Ends platform forward 200 plan.identity (platform.now t.world)
                  (platform.now t.world + 40000) false t (omega arith))
                write_and_wait-Ends))

-- On a platform whose clock never goes back and whose sleeps last as long as they are asked to, the
-- download ends: 201 rounds of each loop are enough, whatever the gateway answers.
pub download_firmware-ends :
    {W : Type 0} (platform : Platform W) (forward : IsForward platform)
    (endpoint filename extension : Bytes) (file : File) (s : Session W)
    → ends (download_firmware platform 201 endpoint filename extension file s) ≡ true
unfolding download_firmware
download_firmware-ends platform forward endpoint filename extension file s =
    Ends-continue (install platform 201 endpoint)
      (prepare platform endpoint filename extension file s)
      (prepare-Ends platform endpoint filename extension file s)
      (λ plan t. install-Ends platform forward plan endpoint t)
