-- ===== src/Firmware/Download/Installation.antt =====
-- From `OTA ENTER` to the end of DownloadFirmware.
use encos_cli.Base.{
  ℕ, suc, ◌+◌, ◌≡◌, ◌⊎◌, refl, ap, false, not, List, [], ◌∷◌, Bytes, codes, is_empty, str_eq, ◌=:◌,
  Result, ok, err, inl, inr, throw_if, runtime_error,
}
use encos_cli.Firmware.Words.{require}
use encos_cli.Firmware.Status.{OtaStatus}
use encos_cli.Firmware.Download.{
  Platform, Action, sent, written, Session, Plan, path_join, install, write_and_wait,
  wait_for_volume, wait_for_startup,
}
use encos_cli.Firmware.Download.Posts.{Post, Post-result, Post-weaken, Post-continue}
use encos_cli.Firmware.Download.Waiting.{
  writes, entries, IsInstalled, IsAnswer, AfterStartup, wait_for_volume-SameLog,
  wait_for_startup-After,
}

module _ {W : Type 0} (platform : Platform W) (endpoint : Bytes) (plan : Plan) where
  -- The package is written once at most, and once when the update is confirmed.
  abbrev pub AfterInstall : List Action → Result OtaStatus → Session W → Type 0
  AfterInstall log (err e) s =
      (entries s.log ≡ suc (entries log))
      × ((writes s.log ≡ writes log)
          ⊎ ((path : Bytes) × (writes s.log ≡ (path, plan.upgrade) ∷ writes log)))
  AfterInstall log (ok status) s =
      (entries s.log ≡ suc (entries log))
      × (path : Bytes) × (writes s.log ≡ (path, plan.upgrade) ∷ writes log)
      × IsInstalled plan.before plan.version status
      × IsAnswer platform plan.identity status s

  -- What the second loop leaves, seen from before the write.
  started-After :
      (log : List Action) (path : Bytes) (r : Result OtaStatus) (s : Session W)
      → AfterStartup platform plan.identity plan.before plan.version
          (written path plan.upgrade ∷ sent endpoint (codes "OTA ENTER") ∷ log)
          r
          s
      → AfterInstall log r s
  unfolding writes entries
  started-After log path (err e) s (kw, ke) = (ke, inr (path, kw))
  started-After log path (ok status) s (installed, answer, kw, ke) =
      (ke, path, kw, installed, answer)

  startup-After :
      (fuel : ℕ) (log : List Action) (path : Bytes) (s : Session W)
      → s.log ≡ written path plan.upgrade ∷ sent endpoint (codes "OTA ENTER") ∷ log
      → Post (AfterInstall log) (
          wait_for_startup platform fuel plan.identity
            (platform.now s.world + 100000)
            plan.before
            plan.version
            []
            s)
  startup-After fuel log path s same =
      Post-weaken
        (AfterStartup platform plan.identity plan.before plan.version
          (written path plan.upgrade ∷ sent endpoint (codes "OTA ENTER") ∷ log))
        (AfterInstall log) _ (started-After log path)
        (wait_for_startup-After platform plan.identity plan.before plan.version
          (written path plan.upgrade ∷ sent endpoint (codes "OTA ENTER") ∷ log) fuel
          (platform.now s.world + 100000) [] s (ap writes same, ap entries same))

  write_and_wait-After :
      (fuel : ℕ) (volume : Bytes) (log : List Action) (s : Session W)
      → s.log ≡ sent endpoint (codes "OTA ENTER") ∷ log
      → Post (AfterInstall log) (write_and_wait platform fuel plan volume s)
  unfolding write_and_wait writes entries
  write_and_wait-After fuel volume log s same =
      let Q = AfterInstall log in
      let found = platform.find_volume plan.identity s.world in
      let path : Bytes = path_join volume (codes "usb_device_update.upd") in
      let wrote = platform.write_package path plan.upgrade found.1 in
      let once = ap entries same in
      let none_yet = ap writes same in
      Post-result Q _ (require (not (is_empty volume)) _) s (λ e. (once, inl none_yet))
        (λ d1 h1.
          Post-result Q _ found.0 _ (λ e. (once, inl none_yet))
            (λ again h2.
              Post-result Q _ (require (str_eq again volume) _) _ (λ e. (once, inl none_yet))
                (λ d2 h3.
                  Post-result Q _ wrote.0
                    (record { world = wrote.1; log = written path plan.upgrade ∷ s.log })
                    (λ e. (once, inr (path, ap (λ l. (path, plan.upgrade) ∷ writes l) same)))
                    (λ d3 h4.
                      startup-After fuel log path
                        (record { world = wrote.1; log = written path plan.upgrade ∷ s.log })
                        (ap (λ l. written path plan.upgrade ∷ l) same)))))

  pub install-After :
      (fuel : ℕ) (s : Session W) → Post (AfterInstall s.log) (install platform fuel endpoint plan s)
  unfolding install writes entries
  install-After fuel s =
      let Q = AfterInstall s.log in
      let entered = platform.command endpoint (codes "OTA ENTER") s.world in
      let t : Session W = record {
        world = entered.1;
        log = sent endpoint (codes "OTA ENTER") ∷ s.log;
      } in
      Post-result Q _ entered.0 t (λ e. (refl, inl refl))
        (λ reply h1.
          Post-result Q _
            (throw_if (not (reply =: "OK OTA REBOOT")) (runtime_error "Cannot enter OTA: " reply)) t
            (λ e. (refl, inl refl))
            (λ done h2.
              Post-continue (λ r u. u.log ≡ t.log) Q (write_and_wait platform fuel plan)
                (wait_for_volume platform fuel plan.identity (platform.now t.world)
                  (platform.now t.world + 40000) false t)
                (wait_for_volume-SameLog platform fuel plan.identity (platform.now t.world)
                  (platform.now t.world + 40000) false t)
                (λ e u same. (ap entries same, inl (ap writes same)))
                (λ volume u same. write_and_wait-After fuel volume s.log u same)))
