-- ===== src/Firmware/Download/Posts.antt =====
-- Postconditions of the pieces of DownloadFirmware, and how they compose.
use encos_cli.Base.{
  ◌≡◌, refl, Bool, true, false, Option, none, some, if◌then◌else◌, Result, ok, err, Error,
}
use encos_cli.Firmware.Download.{Session, Run, continue}

module _ {W A : Type 0} (Q : Result A → Session W → Type 0) where
  -- A postcondition of a piece that ends.
  abbrev pub Post : Option (Result A × Session W) → Type 0
  Post none = Unit
  Post (some (r, s)) = Q r s

  pub Post-if :
      (b : Bool) (x y : Option (Result A × Session W)) → Post x → Post y → Post (if b then x else y)
  Post-if true x y hx hy = hx
  Post-if false x y hx hy = hy

  pub Post-some :
      {r : Result A} {s : Session W} (o : Option (Result A × Session W))
      → Post o
      → o ≡ some (r, s)
      → Q r s
  Post-some o h e = rw e at h

module _ {W A : Type 0} where
  pub Post-weaken :
      (P Q : Result A → Session W → Type 0) (o : Option (Result A × Session W))
      → ((r : Result A) (s : Session W) → P r s → Q r s)
      → Post P o
      → Post Q o
  Post-weaken P Q none f h = tt
  Post-weaken P Q (some (r, s)) f h = f r s h

module _ {W A B : Type 0} (Q : Result B → Session W → Type 0) where
  -- What a call returned is known behind it.
  pub Post-result :
      (rest : A → Run W B) (r : Result A) (s : Session W)
      → ((e : Error) → Q (err e) s)
      → ((a : A) → r ≡ ok a → Post Q (rest a s))
      → Post Q (continue rest (some (r, s)))
  Post-result rest (err e) s f g = f e
  Post-result rest (ok a) s f g = g a refl

module _ {W A B : Type 0} where
  pub Post-continue :
      (P : Result A → Session W → Type 0) (Q : Result B → Session W → Type 0) (rest : A → Run W B)
      (o : Option (Result A × Session W))
      → Post P o
      → ((e : Error) (s : Session W) → P (err e) s → Q (err e) s)
      → ((a : A) (s : Session W) → P (ok a) s → Post Q (rest a s))
      → Post Q (continue rest o)
  Post-continue P Q rest none h f g = tt
  Post-continue P Q rest (some (err e, s)) h f g = f e s h
  Post-continue P Q rest (some (ok a, s)) h f g = g a s h
