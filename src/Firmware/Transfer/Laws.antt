-- ===== src/Firmware/Transfer/Laws.antt =====
-- What reaches the gateway's volume is the whole package, and mount points are read as they are.
use encos_cli.Base.{
  ℕ, ◌+◌, ◌-◌, ◌*◌, ◌%◌, ◌/◌, ◌<◌, ◌≡◌, refl, ap, sym, ◌∙◌, Bool, true, false, ◌||◌, List, [], ◌∷◌,
  ◌++◌, Bytes, ◌==◌, if◌then◌else◌, Result, ok, err, drop, take, Option, none, some, arith,
  append_assoc, append-nil, All, Bool-cases, inl, inr,
}
use encos_cli.Base.Vectors.{take-append-drop}
use encos_cli.Firmware.Transfer.{
  Written, interrupted, failed, count, write_loop, write_package_bytes, after_loop, unescape_mount,
  is_octal,
}

write_loop_complete :
    (answers : List Written) (bytes disk out : Bytes)
    → write_loop answers bytes disk ≡ some (ok out)
    → out ≡ disk ++ bytes
unfolding write_loop
write_loop_complete answers [] disk out h =
    let same : disk ≡ out = ground (arith, h) in sym same ∙ sym (append-nil disk)
write_loop_complete [] (b ∷ bytes) disk out h = cc
write_loop_complete (interrupted ∷ answers) (b ∷ bytes) disk out h =
    write_loop_complete answers (b ∷ bytes) disk out h
write_loop_complete (failed e ∷ answers) (b ∷ bytes) disk out h = cc
write_loop_complete (count n ∷ answers) (b ∷ bytes) disk out h =
    let rest : out ≡ (disk ++ b ∷ take n bytes) ++ drop n bytes =
      write_loop_complete answers (drop n bytes) (disk ++ b ∷ take n bytes) out h in
    rest
    ∙ append_assoc disk (b ∷ take n bytes) (drop n bytes)
    ∙ ap (λ l. disk ++ b ∷ l) (take-append-drop n bytes)

after_loop_complete :
    (flushed closed : Bool) (o : Option (Result Bytes)) (out : Bytes)
    → after_loop flushed closed o ≡ some (ok out)
    → (o ≡ some (ok out)) × (flushed ≡ true) × (closed ≡ true)
after_loop_complete flushed closed none out h = cc
after_loop_complete flushed closed (some (err e)) out h = cc
after_loop_complete flushed closed (some (ok disk)) out h = ground arith

-- Whatever the calls of `write` return, short counts and interruptions among them, a write that
-- succeeds leaves the whole package in the file, which was created, flushed and closed.
pub write_package_bytes_complete :
    (path : Bytes) (created : Bool) (answers : List Written) (flushed closed : Bool)
    (bytes out : Bytes)
    → write_package_bytes path created answers flushed closed bytes ≡ some (ok out)
    → (out ≡ bytes) × (created ≡ true) × (flushed ≡ true) × (closed ≡ true)
unfolding write_package_bytes
write_package_bytes_complete path true answers flushed closed bytes out h =
    let (e, f, c) = after_loop_complete flushed closed (write_loop answers bytes []) out h in
    (write_loop_complete answers bytes [] out e, refl, f, c)
write_package_bytes_complete path false answers flushed closed bytes out h = cc

-- How the kernel writes a path in the table of mounts: blanks and backslashes as octal numbers.
abbrev pub is_escaped : ℕ → Bool
is_escaped c = c == 32 || (c == 9 || (c == 10 || c == 92))

unfoldable pub escape_mount : Bytes → Bytes
escape_mount [] = []
escape_mount (c ∷ s) =
    let rest = escape_mount s in
    if is_escaped c
    then 92 ∷ (b'0' + c / 64) ∷ (b'0' + c / 8 % 8) ∷ (b'0' + c % 8) ∷ rest
    else c ∷ rest

unescape_nil : unescape_mount [] ≡ []
unfolding unescape_mount
unescape_nil = refl

unescape_plain :
    (c : ℕ) (t : Bytes) → c == 92 ≡ false → unescape_mount (c ∷ t) ≡ c ∷ unescape_mount t
unfolding unescape_mount
unescape_plain c [] h = refl
unescape_plain c (x ∷ []) h = refl
unescape_plain c (x ∷ y ∷ []) h = refl
unescape_plain c (x ∷ y ∷ z ∷ t) h = rw h refl

unescape_octal :
    (c : ℕ) (t : Bytes)
    → c < 256
    → unescape_mount (92 ∷ (b'0' + c / 64) ∷ (b'0' + c / 8 % 8) ∷ (b'0' + c % 8) ∷ t)
      ≡ c ∷ unescape_mount t
unfolding unescape_mount
unescape_octal c t h =
    let x : is_octal (b'0' + c / 64) ≡ true = ground arith in
    let y : is_octal (b'0' + c / 8 % 8) ≡ true = ground arith in
    let z : is_octal (b'0' + c % 8) ≡ true = ground arith in
    let value : ((b'0' + c / 64 - b'0') * 64
            + (b'0' + c / 8 % 8 - b'0') * 8
            + (b'0' + c % 8 - b'0'))
          % 256
        ≡ c =
      omega arith in
    rw (x, y, z, value) refl

-- Every path of bytes is read back from what the kernel writes for it.
pub unescape_mount-escape_mount :
    (path : Bytes) → All (λ c. c < 256) path → unescape_mount (escape_mount path) ≡ path
unfolding escape_mount
unescape_mount-escape_mount [] h = unescape_nil
unescape_mount-escape_mount (c ∷ path) (h, hs) = elim (Bool-cases (is_escaped c)) [
  | inl e ↦ rw e (
      unescape_octal c (escape_mount path) h
      ∙ ap (λ s. c ∷ s) (unescape_mount-escape_mount path hs))
  | inr e ↦ rw e (
      unescape_plain c (escape_mount path) (ground arith)
      ∙ ap (λ s. c ∷ s) (unescape_mount-escape_mount path hs))
]
