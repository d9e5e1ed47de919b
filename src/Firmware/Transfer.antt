-- ===== src/Firmware/Transfer.antt =====
-- src/cli/firmware_download_platform.cc: `Command`, `UnescapeMount` and `WritePackage`, the branch
-- that is not Windows.
pub mod Laws
use encos_cli.Base.{
  ℕ, zero, suc, ◌+◌, ◌-◌, ◌*◌, ◌%◌, ◌/◌, Bool, true, false, not, ◌&&◌, ◌||◌, List, [], ◌∷◌, ◌++◌,
  Bytes, codes, leb, ltb, ◌==◌, if◌then◌else◌, Result, ok, err, runtime_error, ◌>>=◌, ◌>>◌,
  throw_if, drop, take, length, Option, none, some, ◌≡◌, refl,
}
use encos_cli.Firmware.Words.{require}

-- `'\r'` or `'\n'`.
abbrev pub is_line_end : ℕ → Bool
is_line_end c = c == 13 || c == 10

abbrev pub drop_end : ℕ → Bytes → Bytes
drop_end c [] = if is_line_end c then [] else c ∷ []
drop_end c (d ∷ rest) = c ∷ d ∷ rest

-- `while (!result.empty() && (back is '\r' or '\n')) result.pop_back()`, from the end on.
unfoldable pub trim_line_end : Bytes → Bytes
trim_line_end [] = []
trim_line_end (c ∷ s) = drop_end c (trim_line_end s)

unfoldable pub contains : ℕ → Bytes → Bool
contains c [] = false
contains c (d ∷ s) = d == c || contains c s

-- What the serial port answers: the device opened, the command written, and the text that was read.
pub record Serial : Type 0 where
  pub opened : Bool
  pub wrote : Bool
  pub reply : Bytes

-- `Command(endpoint, command)`. An empty text or one with no line end is no complete response.
unfoldable pub command_reply : Bytes → Bytes → Serial → Result Bytes
unfolding trim_line_end contains
command_reply endpoint command port = do
  throw_if (not port.opened) (runtime_error "Cannot open CDC device: " endpoint)
  throw_if (not port.wrote) (runtime_error "CDC write failed: " command)
  throw_if (not (contains 10 port.reply)) (runtime_error "No complete CDC response: " command)
  ok (trim_line_end port.reply)

abbrev pub is_octal : ℕ → Bool
is_octal c = leb b'0' c && leb c b'7'

-- `UnescapeMount`; the value is cast to a `char`.
unfoldable pub unescape_mount : Bytes → Bytes
unescape_mount (c ∷ x ∷ y ∷ z ∷ s) =
    let behind : Bytes = unescape_mount s in
    let next : Bytes = unescape_mount (x ∷ y ∷ z ∷ s) in
    if c == 92 && (is_octal x && (is_octal y && is_octal z))
    then ((x - b'0') * 64 + (y - b'0') * 8 + (z - b'0')) % 256 ∷ behind
    else c ∷ next
unescape_mount s = s

-- What a call of `write` returns: `EINTR`, another failure or nothing written, or `count n` for
-- `n + 1` bytes.
pub data Written : Type 0 where
  interrupted : Written
  failed : Bytes → Written
  count : ℕ → Written

-- The file after the loop of `WritePackage` on the answers of `write`; none while answers lack. What
-- is written is the front of the bytes that are left, and `offset` is the length of `disk`.
unfoldable pub write_loop : List Written → Bytes → Bytes → Option (Result Bytes)
write_loop answers [] disk = some (ok disk)
write_loop [] (b ∷ left) disk = none
write_loop (interrupted ∷ answers) (b ∷ left) disk = write_loop answers (b ∷ left) disk
write_loop (failed error ∷ answers) (b ∷ left) disk =
    some (err (runtime_error "USB write failed: " error))
write_loop (count n ∷ answers) (b ∷ left) disk =
    write_loop answers (drop n left) (disk ++ b ∷ take n left)

-- `fsync` and `close` behind the loop.
abbrev pub flush : Bool → Bool → Bytes → Result Bytes
flush flushed closed disk =
    require (flushed && closed) "USB firmware flush failed; update is not confirmed" >> ok disk

abbrev pub after_loop : Bool → Bool → Option (Result Bytes) → Option (Result Bytes)
after_loop flushed closed none = none
after_loop flushed closed (some r) = some (r >>= flush flushed closed)

-- `WritePackage(path, bytes)`: the file's bytes, from whether it was created and what the calls
-- returned.
unfoldable pub write_package_bytes :
    Bytes → Bool → List Written → Bool → Bool → Bytes → Option (Result Bytes)
unfolding write_loop
write_package_bytes path created answers flushed closed bytes =
    if created
    then after_loop flushed closed (write_loop answers bytes [])
    else some (err (runtime_error "Cannot create upgrade file: " path))

unescape_mount_runs : unescape_mount (codes "/media/My\\040Disk") ≡ codes "/media/My Disk"
unfolding unescape_mount
unescape_mount_runs = refl
