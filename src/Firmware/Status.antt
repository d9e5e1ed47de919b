-- ===== src/Firmware/Status.antt =====
-- src/cli/firmware_download.cc: `ParseOtaStatus`, `OtaConfirmed` and `CheckOtaResult`.
pub mod Laws
pub mod Render
use encos_cli.Base.{
  ℕ, zero, suc, ◌+◌, ◌-◌, Bool, true, false, not, ◌&&◌, ◌||◌, Option, none, some, List, [], ◌∷◌,
  ◌++◌, Bytes, codes, ltb, leb, ◌==◌, if◌then◌else◌, is_digit, is_empty, Result, ok, err,
  runtime_error, ◌>>=◌, ◌>>◌, throw_if, str_eq, starts_with, up_to, behind, drop, ◌≡◌, refl,
}
use encos_cli.Number.{is_space, stoul, decimal}
use encos_cli.Firmware.Words.{require}

pub record OtaStatus : Type 0 where
  pub slot : ℕ
  pub version : ℕ
  pub confirmed : ℕ
  pub pending : ℕ
  pub ready : ℕ

-- What `input >> token` reads, one after the other, behind the characters read of the first one.
unfoldable pub tokens_behind : Bytes → Bytes → List Bytes
tokens_behind [] token = if is_empty token then [] else token ∷ []
tokens_behind (c ∷ s) token =
    let fresh : List Bytes = tokens_behind s [] in
    let longer : List Bytes = tokens_behind s (token ++ c ∷ []) in
    if is_space c then (if is_empty token then fresh else token ∷ fresh) else longer

-- `find_first_not_of("0123456789") == npos`.
unfoldable pub all_digits : Bytes → Bool
all_digits [] = true
all_digits (c ∷ s) = is_digit c && all_digits s

-- `fields`, a `std::map`; no key stands twice.
abbrev pub Fields : Type 0
Fields = List (Bytes × ℕ)

unfoldable pub find_field : Bytes → Fields → Option ℕ
unfolding str_eq
find_field key [] = none
find_field key ((name, value) ∷ fields) =
    let rest : Option ℕ = find_field key fields in if str_eq name key then some value else rest

-- `fields.count(key) != 0`.
abbrev pub is_some : Option ℕ → Bool
is_some none = false
is_some (some n) = true

-- The rest of a round, on the name and the text behind the first `=`.
abbrev pub add_field : Bytes → Bytes → Option Bytes → Fields → Result Fields
add_field reply name none fields = err (runtime_error "Malformed OTA STATUS: " reply)
add_field reply name (some text) fields = do
  throw_if (not (not (is_empty text) && all_digits text))
      (runtime_error "Malformed OTA STATUS: " reply)
  value ← stoul 10 text
  done ←
      require (leb value.0 0xffffffff && not (is_some (find_field name fields)))
        "Invalid OTA STATUS field"
  ok (fields ++ (name, value.0) ∷ [])

unfoldable pub add_fields : Bytes → List Bytes → Fields → Result Fields
unfolding up_to behind find_field all_digits stoul
add_fields reply [] fields = ok fields
add_fields reply (token ∷ tokens) fields =
    add_field reply (up_to b'=' token) (behind b'=' token) fields >>= add_fields reply tokens

-- `fields[key]`, behind the check that it is there.
abbrev pub present : Bytes → Option ℕ → Result ℕ
present key none = err (runtime_error "Missing OTA STATUS field: " key)
present key (some value) = ok value

abbrev pub get_field : Bytes → Fields → Result ℕ
get_field key fields = present key (find_field key fields)

abbrev pub checked : OtaStatus → Result OtaStatus
checked status =
    require (ltb status.slot 2 && leb status.ready 1) "Invalid OTA slot or readiness" >> ok status

unfoldable pub status_from : Fields → Result OtaStatus
unfolding find_field
status_from fields = do
  slot ← get_field (codes "SLOT") fields
  version ← get_field (codes "VERSION") fields
  confirmed ← get_field (codes "CONFIRMED") fields
  pending ← get_field (codes "PENDING") fields
  ready ← get_field (codes "READY") fields
  checked (record {
    slot = slot;
    version = version;
    confirmed = confirmed;
    pending = pending;
    ready = ready;
  })

unfoldable pub parse_ota_status : Bytes → Result OtaStatus
unfolding starts_with tokens_behind add_fields status_from
parse_ota_status reply = do
  throw_if (not (starts_with reply (codes "OK OTA "))) (runtime_error "OTA STATUS failed: " reply)
  fields ← add_fields reply (tokens_behind (drop 7 reply) []) []
  status_from fields

unfoldable pub ota_confirmed : OtaStatus → Bool
ota_confirmed s = s.ready == 1 && (s.confirmed == s.slot && s.pending == 0xffffffff)

-- `1 - before.slot` is a 32-bit difference; a slot is below 2.
unfoldable pub check_ota_result : OtaStatus → OtaStatus → ℕ → Result (Unit {0})
unfolding ota_confirmed decimal
check_ota_result before after version = do
  done ← require (ota_confirmed after) "New firmware has not confirmed startup"
  throw_if (not (after.slot == 1 - before.slot && after.version == version)) (
      runtime_error "Firmware update failed or rolled back: expected alternate slot and version "
        (decimal version))

parse_ota_status_runs :
    (parse_ota_status (codes "OK OTA SLOT=1 VERSION=7 CONFIRMED=1 PENDING=4294967295 READY=1")
      ≡ ok (record { slot = 1; version = 7; confirmed = 1; pending = 4294967295; ready = 1 }))
    × (parse_ota_status (codes "OK OTA SLOT=1 SLOT=1")
        ≡ err (runtime_error "Invalid OTA STATUS field" []))
unfolding parse_ota_status
parse_ota_status_runs = (refl, refl)
