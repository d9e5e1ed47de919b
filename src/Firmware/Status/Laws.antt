-- ===== src/Firmware/Status/Laws.antt =====
-- A reply to OTA STATUS is read back from its fields.
use encos_cli.Base.{
  ℕ, ◌-◌, ◌≤◌, ◌<◌, ◌^◌, ◌≡◌, refl, sym, ap, ◌∙◌, Bool, true, false, not, ◌&&◌, some, [], ◌∷◌, ◌++◌,
  Bytes, codes, is_empty, ok, runtime_error, throw_if, arith, All, Lacks, append_assoc, append-nil,
  map, starts_with, up_to, behind, drop, bind-eq-ok,
}
use encos_cli.Number.{is_space, stoul, decimal}
use encos_cli.Number.RoundTrip.{IsDigit, decimal-All, decimal-StartsWithDigit, stoul-decimal}
use encos_cli.Firmware.Status.{
  OtaStatus, Fields, tokens_behind, all_digits, find_field, is_some, add_field, add_fields,
  status_from, get_field, checked, parse_ota_status, ota_confirmed, check_ota_result,
}

abbrev IsSolid : Bytes → Type 0
IsSolid = All (λ c. is_space c ≡ false)

abbrev pub render_field : Bytes × ℕ → Bytes
render_field (name, value) = name ++ b'=' ∷ decimal value

abbrev pub render_rest : Fields → Bytes
render_rest [] = []
render_rest (f ∷ fields) = b' ' ∷ render_field f ++ render_rest fields

-- The reply that lists one field or more.
abbrev pub render_reply : Bytes × ℕ → Fields → Bytes
render_reply f fields = codes "OK OTA " ++ (render_field f ++ render_rest fields)

-- No name stands twice.
unfoldable pub all_new : Fields → Fields → Bool
all_new before [] = true
all_new before ((name, value) ∷ fields) =
    not (is_some (find_field name before)) && all_new (before ++ (name, value) ∷ []) fields

-- A name has neither blanks nor `=`, and a value is a word of 32 bits.
abbrev pub IsField : Bytes × ℕ → Type 0
IsField (name, value) = All (λ c. is_space c ≡ false) name × Lacks b'=' name × (value < 2 ^ 32)

tokens_behind-append :
    (w s t : Bytes) → IsSolid w → tokens_behind (w ++ s) t ≡ tokens_behind s (t ++ w)
unfolding tokens_behind
tokens_behind-append [] s t h = ap (tokens_behind s) (sym (append-nil t))
tokens_behind-append (c ∷ w) s t (h, hs) =
    rw (h, tokens_behind-append w s (t ++ c ∷ []) hs, append_assoc) refl

digits-IsSolid : (s : Bytes) → All IsDigit s → IsSolid s
digits-IsSolid [] h = tt
digits-IsSolid (c ∷ s) (h, hs) = (ground arith, digits-IsSolid s hs)

All-append-IsSolid : (v w : Bytes) → IsSolid v → IsSolid w → IsSolid (v ++ w)
All-append-IsSolid [] w hv hw = hw
All-append-IsSolid (c ∷ v) w (h, hs) hw = (h, All-append-IsSolid v w hs hw)

field-IsSolid : (f : Bytes × ℕ) → IsField f → IsSolid (render_field f)
field-IsSolid (name, value) (solid, lacks, small) =
    All-append-IsSolid name (b'=' ∷ decimal value) solid
      (refl, digits-IsSolid (decimal value) (decimal-All value))

not_empty-append : (v : Bytes) (c : ℕ) (w : Bytes) → is_empty (v ++ c ∷ w) ≡ false
not_empty-append [] c w = refl
not_empty-append (d ∷ v) c w = refl

tokens-end : (w : Bytes) → IsSolid w → is_empty w ≡ false → tokens_behind (w ++ []) [] ≡ w ∷ []
unfolding tokens_behind
tokens-end w h full = rw (tokens_behind-append w [] [] h, full) refl

tokens-blank :
    (w s : Bytes)
    → IsSolid w
    → is_empty w ≡ false
    → tokens_behind (w ++ b' ' ∷ s) [] ≡ w ∷ tokens_behind s []
unfolding tokens_behind
tokens-blank w s h full = rw (tokens_behind-append w (b' ' ∷ s) [] h, full) refl

field-not_empty : (f : Bytes × ℕ) → is_empty (render_field f) ≡ false
field-not_empty (name, value) = not_empty-append name b'=' (decimal value)

tokens-render :
    (f : Bytes × ℕ) (fields : Fields)
    → IsField f
    → All IsField fields
    → tokens_behind (render_field f ++ render_rest fields) [] ≡ map render_field (f ∷ fields)
tokens-render f [] h hs = tokens-end (render_field f) (field-IsSolid f h) (field-not_empty f)
tokens-render f (g ∷ fields) h (hg, hs) =
    tokens-blank (render_field f) (render_field g ++ render_rest fields) (field-IsSolid f h)
      (field-not_empty f)
    ∙ ap (λ l. render_field f ∷ l) (tokens-render g fields hg hs)

up_to-field : (name s : Bytes) → Lacks b'=' name → up_to b'=' (name ++ b'=' ∷ s) ≡ name
unfolding up_to
up_to-field [] s h = refl
up_to-field (c ∷ name) s (h, hs) = ground (arith, up_to-field name s hs)

behind-field : (name s : Bytes) → Lacks b'=' name → behind b'=' (name ++ b'=' ∷ s) ≡ some s
unfolding behind
behind-field [] s h = refl
behind-field (c ∷ name) s (h, hs) = ground (arith, behind-field name s hs)

pub all_digits-All : (s : Bytes) → All IsDigit s → all_digits s ≡ true
unfolding all_digits
all_digits-All [] h = refl
all_digits-All (c ∷ s) (h, hs) = ground (arith, all_digits-All s hs)

pub decimal-not_empty : (n : ℕ) → is_empty (decimal n) ≡ false
decimal-not_empty n = let (c, t, e, d) = decimal-StartsWithDigit n in rw e refl

pub stoul-value : (n : ℕ) → n < 2 ^ 32 → stoul 10 (decimal n) ≡ ok (n, [])
stoul-value n h =
    let e : stoul 10 (decimal n ++ []) ≡ ok (n, []) = stoul-decimal n [] (omega arith) tt in
    rw append-nil at e

add_field-render :
    (reply name : Bytes) (value : ℕ) (before : Fields)
    → value < 2 ^ 32
    → is_some (find_field name before) ≡ false
    → add_field reply name (some (decimal value)) before ≡ ok (before ++ (name, value) ∷ [])
add_field-render reply name value before h new =
    rw
      (
        decimal-not_empty value,
        all_digits-All (decimal value) (decimal-All value),
        stoul-value value h,
        new,
      )
      (ground arith)

add_fields-render :
    (reply : Bytes) (fields before : Fields)
    → All IsField fields
    → all_new before fields ≡ true
    → add_fields reply (map render_field fields) before ≡ ok (before ++ fields)
unfolding add_fields all_new
add_fields-render reply [] before hs new = ap ok (sym (append-nil before))
add_fields-render reply ((name, value) ∷ fields) before ((solid, lacks, small), hs) new =
    let fresh : is_some (find_field name before) ≡ false = ground arith in
    let next : all_new (before ++ (name, value) ∷ []) fields ≡ true = ground arith in
    rw
      (
        up_to-field name (decimal value) lacks,
        behind-field name (decimal value) lacks,
        add_field-render reply name value before small fresh,
        add_fields-render reply fields (before ++ (name, value) ∷ []) hs next,
        append_assoc,
      )
      refl

-- A reply is read as the list of its fields.
pub parse_ota_status_fields :
    (f : Bytes × ℕ) (fields : Fields)
    → All IsField (f ∷ fields)
    → all_new [] (f ∷ fields) ≡ true
    → parse_ota_status (render_reply f fields) ≡ status_from (f ∷ fields)
unfolding parse_ota_status
parse_ota_status_fields f fields (h, hs) new =
    rw
      (
        tokens-render f fields h hs,
        add_fields-render (render_reply f fields) (f ∷ fields) [] (h, hs) new,
      )
      refl

-- What the rest of the download may rely on.
abbrev pub IsStatus : OtaStatus → Type 0
IsStatus s = (s.slot < 2) × (s.ready ≤ 1)

checked-IsStatus : (s out : OtaStatus) → checked s ≡ ok out → IsStatus out
checked-IsStatus s out h = ground arith

status_from-IsStatus :
    (fields : Fields) (out : OtaStatus) → status_from fields ≡ ok out → IsStatus out
unfolding status_from
status_from-IsStatus fields out h =
    let (slot, e1, h1) = bind-eq-ok (get_field (codes "SLOT") fields) _ h in
    let (version, e2, h2) = bind-eq-ok (get_field (codes "VERSION") fields) _ h1 in
    let (confirmed, e3, h3) = bind-eq-ok (get_field (codes "CONFIRMED") fields) _ h2 in
    let (pending, e4, h4) = bind-eq-ok (get_field (codes "PENDING") fields) _ h3 in
    let (ready, e5, h5) = bind-eq-ok (get_field (codes "READY") fields) _ h4 in
    checked-IsStatus
      (record {
        slot = slot;
        version = version;
        confirmed = confirmed;
        pending = pending;
        ready = ready;
      })
      out h5

pub parse_ota_status-IsStatus :
    (reply : Bytes) (out : OtaStatus) → parse_ota_status reply ≡ ok out → IsStatus out
unfolding parse_ota_status
parse_ota_status-IsStatus reply out h =
    let (done, e1, h1) =
      bind-eq-ok
        (throw_if (not (starts_with reply (codes "OK OTA ")))
          (runtime_error "OTA STATUS failed: " reply))
        _ h in
    let (fields, e2, h2) =
      bind-eq-ok (add_fields reply (tokens_behind (drop 7 reply) []) []) _ h1 in
    status_from-IsStatus fields out h2

pub check_ota_result-eq-ok :
    (before after : OtaStatus) (version : ℕ) {done : Unit {0}}
    → check_ota_result before after version ≡ ok done
    → (ota_confirmed after ≡ true) × (after.slot ≡ 1 - before.slot) × (after.version ≡ version)
unfolding check_ota_result
check_ota_result-eq-ok before after version h = ground (arith)
