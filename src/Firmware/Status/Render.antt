-- ===== src/Firmware/Status/Render.antt =====
-- A reply to OTA STATUS is read as the status that its fields give.
use encos_cli.Base.{
  ℕ, ◌≡◌, ◌≢◌, ◌⊎◌, refl, sym, ◌∙◌, true, false, ◌&&◌, none, some, [], ◌∷◌, ◌++◌, Bytes, codes,
  str_eq, str_eq_iff, if◌then◌else◌, ltb, leb, ok, err, runtime_error, arith, All, append_assoc,
  Bool-cases, inl, inr,
}
use encos_cli.Firmware.Status.{OtaStatus, Fields, find_field, status_from, parse_ota_status}
use encos_cli.Firmware.Status.Laws.{IsField, render_reply, all_new, parse_ota_status_fields}

-- No name stands twice.
abbrev pub AreDistinct : Fields → Type 0
AreDistinct [] = Unit
AreDistinct ((name, value) ∷ fields) = All (λ f. name ≢ f.0) fields × AreDistinct fields

-- Somewhere among the fields stands this one.
abbrev pub Gives : Fields → Bytes → ℕ → Type 0
Gives [] name value = ⊥
Gives ((n, v) ∷ fields) name value = ((n ≡ name) × (v ≡ value)) ⊎ Gives fields name value

-- The fields give the five numbers of a status.
pub record GivesStatus (fields : Fields) (s : OtaStatus) : Type 0 where
  pub slot : Gives fields (codes "SLOT") s.slot
  pub version : Gives fields (codes "VERSION") s.version
  pub confirmed : Gives fields (codes "CONFIRMED") s.confirmed
  pub pending : Gives fields (codes "PENDING") s.pending
  pub ready : Gives fields (codes "READY") s.ready

str_eq-distinct : (a b : Bytes) → a ≢ b → str_eq a b ≡ false
str_eq-distinct a b d = elim (Bool-cases (str_eq a b)) [
  | inl e ↦ absurd (d ((str_eq_iff a b).0 e))
  | inr e ↦ e
]

Gives-other :
    (fields : Fields) (n name : Bytes) (value : ℕ)
    → All (λ f. n ≢ f.0) fields
    → Gives fields name value
    → n ≢ name
Gives-other ((m, v) ∷ fields) n name value (h, hs) (inl (e, _)) = λ k. h (k ∙ sym e)
Gives-other ((m, v) ∷ fields) n name value (h, hs) (inr g) = Gives-other fields n name value hs g
Gives-other [] n name value hs g = absurd g

find_field-Gives :
    (fields : Fields) (name : Bytes) (value : ℕ)
    → AreDistinct fields
    → Gives fields name value
    → find_field name fields ≡ some value
unfolding find_field
find_field-Gives [] name value d g = absurd g
find_field-Gives ((n, v) ∷ fields) name value (new, d) (inl (en, ev)) =
    rw ((str_eq_iff n name).1 en, ev) refl
find_field-Gives ((n, v) ∷ fields) name value (new, d) (inr g) =
    rw (str_eq-distinct n name (Gives-other fields n name value new g))
      (find_field-Gives fields name value d g)

-- Before a field of this name none has it.
not_before :
    (before fields : Fields) (name : Bytes) (value : ℕ)
    → AreDistinct (before ++ (name, value) ∷ fields)
    → find_field name before ≡ none
unfolding find_field
not_before [] fields name value d = refl
not_before ((n, v) ∷ before) fields name value (new, d) =
    rw (str_eq-distinct n name (All_middle before new)) (not_before before fields name value d)
  where
    All_middle :
        (before : Fields) → All (λ f. n ≢ f.0) (before ++ (name, value) ∷ fields) → n ≢ name
    All_middle [] (h, hs) = h
    All_middle (f ∷ before) (h, hs) = All_middle before hs

all_new-AreDistinct :
    (before fields : Fields) → AreDistinct (before ++ fields) → all_new before fields ≡ true
unfolding all_new
all_new-AreDistinct before [] d = refl
all_new-AreDistinct before ((name, value) ∷ fields) d =
    let later : AreDistinct ((before ++ (name, value) ∷ []) ++ fields) =
      rw (append_assoc before ((name, value) ∷ []) fields) d in
    rw
      (
        not_before before fields name value d,
        all_new-AreDistinct (before ++ (name, value) ∷ []) fields later,
      )
      refl

status_from-GivesStatus :
    (fields : Fields) (s : OtaStatus)
    → AreDistinct fields
    → GivesStatus fields s
    → status_from fields ≡ (
        if ltb s.slot 2 && leb s.ready 1
        then ok s
        else err (runtime_error "Invalid OTA slot or readiness" []))
unfolding status_from
status_from-GivesStatus fields s d g =
    rw
      (
        find_field-Gives fields (codes "SLOT") s.slot d g.slot,
        find_field-Gives fields (codes "VERSION") s.version d g.version,
        find_field-Gives fields (codes "CONFIRMED") s.confirmed d g.confirmed,
        find_field-Gives fields (codes "PENDING") s.pending d g.pending,
        find_field-Gives fields (codes "READY") s.ready d g.ready,
      )
      (ground arith)

-- A reply that lists fields with different names, which have neither blanks nor `=`, each a 32-bit
-- word, and among them in any order SLOT, VERSION, CONFIRMED, PENDING and READY, is read as the status
-- with the five values under these names, if the slot is below 2 and the readiness at most 1, and else
-- refused for them.
pub parse_ota_status-render :
    (f : Bytes × ℕ) (fields : Fields) (s : OtaStatus)
    → All IsField (f ∷ fields)
    → AreDistinct (f ∷ fields)
    → GivesStatus (f ∷ fields) s
    → parse_ota_status (render_reply f fields) ≡ (
        if ltb s.slot 2 && leb s.ready 1
        then ok s
        else err (runtime_error "Invalid OTA slot or readiness" []))
parse_ota_status-render f fields s h d g =
    parse_ota_status_fields f fields h (all_new-AreDistinct [] (f ∷ fields) d)
    ∙ status_from-GivesStatus (f ∷ fields) s d g
