-- ===== src/Specs/Laws.antt =====
-- The resolved adapters are there, and none is opened twice.
use encos_cli.Base.{
  ◌≡◌, refl, sym, ◌∙◌, append_assoc, Bool, true, false, ◌||◌, List, [], ◌∷◌, ◌++◌, Bytes, str_eq,
  str_eq_iff, ◌=:◌, All, All-append, Ensures, Ensures-bind, Ensures-any, Bool-cases, inl, inr,
}
use encos_cli.Specs.{
  AdapterSpec, mem_text, parse_adapter_arg, dedup_key, has_key, add_spec, add_all, resolve_spec,
  resolve_from, resolve_adapter_specs,
}

-- No two specs have the same key.
abbrev pub Distinct : List AdapterSpec → Type 0
Distinct [] = Unit
Distinct (s ∷ specs) = (has_key (dedup_key s) specs ≡ false) × Distinct specs

str_eq_sym : (a b : Bytes) → str_eq a b ≡ false → str_eq b a ≡ false
str_eq_sym a b h = elim (Bool-cases (str_eq b a)) [
  | inr e ↦ e
  | inl e ↦ absurd (no ((str_eq_iff a b).1 (sym ((str_eq_iff b a).0 e))) h)
]
  where
    no : {x : Bool} → x ≡ true → x ≡ false → ⊥
    no p q = cc

or_false : (a b : Bool) → (a || b) ≡ false → (a ≡ false) × (b ≡ false)
or_false false b h = (refl, h)
or_false true b h = cc

has_key-snoc :
    (key : Bytes) (specs : List AdapterSpec) (s : AdapterSpec)
    → has_key key specs ≡ false
    → str_eq key (dedup_key s) ≡ false
    → has_key key (specs ++ (s ∷ [])) ≡ false
unfolding has_key
has_key-snoc key [] s h k = rw k refl
has_key-snoc key (x ∷ specs) s h k =
    let (first, rest) = or_false (str_eq key (dedup_key x)) (has_key key specs) h in
    rw first (has_key-snoc key specs s rest k)

Distinct-snoc :
    (specs : List AdapterSpec) (s : AdapterSpec)
    → Distinct specs
    → has_key (dedup_key s) specs ≡ false
    → Distinct (specs ++ (s ∷ []))
unfolding has_key
Distinct-snoc [] s h k = (refl, tt)
Distinct-snoc (x ∷ specs) s (h, hs) k =
    let (first, rest) =
      or_false (str_eq (dedup_key s) (dedup_key x)) (has_key (dedup_key s) specs) k in
    (
      has_key-snoc (dedup_key x) specs s h (str_eq_sym (dedup_key s) (dedup_key x) first),
      Distinct-snoc specs s hs rest,
    )

module _ (types : List Bytes) (interfaces : Bytes → List Bytes) where
  -- The type is known, and it has the interface.
  abbrev pub IsAvailable : AdapterSpec → Type 0
  IsAvailable s = (mem_text s.type types ≡ true) × (mem_text s.id (interfaces s.type) ≡ true)

  pub record AreSpecs (specs : List AdapterSpec) : Type 0 where
    pub available : All IsAvailable specs
    pub distinct : Distinct specs

  add_spec-AreSpecs :
      (s : AdapterSpec) (specs : List AdapterSpec)
      → IsAvailable s
      → AreSpecs specs
      → AreSpecs (add_spec s specs)
  unfolding add_spec
  add_spec-AreSpecs s specs a h = elim (Bool-cases (has_key (dedup_key s) specs)) [
    | inl e ↦ rw e h
    | inr e ↦ rw e (record {
      available = All-append IsAvailable specs (s ∷ []) h.available (a, tt);
      distinct = Distinct-snoc specs s h.distinct e;
    })
  ]

  or_true : (a : Bool) → (a || true) ≡ true
  or_true true = refl
  or_true false = refl

  str_eq_refl : (a : Bytes) → str_eq a a ≡ true
  str_eq_refl a = (str_eq_iff a a).1 refl

  mem_append : (x : Bytes) (before rest : List Bytes) → mem_text x (before ++ x ∷ rest) ≡ true
  unfolding mem_text
  mem_append x [] rest = rw (str_eq_refl x) refl
  mem_append x (y ∷ before) rest = rw (mem_append x before rest) (or_true (str_eq x y))

  add_all-AreSpecs :
      (type : Bytes) (before ids : List Bytes) (specs : List AdapterSpec)
      → mem_text type types ≡ true
      → interfaces type ≡ before ++ ids
      → AreSpecs specs
      → AreSpecs (add_all type ids specs)
  unfolding add_all
  add_all-AreSpecs type before [] specs t e h = h
  add_all-AreSpecs type before (id ∷ ids) specs t e h =
      let s : AdapterSpec = record { type = type; id = id } in
      let listed : mem_text id (interfaces type) ≡ true = rw e (mem_append id before ids) in
      add_all-AreSpecs type (before ++ (id ∷ [])) ids (add_spec s specs) t
        (e ∙ sym (append_assoc before (id ∷ []) ids)) (add_spec-AreSpecs s specs (t, listed) h)

  resolve_spec-AreSpecs :
      (s : AdapterSpec) (specs : List AdapterSpec)
      → AreSpecs specs
      → Ensures AreSpecs (resolve_spec types interfaces s specs)
  unfolding resolve_spec
  resolve_spec-AreSpecs s specs h = elim (Bool-cases (mem_text s.type types)) [
    | inr unknown ↦ rw unknown tt
    | inl known ↦ rw known (elim (Bool-cases (s.id =: "ALL")) [
      | inl all ↦ rw all (add_all-AreSpecs s.type [] (interfaces s.type) specs known refl h)
      | inr one ↦ rw one (elim (Bool-cases (mem_text s.id (interfaces s.type))) [
        | inr missing ↦ rw missing tt
        | inl listed ↦ rw listed (add_spec-AreSpecs s specs (known, listed) h)
      ])
    ])
  ]

  resolve_from-AreSpecs :
      (raw_specs : List Bytes) (specs : List AdapterSpec)
      → AreSpecs specs
      → Ensures AreSpecs (resolve_from types interfaces raw_specs specs)
  unfolding resolve_from
  resolve_from-AreSpecs [] specs h = h
  resolve_from-AreSpecs (raw ∷ raw_specs) specs h =
      Ensures-bind (λ _. Unit {0}) AreSpecs (parse_adapter_arg raw) _
        (Ensures-any (parse_adapter_arg raw))
        λ s _.
          Ensures-bind AreSpecs AreSpecs (resolve_spec types interfaces s specs) _
            (resolve_spec-AreSpecs s specs h) λ next k. resolve_from-AreSpecs raw_specs next k

  -- The adapters that the arguments resolve to, when they do, are of types and interfaces that the
  -- driver has, and no two have the same key of type and interface.
  pub resolve_adapter_specs-AreSpecs :
      (raw_specs : List Bytes) → Ensures AreSpecs (resolve_adapter_specs types interfaces raw_specs)
  unfolding resolve_adapter_specs
  resolve_adapter_specs-AreSpecs raw_specs =
      resolve_from-AreSpecs raw_specs [] (record { available = tt; distinct = tt })
