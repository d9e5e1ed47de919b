-- ===== src/InterfaceName/Laws.antt =====
-- Percent-encoded text is decoded to what was encoded, and a query to its first parameter of a name.
use encos_cli.Base.{
  ℕ, zero, suc, ◌+◌, ◌-◌, ◌*◌, ◌/◌, ◌%◌, ◌<◌, ◌≡◌, ◌≢◌, refl, ap, sym, ◌∙◌, true, false, some, List,
  [], ◌∷◌, ◌++◌, append-nil, Bytes, ltb, str_eq, str_eq_iff, starts_with, up_to, if◌then◌else◌,
  drop, length, All, Lacks, arith, Bool-cases, inl, inr,
}
use encos_cli.InterfaceName.{hex_digit, url_decode, query_loop, extract_query_parameter}

-- An upper-case hexadecimal digit.
abbrev pub hex : ℕ → ℕ
hex n = if ltb n 10 then b'0' + n else b'A' + (n - 10)

-- Every byte as a percent sign and two digits.
abbrev pub percent : Bytes → Bytes
percent [] = []
percent (b ∷ s) = b'%' ∷ hex (b / 16) ∷ hex (b % 16) ∷ percent s

hex_digit-hex : (n : ℕ) → n < 16 → hex_digit (hex n) ≡ some n
unfolding hex_digit
hex_digit-hex n h = ground arith

-- Every text of bytes other than 0 is read back from its percent-encoding, and what follows it is
-- decoded on its own.
pub url_decode-percent :
    (s rest : Bytes)
    → All (λ b. (0 < b) × (b < 256)) s
    → url_decode (percent s ++ rest) ≡ s ++ url_decode rest
unfolding url_decode
url_decode-percent [] rest h = refl
url_decode-percent (zero ∷ s) rest ((p, q), h) = absurd (omega arith)
url_decode-percent (suc n ∷ s) rest ((p, q), h) =
    let value : suc n / 16 * 16 + suc n % 16 ≡ suc n = omega arith in
    rw (hex_digit-hex (suc n / 16) (omega arith), hex_digit-hex (suc n % 16) (omega arith), value)
      (ap (λ t. suc n ∷ t) (url_decode-percent s rest h))

-- The parameters of a query, as text and as a list.
abbrev pub render : Bytes → Bytes → List (Bytes × Bytes) → Bytes
render key value [] = key ++ (b'=' ∷ value)
render key value ((k, v) ∷ params) = key ++ (b'=' ∷ (value ++ (b'&' ∷ render k v params)))

abbrev pub lookup : Bytes → List (Bytes × Bytes) → Bytes
lookup name [] = []
lookup name ((key, value) ∷ params) = if str_eq key name then value else lookup name params

abbrev pub IsParameter : Bytes × Bytes → Type 0
IsParameter (key, value) = Lacks b'=' key × Lacks b'&' key × Lacks b'&' value

abbrev prefix : Bytes → Bytes
prefix name = name ++ (b'=' ∷ [])

starts_with-prefix :
    (key name s : Bytes)
    → Lacks b'=' key
    → Lacks b'=' name
    → starts_with (key ++ (b'=' ∷ s)) (prefix name) ≡ str_eq key name
unfolding starts_with str_eq
starts_with-prefix [] [] s h k = refl
starts_with-prefix [] (n ∷ name) s h (k, ks) = ground arith
starts_with-prefix (c ∷ key) [] s (h, hs) k = ground arith
starts_with-prefix (c ∷ key) (n ∷ name) s (h, hs) (k, ks) =
    ground (arith, starts_with-prefix key name s hs ks)

query_loop_mismatch :
    (p s : Bytes) → starts_with s p ≡ false → query_loop p true s ≡ query_loop p false s
unfolding query_loop
query_loop_mismatch p [] h = refl
query_loop_mismatch p (c ∷ s) h = rw h refl

query_loop_match :
    (p s : Bytes)
    → starts_with s p ≡ true
    → s ≢ []
    → query_loop p true s ≡ url_decode (up_to b'&' (drop (length p) s))
unfolding query_loop
query_loop_match p [] h k = absurd (k refl)
query_loop_match p (c ∷ s) h k = rw h refl

query_loop-append :
    (p s rest : Bytes) → Lacks b'&' s → query_loop p false (s ++ rest) ≡ query_loop p false rest
unfolding query_loop
query_loop-append p [] rest h = refl
query_loop-append p (c ∷ s) rest (h, hs) = ground (arith, query_loop-append p s rest hs)

query_loop-separator : (p s : Bytes) → query_loop p false (b'&' ∷ s) ≡ query_loop p true s
unfolding query_loop
query_loop-separator p s = refl

drop-prefix : (name s : Bytes) → drop (length (prefix name)) (name ++ (b'=' ∷ s)) ≡ s
drop-prefix [] s = refl
drop-prefix (n ∷ name) s = drop-prefix name s

up_to-append : (value s : Bytes) → Lacks b'&' value → up_to b'&' (value ++ (b'&' ∷ s)) ≡ value
unfolding up_to
up_to-append [] s h = refl
up_to-append (c ∷ value) s (h, hs) = ground (arith, up_to-append value s hs)

up_to-Lacks : (value : Bytes) → Lacks b'&' value → up_to b'&' value ≡ value
unfolding up_to
up_to-Lacks [] h = refl
up_to-Lacks (c ∷ value) (h, hs) = ground (arith, up_to-Lacks value hs)

not_nil : (key s : Bytes) → key ++ (b'=' ∷ s) ≢ []
not_nil [] s e = cc
not_nil (c ∷ key) s e = cc

-- One parameter, with the text behind its equals sign.
found :
    (name key value s : Bytes)
    → Lacks b'=' name
    → IsParameter (key, value)
    → str_eq key name ≡ true
    → up_to b'&' s ≡ value
    → query_loop (prefix name) true (key ++ (b'=' ∷ s)) ≡ url_decode value
found name key value s hn (h, k, l) e u =
    let same : key ≡ name = (str_eq_iff key name).0 e in
    query_loop_match (prefix name) (key ++ (b'=' ∷ s)) (starts_with-prefix key name s h hn ∙ e)
      (not_nil key s)
    ∙ ap (λ t. url_decode (up_to b'&' (drop (length (prefix name)) (t ++ (b'=' ∷ s))))) same
    ∙ ap (λ t. url_decode (up_to b'&' t)) (drop-prefix name s)
    ∙ ap url_decode u

passed :
    (name key value s : Bytes)
    → Lacks b'=' name
    → IsParameter (key, value)
    → str_eq key name ≡ false
    → query_loop (prefix name) true (key ++ (b'=' ∷ (value ++ s)))
      ≡ query_loop (prefix name) false s
passed name key value s hn (h, k, l) e =
    query_loop_mismatch (prefix name) (key ++ (b'=' ∷ (value ++ s)))
      (starts_with-prefix key name (value ++ s) h hn ∙ e)
    ∙ query_loop-append (prefix name) key (b'=' ∷ (value ++ s)) k
    ∙ equals_sign
    ∙ query_loop-append (prefix name) value s l
  where
    equals_sign :
        query_loop (prefix name) false (b'=' ∷ (value ++ s))
        ≡ query_loop (prefix name) false (value ++ s)
    equals_sign = unfold query_loop in refl

nothing : (p : Bytes) → query_loop p false [] ≡ url_decode []
unfolding query_loop url_decode
nothing p = refl

render-extract :
    (name key value : Bytes) (params : List (Bytes × Bytes))
    → Lacks b'=' name
    → IsParameter (key, value)
    → All IsParameter params
    → query_loop (prefix name) true (render key value params)
      ≡ url_decode (lookup name ((key, value) ∷ params))
render-extract name key value [] hn h hs = elim (Bool-cases (str_eq key name)) [
  | inl e ↦ rw e (found name key value value hn h e (up_to-Lacks value h.2))
  | inr e ↦ rw e (
      ap (λ t. query_loop (prefix name) true (key ++ (b'=' ∷ t))) (sym (append-nil value))
      ∙ passed name key value [] hn h e
      ∙ nothing (prefix name))
]
render-extract name key value ((k, v) ∷ params) hn h (h', hs) =
    elim (Bool-cases (str_eq key name)) [
      | inl e ↦ rw e (
          found name key value (value ++ (b'&' ∷ render k v params)) hn h e
            (up_to-append value (render k v params) h.2))
      | inr e ↦ rw e (
          passed name key value (b'&' ∷ render k v params) hn h e
          ∙ query_loop-separator (prefix name) (render k v params)
          ∙ render-extract name k v params hn h' hs)
    ]

-- From a query of parameters whose keys have neither `=` nor `&` and whose values have no `&`, and for
-- a name without `=`, the value of the first parameter of that name is extracted and decoded; if there
-- is none, nothing is.
pub extract_query_parameter-render :
    (name key value : Bytes) (params : List (Bytes × Bytes))
    → Lacks b'=' name
    → IsParameter (key, value)
    → All IsParameter params
    → extract_query_parameter (render key value params) name
      ≡ url_decode (lookup name ((key, value) ∷ params))
unfolding extract_query_parameter
extract_query_parameter-render name key value params hn h hs =
    render-extract name key value params hn h hs
