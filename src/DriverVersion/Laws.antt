-- ===== src/DriverVersion/Laws.antt =====
-- A printed version is supported exactly when it is a 4.0.
use encos_cli.Base.{
  ℕ, suc, ◌+◌, ◌-◌, ◌*◌, ◌^◌, ◌<◌, ◌≤◌, ◌≡◌, refl, ap, sym, ◌∙◌, ◌&&◌, Option, none, some, [], ◌∷◌,
  ◌++◌, append-nil, Bytes, ◌==◌, All, Lacks, arith, inl,
}
use encos_cli.Number.{decimal, scan_digits}
use encos_cli.Number.RoundTrip.{
  IsDigit, decimal-All, decimal-Lacks, scan_digits-decimal, decimal-StartsWithDigit,
}
use encos_cli.DriverVersion.{
  component_loop, parse_version_component, cut_point, version_loop, parse_version, last_component,
  prepend, array_less, in_range, is_supported_encos_driver_version,
}

scan_digits-le : (s : Bytes) (p : ℕ) → All IsDigit s → p ≤ (scan_digits 10 s p).0
unfolding scan_digits
scan_digits-le [] p h = omega arith
scan_digits-le (c ∷ s) p (h, hs) = ground (arith, scan_digits-le s (p * 10 + (c - b'0')) hs)

component_loop-scan_digits :
    (s : Bytes) (p : ℕ)
    → All IsDigit s
    → (scan_digits 10 s p).0 < 2 ^ 32
    → component_loop p s ≡ some (scan_digits 10 s p).0
unfolding scan_digits component_loop
component_loop-scan_digits [] p h b = refl
component_loop-scan_digits (c ∷ s) p (h, hs) b = ground (
  arith,
  component_loop-scan_digits s (p * 10 + (c - b'0')) hs,
  scan_digits-le s (p * 10 + (c - b'0')) hs,
)

component_of :
    (s : Bytes) (c : ℕ) (t : Bytes)
    → s ≡ c ∷ t
    → All IsDigit s
    → (scan_digits 10 s 0).0 < 2 ^ 32
    → parse_version_component s ≡ some (scan_digits 10 s 0).0
unfolding parse_version_component
component_of [] c t e h b = cc
component_of (x ∷ s) c t e h b = component_loop-scan_digits (x ∷ s) 0 h b

parse_version_component-decimal :
    (n : ℕ) → n < 2 ^ 32 → parse_version_component (decimal n) ≡ some n
parse_version_component-decimal n h =
    let (c, t, e, d) = decimal-StartsWithDigit n in
    let scan : (scan_digits 10 (decimal n) 0) ≡ (n, []) =
      ap (λ s. scan_digits 10 s 0) (sym (append-nil (decimal n))) ∙ scan_digits-decimal n [] tt in
    let read : (scan_digits 10 (decimal n) 0).0 ≡ n = ap (λ (p : ℕ × Bytes). p.0) scan in
    component_of (decimal n) c t e (decimal-All n) (omega arith) ∙ ap (λ (m : ℕ). some m) read

cut_point-append : (s rest : Bytes) → Lacks b'.' s → cut_point (s ++ (b'.' ∷ rest)) ≡ (s, some rest)
unfolding cut_point
cut_point-append [] rest h = refl
cut_point-append (c ∷ s) rest (h, hs) = ground (arith, cut_point-append s rest hs)

cut_point-Lacks : (s : Bytes) → Lacks b'.' s → cut_point s ≡ (s, none)
unfolding cut_point
cut_point-Lacks [] h = refl
cut_point-Lacks (c ∷ s) (h, hs) = ground (arith, cut_point-Lacks s hs)

abbrev pub print_version : ℕ → ℕ → ℕ → Bytes
print_version major minor patch =
    decimal major ++ (b'.' ∷ (decimal minor ++ (b'.' ∷ decimal patch)))

point_free : (n : ℕ) → Lacks b'.' (decimal n)
point_free n = decimal-Lacks b'.' n (inl (omega arith))

version_loop_last :
    (text component : Bytes)
    → cut_point text ≡ (component, none)
    → version_loop 0 text ≡ last_component (parse_version_component component)
unfolding version_loop
version_loop_last text component e =
    let same : (cut_point text).0 ≡ component = ap (λ (p : Bytes × Option Bytes). p.0) e in
    rw (e, version_loop) (ap (λ (x : Bytes). last_component (parse_version_component x)) same)

version_loop_later :
    (later : ℕ) (text component rest : Bytes)
    → cut_point text ≡ (component, some rest)
    → version_loop (suc later) text
      ≡ prepend (parse_version_component component) (version_loop later rest)
unfolding version_loop
version_loop_later later text component rest e =
    let same : (cut_point text).0 ≡ component = ap (λ (p : Bytes × Option Bytes). p.0) e in
    rw (e, version_loop)
      (ap (λ (x : Bytes). prepend (parse_version_component x) (version_loop later rest)) same)

parse_version-print_version :
    (major minor patch : ℕ)
    → major < 2 ^ 32
    → minor < 2 ^ 32
    → patch < 2 ^ 32
    → parse_version (print_version major minor patch) ≡ some (major ∷ minor ∷ patch ∷ [])
unfolding parse_version
parse_version-print_version a b c ha hb hc =
    let tail = decimal b ++ (b'.' ∷ decimal c) in
    let first =
      version_loop_later 1 (print_version a b c) (decimal a) tail
        (cut_point-append (decimal a) tail (point_free a)) in
    let second =
      version_loop_later 0 tail (decimal b) (decimal c)
        (cut_point-append (decimal b) (decimal c) (point_free b)) in
    let third =
      version_loop_last (decimal c) (decimal c) (cut_point-Lacks (decimal c) (point_free c)) in
    first
    ∙ (rw
        (
          second,
          third,
          parse_version_component-decimal a ha,
          parse_version_component-decimal b hb,
          parse_version_component-decimal c hc,
        )
        refl)

four_zero : (a b c : ℕ) → in_range (some (a ∷ b ∷ c ∷ [])) ≡ (a == 4 && b == 0)
unfolding array_less
four_zero a b c = ground arith

-- A version printed from three 32-bit numbers is supported exactly when the first is 4 and the
-- second 0.
pub is_supported_encos_driver_version-print_version :
    (major minor patch : ℕ)
    → major < 2 ^ 32
    → minor < 2 ^ 32
    → patch < 2 ^ 32
    → is_supported_encos_driver_version (some (print_version major minor patch))
      ≡ (major == 4 && minor == 0)
unfolding is_supported_encos_driver_version
is_supported_encos_driver_version-print_version a b c ha hb hc =
    ap in_range (parse_version-print_version a b c ha hb hc) ∙ four_zero a b c
