-- ===== src/Bench/Laws.antt =====
-- The bench targets that are accepted.
use encos_cli.Base.{
  ℕ, ◌<◌, ◌^◌, ◌≡◌, refl, ap, sym, ◌∙◌, Option, none, some, [], ◌∷◌, ◌++◌, Bytes, ok, arith,
  append-nil,
}
use encos_cli.Base.Int.{ℤ, pos}
use encos_cli.Number.{to_string, stoi}
use encos_cli.Number.RoundTrip.{stoi-to_string}
use encos_cli.Trajectory.Connection.{split_colon_separated}
use encos_cli.Trajectory.Connection.RoundTrip.{
  IsName, split-append, split-Lacks, to_string-Lacks, not_empty,
}
use encos_cli.Bench.{BenchTarget, parse_positive_int, bench_target_of, parse_bench_target}

-- A decimal number below 2^31 is read back.
parse_positive_int-decimal :
    (n : ℕ) → n < 2 ^ 31 → parse_positive_int (to_string (pos n)) ≡ ok (pos n)
unfolding parse_positive_int
parse_positive_int-decimal n h =
    let e : stoi 10 (to_string (pos n)) ≡ ok (pos n, []) =
      ap (λ s. stoi 10 s) (sym (append-nil (to_string (pos n))))
      ∙ stoi-to_string (pos n) [] (omega arith, omega arith) tt in
    rw e (ground arith)

abbrev pub bench_target : Bytes → Bytes → Option ℤ → Option ℤ → BenchTarget
bench_target type id bus motor = record {
  adapter_type = type;
  adapter_id = id;
  bus_id = bus;
  motor_id = motor;
}

module _ (type id : Bytes) (t : IsName type) (i : IsName id) where
  adapter_read : parse_bench_target (type ++ (b':' ∷ id)) ≡ ok (bench_target type id none none)
  unfolding parse_bench_target bench_target_of
  adapter_read =
      let e : split_colon_separated (type ++ (b':' ∷ id)) ≡ type ∷ id ∷ [] =
        split-append type id t.1 ∙ ap (λ l. type ∷ l) (split-Lacks id i.1) in
      rw (e, not_empty type t.0, not_empty id i.0) refl

  bus_read :
      (bus : ℕ)
      → bus < 2 ^ 31
      → parse_bench_target (type ++ (b':' ∷ (id ++ (b':' ∷ to_string (pos bus)))))
        ≡ ok (bench_target type id (some (pos bus)) none)
  unfolding parse_bench_target bench_target_of
  bus_read bus h =
      let b = to_string (pos bus) in
      let e : split_colon_separated (type ++ (b':' ∷ (id ++ (b':' ∷ b)))) ≡ type ∷ id ∷ b ∷ [] =
        split-append type (id ++ (b':' ∷ b)) t.1
        ∙ ap (λ l. type ∷ l)
            (split-append id b i.1
              ∙ ap (λ l. id ∷ l) (split-Lacks b (to_string-Lacks (pos bus)))) in
      rw (e, not_empty type t.0, not_empty id i.0, parse_positive_int-decimal bus h) refl

  motor_read :
      (bus motor : ℕ)
      → bus < 2 ^ 31
      → motor < 2 ^ 31
      → parse_bench_target (
          type ++ (b':' ∷ (id ++ (b':' ∷ (to_string (pos bus) ++ (b':' ∷ to_string (pos motor)))))))
        ≡ ok (bench_target type id (some (pos bus)) (some (pos motor)))
  unfolding parse_bench_target bench_target_of
  motor_read bus motor h k =
      let b = to_string (pos bus) in
      let m = to_string (pos motor) in
      let e : split_colon_separated (type ++ (b':' ∷ (id ++ (b':' ∷ (b ++ (b':' ∷ m))))))
          ≡ type ∷ id ∷ b ∷ m ∷ [] =
        split-append type (id ++ (b':' ∷ (b ++ (b':' ∷ m)))) t.1
        ∙ ap (λ l. type ∷ l)
            (split-append id (b ++ (b':' ∷ m)) i.1
              ∙ ap (λ l. id ∷ l)
                  (split-append b m (to_string-Lacks (pos bus))
                    ∙ ap (λ l. b ∷ l) (split-Lacks m (to_string-Lacks (pos motor))))) in
      rw
        (
          e,
          not_empty type t.0,
          not_empty id i.0,
          parse_positive_int-decimal bus h,
          parse_positive_int-decimal motor k,
        )
        refl

-- Names that are not empty and hold no colon, and a bus and a motor below 2^31 in decimal: the three
-- forms of a bench target, of the adapter, of a bus and of a motor, are read as what they spell.
pub parse_bench_target_complete :
    (type id : Bytes) (bus motor : ℕ)
    → IsName type
    → IsName id
    → bus < 2 ^ 31
    → motor < 2 ^ 31
    → (parse_bench_target (type ++ (b':' ∷ id)) ≡ ok (bench_target type id none none))
      × (parse_bench_target (type ++ (b':' ∷ (id ++ (b':' ∷ to_string (pos bus)))))
          ≡ ok (bench_target type id (some (pos bus)) none))
      × (parse_bench_target (
            type
            ++ (b':' ∷ (id ++ (b':' ∷ (to_string (pos bus) ++ (b':' ∷ to_string (pos motor)))))))
          ≡ ok (bench_target type id (some (pos bus)) (some (pos motor))))
parse_bench_target_complete type id bus motor t i h k =
    (adapter_read type id t i, bus_read type id t i bus h, motor_read type id t i bus motor h k)
