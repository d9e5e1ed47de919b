-- ===== src/AdapterUtils/Laws.antt =====
-- What is left of the arguments, and the options that come out of them.
use encos_cli.Base.{
  ◌≡◌, refl, Bool, true, false, Option, none, some, List, [], ◌∷◌, Bytes, up_to, behind, Result, ok,
  err, ◌>>=◌, All, Bool-cases, Option-cases, inl, inr, Ensures, Ensures-bind, Ensures-any,
}
use encos_cli.AdapterUtils.{
  Doubles, AdapterTimingOptions, is_adapter_timing_option, assign_timing_option, is_positive,
  is_sample_point, validate, no_options, Stripped, keep, choose, strip_round, strip_loop,
  strip_adapter_timing_flags,
}

-- The text up to an equals sign is no timing option.
abbrev pub IsOther : Bytes → Type 0
IsOther argument = is_adapter_timing_option (up_to b'=' argument) ≡ false

module _ (D : Doubles) where
  open D use {Double}

  abbrev Others : Stripped D → Type 0
  Others s = All IsOther s.0

  keep-Others :
      (a : Bytes) (r : Result (Stripped D))
      → IsOther a
      → Ensures Others r
      → Ensures Others (r >>= keep D a)
  keep-Others a (ok s) h k = (h, k)
  keep-Others a (err e) h k = tt

  choose-Others :
      (b : Bool) (value : Option Bytes) (other next : Result (Stripped D))
      (inline : Bytes → Result (Stripped D))
      → (b ≡ false → Ensures Others other)
      → Ensures Others next
      → ((v : Bytes) → Ensures Others (inline v))
      → Ensures Others (choose D b value other next inline)
  choose-Others false value other next inline h k l = h refl
  choose-Others true none other next inline h k l = k
  choose-Others true (some v) other next inline h k l = l v

  strip_round-Others :
      (a next : Bytes) (options : AdapterTimingOptions D)
      (at_next behind_next : AdapterTimingOptions D → Result (Stripped D))
      → ((o : AdapterTimingOptions D) → Ensures Others (at_next o))
      → ((o : AdapterTimingOptions D) → Ensures Others (behind_next o))
      → Ensures Others (strip_round D a next options at_next behind_next)
  unfolding strip_round
  strip_round-Others a next options at_next behind_next p q =
      choose-Others (is_adapter_timing_option (up_to b'=' a)) (behind b'=' a) _ _ _
        (λ e. keep-Others a (at_next options) e (p options)) (after next behind_next q)
        (λ v. after v at_next p)
    where
      after :
          (v : Bytes) (then : AdapterTimingOptions D → Result (Stripped D))
          → ((o : AdapterTimingOptions D) → Ensures Others (then o))
          → Ensures Others (assign_timing_option D (up_to b'=' a) v options >>= then)
      after v then p =
          Ensures-bind (λ _. Unit {0}) Others (assign_timing_option D (up_to b'=' a) v options) then
            (Ensures-any (assign_timing_option D (up_to b'=' a) v options)) (λ o _. p o)

  strip_loop-Others :
      (arguments : List Bytes) (options : AdapterTimingOptions D)
      → Ensures Others (strip_loop D arguments options)
  unfolding strip_loop
  strip_loop-Others [] options = tt
  strip_loop-Others (a ∷ []) options = elim (Bool-cases (is_adapter_timing_option (up_to b'=' a))) [
    | inr e ↦ rw e (e, tt)
    | inl e ↦ rw e (elim (Option-cases (behind b'=' a)) [
      | inl n ↦ rw n tt
      | inr (v, n) ↦ rw n (
          Ensures-bind (λ _. Unit {0}) Others (assign_timing_option D (up_to b'=' a) v options)
            (λ o. ok ([], o)) (Ensures-any (assign_timing_option D (up_to b'=' a) v options))
            (λ o _. tt))
    ])
  ]
  strip_loop-Others (a ∷ next ∷ rest) options =
      strip_round-Others a next options (strip_loop D (next ∷ rest)) (strip_loop D rest)
        (strip_loop-Others (next ∷ rest)) (strip_loop-Others rest)

  -- Bitrates above 0 and sample points in (0, 1], where they are given.
  pub record IsInRange (o : AdapterTimingOptions D) : Type 0 where
    pub bitrate : is_positive D o.bitrate ≡ true
    pub dbitrate : is_positive D o.dbitrate ≡ true
    pub sample_point : is_sample_point D o.sample_point ≡ true
    pub dsample_point : is_sample_point D o.dsample_point ≡ true

  validate-IsInRange : (o : AdapterTimingOptions D) → Ensures (λ _. IsInRange o) (validate D o)
  unfolding validate
  validate-IsInRange o = elim (Bool-cases (is_positive D o.bitrate)) [
    | inr e ↦ rw e tt
    | inl e ↦ rw e (elim (Bool-cases (is_positive D o.dbitrate)) [
      | inr f ↦ rw f tt
      | inl f ↦ rw f (elim (Bool-cases (is_sample_point D o.sample_point)) [
        | inr g ↦ rw g tt
        | inl g ↦ rw g (elim (Bool-cases (is_sample_point D o.dsample_point)) [
          | inr h ↦ rw h tt
          | inl h ↦ rw h (record { bitrate = e; dbitrate = f; sample_point = g; dsample_point = h })
        ])
      ])
    ])
  ]

  -- When the timing options are stripped from arguments without an exception, no argument that is left
  -- is one of them, with or without a value behind `=`, and every option that was given is in range.
  pub strip_adapter_timing_flags-IsInRange :
      (arguments : List Bytes)
      → Ensures (λ s. All IsOther s.0 × IsInRange s.1) (strip_adapter_timing_flags D arguments)
  unfolding strip_adapter_timing_flags
  strip_adapter_timing_flags-IsInRange arguments =
      Ensures-bind Others (λ s. All IsOther s.0 × IsInRange s.1)
        (strip_loop D arguments (no_options D)) _ (strip_loop-Others arguments (no_options D))
        (λ (remaining, options) h.
          Ensures-bind (λ _. IsInRange options)
            (λ (s : Stripped D). All IsOther s.0 × IsInRange s.1) (validate D options)
            (λ _. ok (remaining, options)) (validate-IsInRange options) (λ _ k. (h, k)))

  strip_round_other :
      (a next : Bytes) (options : AdapterTimingOptions D)
      (at_next behind_next : AdapterTimingOptions D → Result (Stripped D)) {remaining : List Bytes}
      → IsOther a
      → at_next options ≡ ok (remaining, options)
      → strip_round D a next options at_next behind_next ≡ ok (a ∷ remaining, options)
  unfolding strip_round
  strip_round_other a next options at_next behind_next h e = rw (h, e) refl

  strip_loop_others :
      (arguments : List Bytes) (options : AdapterTimingOptions D)
      → All IsOther arguments
      → strip_loop D arguments options ≡ ok (arguments, options)
  unfolding strip_loop
  strip_loop_others [] options h = refl
  strip_loop_others (a ∷ []) options (h, hs) = rw h refl
  strip_loop_others (a ∷ b ∷ rest) options (h, hs) =
      strip_round_other a b options (strip_loop D (b ∷ rest)) (strip_loop D rest) h
        (strip_loop_others (b ∷ rest) options hs)

  -- Arguments with no timing option among them come out as they are, and no option is set.
  pub strip_adapter_timing_flags_others :
      (arguments : List Bytes)
      → All IsOther arguments
      → strip_adapter_timing_flags D arguments ≡ ok (arguments, no_options D)
  unfolding strip_adapter_timing_flags validate
  strip_adapter_timing_flags_others arguments h =
      rw (strip_loop_others arguments (no_options D) h) refl
