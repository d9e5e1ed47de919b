-- ===== src/Command/Pms/Laws.antt =====
-- The channels of an accepted `pms` command.
use encos_cli.Base.{
  ◌≡◌, refl, ◌∙◌, false, ◌||◌, List, [], ◌∷◌, ◌++◌, append_assoc, append-nil, Bytes, ok, arith,
  Ensures, Ensures-bind, Ensures-ok, ◌↔◌, ◌>>=◌, Result-cases, inl, inr, Bool-cases,
}
use encos_cli.Command.Pms.{
  PmsChannel, same_channel, parse_pms_channel, has_channel, channel_step, channel_loop,
}

-- No channel is listed twice.
abbrev pub IsDistinct : List PmsChannel → Type 0
IsDistinct [] = Unit
IsDistinct (c ∷ cs) = (has_channel c cs ≡ false) × IsDistinct cs

-- Each name is the name of the channel in its place.
abbrev pub Names : List Bytes → List PmsChannel → Type 0
Names [] [] = Unit
Names (a ∷ names) (c ∷ cs) = (parse_pms_channel a ≡ ok c) × Names names cs
Names _ _ = ⊥

same_channel_comm : (a b : PmsChannel) → same_channel a b ≡ same_channel b a
same_channel_comm a b = ground arith

has_channel-concat :
    (c d : PmsChannel) (cs : List PmsChannel)
    → has_channel c (cs ++ d ∷ []) ≡ (has_channel c cs || same_channel d c)
unfolding has_channel
has_channel-concat c d [] = ground arith
has_channel-concat c d (e ∷ cs) = ground (arith, has_channel-concat c d cs)

IsDistinct-concat :
    (d : PmsChannel) (cs : List PmsChannel)
    → IsDistinct cs
    → has_channel d cs ≡ false
    → IsDistinct (cs ++ d ∷ [])
IsDistinct-concat d [] h e = unfold has_channel in (refl, tt)
IsDistinct-concat d (c ∷ cs) (h, hs) e = (
  rw has_channel-concat (unfold has_channel in ground (arith, same_channel_comm c d)),
  IsDistinct-concat d cs hs (unfold has_channel in ground arith),
)

has_channel-append :
    (d : PmsChannel) (old : List PmsChannel) (c : PmsChannel) (new : List PmsChannel)
    → has_channel d (old ++ c ∷ new) ≡ false
    → same_channel c d ≡ false
unfolding has_channel
has_channel-append d [] c new h = ground arith
has_channel-append d (e ∷ old) c new h = has_channel-append d old c new (ground arith)

IsDistinct-has_channel :
    (old : List PmsChannel) (c : PmsChannel) (new : List PmsChannel)
    → IsDistinct (old ++ c ∷ new)
    → has_channel c old ≡ false
unfolding has_channel
IsDistinct-has_channel [] c new h = refl
IsDistinct-has_channel (d ∷ old) c new (h, hs) = ground (
  arith,
  same_channel_comm c d,
  has_channel-append d old c new h,
  IsDistinct-has_channel old c new hs,
)

abbrev Step : Bytes → List PmsChannel → List PmsChannel → Type 0
Step a old all =
    (c : PmsChannel) × (parse_pms_channel a ≡ ok c)
    × (has_channel c old ≡ false)
    × (all ≡ old ++ c ∷ [])

channel_step-Ensures :
    (a : Bytes) (old : List PmsChannel) → Ensures (Step a old) (channel_step a old)
unfolding channel_step
channel_step-Ensures a old = elim (Result-cases (parse_pms_channel a)) [
  | inr (error, e) ↦ rw e tt
  | inl (c, e) ↦ elim (Bool-cases (has_channel c old)) [
    | inl f ↦ rw (e, f) tt
    | inr f ↦ rw (e, f) (c, e, f, refl)
  ]
]

-- The channels read so far, and those that the names left add.
abbrev Adds : List Bytes → List PmsChannel → List PmsChannel → Type 0
Adds names old all = (new : List PmsChannel) × Names names new × (all ≡ old ++ new)

channel_loop-Ensures :
    (names : List Bytes) (old : List PmsChannel)
    → IsDistinct old
    → Ensures (λ all. IsDistinct all × Adds names old all) (channel_loop names old)
channel_loop-Ensures [] old h = unfold channel_loop in (h, ([], tt, rw append-nil refl))
channel_loop-Ensures (a ∷ names) old h = channel_loop_cons a names old (
    Ensures-bind (Step a old) _ (channel_step a old) (channel_loop names)
      (channel_step-Ensures a old)
      λ all (c, read, fresh, e).
        weaken c read all e
          (channel_loop-Ensures names all (rw e (IsDistinct-concat c old h fresh))))
  where
    channel_loop_cons :
        (a : Bytes) (names : List Bytes) (old : List PmsChannel)
        → Ensures
            (λ all. IsDistinct all × Adds (a ∷ names) old all)
            (channel_step a old >>= channel_loop names)
        → Ensures (λ all. IsDistinct all × Adds (a ∷ names) old all) (channel_loop (a ∷ names) old)
    channel_loop_cons a names old h = unfold channel_loop in h

    weaken :
        (c : PmsChannel)
        → parse_pms_channel a ≡ ok c
        → (all : List PmsChannel) → all ≡ old ++ c ∷ []
        → Ensures (λ cs. IsDistinct cs × Adds names all cs) (channel_loop names all)
        → Ensures (λ cs. IsDistinct cs × Adds (a ∷ names) old cs) (channel_loop names all)
    weaken c read all e h = elim (Result-cases (channel_loop names all)) [
      | inr (error, f) ↦ rw f tt
      | inl (cs, f) ↦
          let (distinct, (new, named, g)) = Ensures-ok _ (channel_loop names all) h f in
          rw f (distinct, (c ∷ new, (read, named), g ∙ rw (e, append_assoc) refl))
    ]

channel_step-ok :
    (a : Bytes) (old : List PmsChannel) (c : PmsChannel)
    → parse_pms_channel a ≡ ok c
    → has_channel c old ≡ false
    → channel_step a old ≡ ok (old ++ c ∷ [])
unfolding channel_step
channel_step-ok a old c e f = rw (e, f) refl

channel_loop-cons :
    (a : Bytes) (names : List Bytes) (old all : List PmsChannel)
    → channel_step a old ≡ ok all
    → channel_loop (a ∷ names) old ≡ channel_loop names all
channel_loop-cons a names old all e = unfold channel_loop in rw e refl

channel_loop-ok :
    (names : List Bytes) (old new : List PmsChannel)
    → Names names new
    → IsDistinct (old ++ new)
    → channel_loop names old ≡ ok (old ++ new)
channel_loop-ok [] old [] n h = unfold channel_loop in rw append-nil refl
channel_loop-ok [] old (c ∷ new) n h = absurd n
channel_loop-ok (a ∷ names) old [] n h = absurd n
channel_loop-ok (a ∷ names) old (c ∷ new) (read, n) h =
    let fresh = IsDistinct-has_channel old c new h in
    channel_loop-cons a names old (old ++ c ∷ []) (channel_step-ok a old c read fresh)
    ∙ channel_loop-ok names (old ++ c ∷ []) new n (rw append_assoc h)
    ∙ rw append_assoc refl

-- The channel arguments are accepted as the list `cs` exactly if each names the channel in its place
-- of `cs` and no channel stands twice in it.
pub channel_loop_iff :
    (names : List Bytes) (cs : List PmsChannel)
    → (channel_loop names [] ≡ ok cs) ↔ (IsDistinct cs × Names names cs)
channel_loop_iff names cs = (
  (λ e.
      let (distinct, (new, named, f)) = Ensures-ok _ _ (channel_loop-Ensures names [] tt) e in
      (distinct, rw f named)),
  λ (distinct, named). channel_loop-ok names [] cs named distinct,
)
