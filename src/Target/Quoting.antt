-- ===== src/Target/Quoting.antt =====
-- What `SplitColonSeparated` reads: parts joined by colons, each plain or between two `@`.
use encos_cli.Base.{
  ℕ, Bool, true, false, not, List, [], ◌∷◌, ◌++◌, ◌≡◌, ◌≢◌, ◌↔◌, refl, sym, ◌∙◌, ap, map, Bytes,
  ◌==◌, if◌then◌else◌, ok, arith, All, Lacks, append-nil, append_assoc, inl, inr, Bool-cases, err,
  runtime_error,
}
use encos_cli.Target.Split.{
  Splitter, split_step, split_loop, ends_quoted, drop_last, unquote, start, split_colon_separated,
}

pub record Part : Type 0 where
  pub quoted : Bool
  pub text : Bytes

-- No part holds an `@`, and a plain one holds no colon.
abbrev pub IsPart : Part → Type 0
IsPart p = Lacks b'@' p.text × (p.quoted ≡ false → Lacks b':' p.text)

abbrev pub written : Part → Bytes
written p = if p.quoted then b'@' ∷ (p.text ++ b'@' ∷ []) else p.text

abbrev pub spelled : Part → List Part → Bytes
spelled p [] = written p
spelled p (q ∷ qs) = written p ++ (b':' ∷ spelled q qs)

abbrev push : Splitter → Bytes → Splitter
push s t = record s { current = s.current ++ t }

split_step-push :
    (c : ℕ) (s : Splitter)
    → c ≢ b'@'
    → (s.in_quote ≡ false → c ≢ b':')
    → split_step c s ≡ push s (c ∷ [])
unfolding split_step
split_step-push c s h k = ground (arith, k)

-- One round of the loop, with `split_loop` shut.
split_loop-cons :
    (c : ℕ) (t : Bytes) (s : Splitter) → split_loop (c ∷ t) s ≡ split_loop t (split_step c s)
unfolding split_loop
split_loop-cons c t s = refl

split_loop-append :
    (t rest : Bytes) (s : Splitter)
    → Lacks b'@' t
    → (s.in_quote ≡ false → Lacks b':' t)
    → split_loop (t ++ rest) s ≡ split_loop rest (push s t)
split_loop-append [] rest s h k = rw append-nil
split_loop-append (c ∷ t) rest s (hc, h) k =
    split_loop-cons c (t ++ rest) s
    ∙ ap (split_loop (t ++ rest)) (split_step-push c s hc (λ e. (k e).0))
    ∙ split_loop-append t rest (push s (c ∷ [])) h (λ e. (k e).1)
    ∙ ap (λ u. split_loop rest (record s { current = u })) (append_assoc s.current (c ∷ []) t)

abbrev toggled : Splitter → Splitter
toggled s = record s { in_quote = not s.in_quote; current = s.current ++ b'@' ∷ [] }

split_loop-toggle : (t : Bytes) (s : Splitter) → split_loop (b'@' ∷ t) s ≡ split_loop t (toggled s)
unfolding split_loop
split_loop-toggle t s = refl

split_loop-quote :
    (t rest : Bytes) (s : Splitter)
    → s.in_quote ≡ false
    → Lacks b'@' t
    → split_loop (b'@' ∷ (t ++ (b'@' ∷ rest))) s
      ≡ split_loop rest (push s (b'@' ∷ (t ++ b'@' ∷ [])))
split_loop-quote t rest s e h =
    split_loop-toggle (t ++ (b'@' ∷ rest)) s
    ∙ split_loop-append t (b'@' ∷ rest) (toggled s) h (λ f. cc)
    ∙ split_loop-toggle rest (push (toggled s) t)
    ∙ ap (split_loop rest) (grind (arith, append_assoc))

split_loop-written :
    (p : Part) (rest : Bytes) (s : Splitter)
    → s.in_quote ≡ false
    → IsPart p
    → split_loop (written p ++ rest) s ≡ split_loop rest (push s (written p))
split_loop-written p rest s e (h, k) = elim (Bool-cases p.quoted) [
  | inl q ↦ rw (q, append_assoc) (split_loop-quote p.text rest s e h)
  | inr q ↦ rw q (split_loop-append p.text rest s h (λ _. k q))
]

split_loop-colon :
    (t : Bytes) (s : Splitter)
    → s.in_quote ≡ false
    → split_loop (b':' ∷ t) s
      ≡ split_loop t (record s { parts = s.parts ++ s.current ∷ []; current = [] })
unfolding split_loop
split_loop-colon t s e = rw e

-- The list of parts that the code has after the loop.
abbrev parts_of : Splitter → List Bytes
parts_of s = s.parts ++ s.current ∷ []

abbrev at : List Bytes → Splitter
at parts = record { parts = parts; current = []; in_quote = false }

abbrev written_all : Part → List Part → List Bytes
written_all p ps = written p ∷ map written ps

split_loop-spelled :
    (p : Part) (ps : List Part) (done : List Bytes)
    → IsPart p
    → All IsPart ps
    → (parts_of (split_loop (spelled p ps) (at done)) ≡ done ++ written_all p ps)
      × ((split_loop (spelled p ps) (at done)).in_quote ≡ false)
split_loop-spelled p [] done h hs =
    let e : split_loop (written p) (at done) ≡ push (at done) (written p) =
      ap (λ t. split_loop t (at done)) (sym (append-nil (written p)))
      ∙ split_loop-written p [] (at done) refl h
      ∙ unfold split_loop in refl in
    rw e (refl, refl)
split_loop-spelled p (q ∷ qs) done h (hq, hs) =
    let e : split_loop (spelled p (q ∷ qs)) (at done)
        ≡ split_loop (spelled q qs) (at (done ++ written p ∷ [])) =
      split_loop-written p (b':' ∷ spelled q qs) (at done) refl h
      ∙ split_loop-colon (spelled q qs) (push (at done) (written p)) refl in
    let (ih, closed) = split_loop-spelled q qs (done ++ written p ∷ []) hq hs in
    rw e (ih ∙ append_assoc done (written p ∷ []) (written_all q qs), closed)

drop_last-append : (t : Bytes) (c : ℕ) → drop_last (t ++ c ∷ []) ≡ t
unfolding drop_last
drop_last-append [] c = refl
drop_last-append (a ∷ []) c = refl
drop_last-append (a ∷ b ∷ t) c = ap (◌∷◌ a) (drop_last-append (b ∷ t) c)

ends_quoted-append : (t : Bytes) → ends_quoted (t ++ b'@' ∷ []) ≡ true
unfolding ends_quoted
ends_quoted-append [] = refl
ends_quoted-append (a ∷ []) = refl
ends_quoted-append (a ∷ b ∷ t) = ends_quoted-append (b ∷ t)

unquote_plain : (t : Bytes) → Lacks b'@' t → unquote t ≡ t
unfolding unquote
unquote_plain [] h = refl
unquote_plain (c ∷ []) h = refl
unquote_plain (c ∷ d ∷ t) (hc, h) = ground arith

unquote_closed :
    (d : ℕ) (s : Bytes) → ends_quoted (d ∷ s) ≡ true → unquote (b'@' ∷ d ∷ s) ≡ drop_last (d ∷ s)
unfolding unquote
unquote_closed d s e = rw e

unquote_quoted : (t : Bytes) → unquote (b'@' ∷ (t ++ b'@' ∷ [])) ≡ t
unquote_quoted [] = unfold unquote in refl
unquote_quoted (c ∷ t) =
    unquote_closed c (t ++ b'@' ∷ []) (ends_quoted-append (c ∷ t)) ∙ drop_last-append (c ∷ t) b'@'

unquote-written : (p : Part) → IsPart p → unquote (written p) ≡ p.text
unquote-written p (h, k) = elim (Bool-cases p.quoted) [
  | inl q ↦ rw q (unquote_quoted p.text)
  | inr q ↦ rw q (unquote_plain p.text h)
]

map-unquote : (ps : List Part) → All IsPart ps → map unquote (map written ps) ≡ map (λ p. p.text) ps
map-unquote [] h = refl
map-unquote (p ∷ ps) (h, hs) = cc (unquote-written p h, map-unquote ps hs)

split_colon_separated_lem :
    (value : Bytes)
    → (split_loop value start).in_quote ≡ false
    → split_colon_separated value ≡ ok (map unquote (parts_of (split_loop value start)))
unfolding split_colon_separated
split_colon_separated_lem value e = rw e

-- Parts joined by colons are split into their texts: a part holds no `@`, and holds colons only
-- if it is written between two `@`.
pub split_colon_separated-spelled :
    (p : Part) (ps : List Part)
    → IsPart p
    → All IsPart ps
    → split_colon_separated (spelled p ps) ≡ ok (p.text ∷ map (λ q. q.text) ps)
split_colon_separated-spelled p ps h hs =
    let (e, closed) = split_loop-spelled p ps [] h hs in
    split_colon_separated_lem (spelled p ps) closed
    ∙ ap (λ parts. ok (map unquote parts)) e
    ∙ ap ok (cc (unquote-written p h, map-unquote ps hs))

-- Whether the text holds an odd number of `@`.
abbrev pub is_unbalanced : Bytes → Bool
is_unbalanced [] = false
is_unbalanced (c ∷ s) = if c == b'@' then not (is_unbalanced s) else is_unbalanced s

abbrev toggled_by : Bool → Bool → Bool
toggled_by q b = if b then not q else q

split_loop-is_unbalanced :
    (t : Bytes) (s : Splitter) → (split_loop t s).in_quote ≡ toggled_by s.in_quote (is_unbalanced t)
unfolding split_loop
split_loop-is_unbalanced [] s = refl
split_loop-is_unbalanced (c ∷ t) s = ground (arith, split_loop-is_unbalanced t (split_step c s))

split_colon_separated_open :
    (value : Bytes)
    → (split_loop value start).in_quote ≡ true
    → split_colon_separated value ≡ err (runtime_error "Invalid target, unbalanced '@'" value)
unfolding split_colon_separated
split_colon_separated_open value e = rw e

-- Splitting fails exactly on the texts with an odd number of `@`.
pub split_colon_separated-is_unbalanced :
    (value : Bytes)
    → ((parts : List Bytes) × (split_colon_separated value ≡ ok parts))
      ↔ (is_unbalanced value ≡ false)
split_colon_separated-is_unbalanced value = elim (Bool-cases (is_unbalanced value)) [
  | inl e ↦ (
    λ (parts, read).
        cc
          (split_colon_separated_open value (ground (arith, split_loop-is_unbalanced value start))),
    λ h. cc,
  )
  | inr e ↦ (
    λ _. e,
    λ _.
        (_, split_colon_separated_lem value (ground (arith, split_loop-is_unbalanced value start))),
  )
]
