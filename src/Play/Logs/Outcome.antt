-- ===== src/Play/Logs/Outcome.antt =====
-- What switching the logs on comes to, and the file that each motor's log has.
use encos_cli.Base.{
  ℕ, zero, suc, ◌+◌, ◌≡◌, ◌≢◌, ◌⊎◌, refl, sym, Bool, true, false, List, [], ◌∷◌, ◌++◌, append-nil,
  append_assoc, Bytes, All, Lacks, length, Result, ok, err, arith, Bool-cases, inl, inr,
}
use encos_cli.Number.{to_string, decimal}
use encos_cli.Number.RoundTrip.{decimal-Lacks, decimal_injective}
use encos_cli.Play.Logs.{
  sanitize_log_name, log_file_name, PlayLogs, LogAnswers, still_logging, disable_logs, enable_from,
  enable_logs, after_enabling,
}

-- The indices of so many motors.
abbrev pub count_from : ℕ → ℕ → List ℕ
count_from index zero = []
count_from index (suc n) = index ∷ count_from (index + 1) n

abbrev pub Left : List ℕ → LogAnswers → Type 0
Left l a = All (λ motor. a.closes motor ≡ false) l

still_logging-Left : (a : LogAnswers) (l : List ℕ) → Left (still_logging a l) a
unfolding still_logging
still_logging-Left a [] = tt
still_logging-Left a (x ∷ l) = elim (Bool-cases (a.closes x)) [
  | inl e ↦ rw e (still_logging-Left a l)
  | inr e ↦ rw e (e, still_logging-Left a l)
]

-- `EnableLog` has left each of the motors logged, in the file of its name and index.
abbrev pub AreOpened : (Bytes → Bytes → Bytes) → LogAnswers → Bytes → ℕ → List Bytes → Type 0
AreOpened join a directory index [] = Unit
AreOpened join a directory index (name ∷ names) =
    (a.enable index (join directory (log_file_name name index)) ≡ ok true)
    × AreOpened join a directory (index + 1) names

-- `EnableLog` has not left one of the motors logged, or has thrown.
abbrev pub IsRefused : (Bytes → Bytes → Bytes) → LogAnswers → Bytes → ℕ → List Bytes → Type 0
IsRefused join a directory index [] = ⊥
IsRefused join a directory index (name ∷ names) =
    (a.enable index (join directory (log_file_name name index)) ≢ ok true)
    ⊎ IsRefused join a directory (index + 1) names

-- An operation that switches the logs on says so, and then the motors are opened and logged; or it
-- says no, and then it has failed, and only those are logged whose log could not be closed.
abbrev pub Outcome : LogAnswers → Type 0 → Type 0 → List ℕ → PlayLogs × Bool → Type 0
Outcome a Opened Failed wanted (s, true) = Opened × (s.logging ≡ wanted) × (s.logs_enabled ≡ true)
Outcome a Opened Failed wanted (s, false) = Failed × Left s.logging a

-- The outcome for all of the motors with these names.
abbrev pub Switched :
    (Bytes → Bytes → Bytes) → LogAnswers → Bytes → List Bytes → PlayLogs × Bool → Type 0
Switched join a directory names =
    Outcome a (AreOpened join a directory 0 names)
      ((a.created directory ≡ false) ⊎ IsRefused join a directory 0 names)
      (count_from 0 (length names))

after_enabling-Outcome :
    (a : LogAnswers) (name : Bytes) (s : PlayLogs) (Opened Failed : Type 0) (wanted : List ℕ)
    (rest : PlayLogs × Bool) (answer : Result Bool)
    → Outcome a Opened Failed wanted rest
    → Outcome a
        ((answer ≡ ok true) × Opened)
        ((answer ≢ ok true) ⊎ Failed)
        wanted
        (after_enabling a name s rest answer)
unfolding after_enabling disable_logs
after_enabling-Outcome a name s Opened Failed wanted (t, true) (ok true) (o, l, e) =
    ((refl, o), l, e)
after_enabling-Outcome a name s Opened Failed wanted (t, false) (ok true) (f, h) = (inr f, h)
after_enabling-Outcome a name s Opened Failed wanted rest (ok false) h =
    (inl (λ e. cc), still_logging-Left a s.logging)
after_enabling-Outcome a name s Opened Failed wanted rest (err thrown) h =
    (inl (λ e. cc), still_logging-Left a s.logging)

enable_from-Outcome :
    (join : Bytes → Bytes → Bytes) (a : LogAnswers) (directory : Bytes) (index : ℕ)
    (names : List Bytes) (s : PlayLogs)
    → Outcome a
        (AreOpened join a directory index names)
        (IsRefused join a directory index names)
        (s.logging ++ count_from index (length names))
        (enable_from join a directory index names s)
unfolding enable_from
enable_from-Outcome join a directory index [] s = (tt, sym (append-nil s.logging), refl)
enable_from-Outcome join a directory index (name ∷ names) s =
    let entered : PlayLogs = record s { logging = s.logging ++ (index ∷ []) } in
    let ih = enable_from-Outcome join a directory (index + 1) names entered in
    after_enabling-Outcome a name entered (AreOpened join a directory (index + 1) names)
      (IsRefused join a directory (index + 1) names)
      (s.logging ++ count_from index (suc (length names)))
      (enable_from join a directory (index + 1) names entered)
      (a.enable index (join directory (log_file_name name index)))
      (rw (append_assoc s.logging (index ∷ []) (count_from (index + 1) (length names))) at ih)

Outcome-inr :
    (a : LogAnswers) (Opened Other Failed : Type 0) (wanted : List ℕ) (r : PlayLogs × Bool)
    → Outcome a Opened Failed wanted r
    → Outcome a Opened (Other ⊎ Failed) wanted r
Outcome-inr a Opened Other Failed wanted (s, true) h = h
Outcome-inr a Opened Other Failed wanted (s, false) (f, h) = (inr f, h)

-- With no motor logged, switching the logs on either succeeds, and then `EnableLog` has accepted
-- every monitored motor with the file of its name and index, every one is logged and the logs count
-- as enabled; or it fails, and then the directory could not be created or `EnableLog` has not accepted
-- one of the motors, and every log that was opened is closed again, but for those whose closing fails.
pub enable_logs-Switched :
    (join : Bytes → Bytes → Bytes) (a : LogAnswers) (directory : Bytes) (s : PlayLogs)
    → s.logging ≡ []
    → Switched join a directory s.monitored (enable_logs join a directory s)
unfolding enable_logs
enable_logs-Switched join a directory s e =
    let empty : PlayLogs = record s { logging = [] } in
    let from = enable_from-Outcome join a directory 0 s.monitored empty in
    let begun =
      Outcome-inr a (AreOpened join a directory 0 s.monitored) (true ≡ false)
        (IsRefused join a directory 0 s.monitored) (count_from 0 (length s.monitored))
        (enable_from join a directory 0 s.monitored empty) from in
    elim (Bool-cases (a.created directory)) [
      | inr k ↦ rw (e, k) (inl refl, tt)
      | inl k ↦ rw (e, k) begun
    ]

cons_tail : (x y : ℕ) (d e : Bytes) → x ∷ d ≡ y ∷ e → d ≡ e
cons_tail x y d e h = cc

cons_head : (x y : ℕ) (d e : Bytes) → x ∷ d ≡ y ∷ e → x ≡ y
cons_head x y d e h = cc

contained : (u : ℕ) (ys e d : Bytes) → d ≡ ys ++ (u ∷ e) → Lacks u d → ⊥
contained u [] e [] k h = cc
contained u [] e (x ∷ d) k (h, _) = h (cons_head x u d e k)
contained u (y ∷ ys) e [] k h = cc
contained u (y ∷ ys) e (x ∷ d) k (_, h) = contained u ys e d (cons_tail x y d (ys ++ (u ∷ e)) k) h

-- A character of a text that lacks it stands only where it was put.
behind_separator :
    (u : ℕ) (xs ys d e : Bytes) → Lacks u d → Lacks u e → xs ++ (u ∷ d) ≡ ys ++ (u ∷ e) → d ≡ e
behind_separator u [] [] d e hd he h = cons_tail u u d e h
behind_separator u [] (y ∷ ys) d e hd he h =
    absurd (contained u ys e d (cons_tail u y d (ys ++ (u ∷ e)) h) hd)
behind_separator u (x ∷ xs) [] d e hd he h =
    absurd (contained u xs d e (sym (cons_tail x u (xs ++ (u ∷ d)) e h)) he)
behind_separator u (x ∷ xs) (y ∷ ys) d e hd he h =
    behind_separator u xs ys d e hd he (cons_tail x y (xs ++ (u ∷ d)) (ys ++ (u ∷ e)) h)

-- The logs of two different motors are never written to the same file, whatever the motors are
-- called.
pub log_file_name_distinct :
    (name other : Bytes) (i j : ℕ) → i ≢ j → log_file_name name i ≢ log_file_name other j
unfolding log_file_name to_string
log_file_name_distinct name other i j d h = d (
    decimal_injective i j (
      behind_separator b'_' (sanitize_log_name name) (sanitize_log_name other) (decimal i)
        (decimal j) (decimal-Lacks b'_' i (inr (omega arith)))
        (decimal-Lacks b'_' j (inr (omega arith))) h))
