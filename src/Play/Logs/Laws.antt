-- ===== src/Play/Logs/Laws.antt =====
-- The logs that are on are known to be on, and none is on twice.
use encos_cli.Base.{
  ℕ, ◌+◌, ◌≤◌, ◌<◌, ◌≡◌, refl, Bool, true, false, not, Option, none, some, List, [], ◌∷◌, ◌++◌,
  Bytes, length, Result, ok, err, arith, is_empty, Bool-cases, inl, inr, if◌then◌else◌,
}
use encos_cli.Play.Logs.{
  log_file_name, not_enabled, enabling_threw, PlayLogs, LogAnswers, report, still_logging,
  disable_logs, enable_from, enable_logs, toggle_logs_from_tui, LogOperation, at_start, on_key,
  at_end, operate, run_logs, after_enabling, start_logs, or_default,
}

-- Indices from `low` up to below `high`, in ascending order.
abbrev pub Ascending : ℕ → ℕ → List ℕ → Type 0
Ascending low high [] = Unit
Ascending low high (x ∷ xs) = (low ≤ x) × (x < high) × Ascending (x + 1) high xs

Ascending-lower :
    (low lower high : ℕ) (l : List ℕ) → lower ≤ low → Ascending low high l → Ascending lower high l
Ascending-lower low lower high [] p h = tt
Ascending-lower low lower high (x ∷ l) p (q, r, h) = (omega arith, r, h)

Ascending-higher :
    (low high higher : ℕ) (l : List ℕ)
    → high ≤ higher
    → Ascending low high l
    → Ascending low higher l
Ascending-higher low high higher [] p h = tt
Ascending-higher low high higher (x ∷ l) p (q, r, h) =
    (q, omega arith, Ascending-higher (x + 1) high higher l p h)

Ascending-snoc :
    (low i : ℕ) (l : List ℕ) → low ≤ i → Ascending low i l → Ascending low (i + 1) (l ++ (i ∷ []))
Ascending-snoc low i [] p h = (p, omega arith, tt)
Ascending-snoc low i (x ∷ l) p (q, r, h) =
    (q, omega arith, Ascending-snoc (x + 1) i l (omega arith) h)

still_logging-Ascending :
    (a : LogAnswers) (low high : ℕ) (l : List ℕ)
    → Ascending low high l
    → Ascending low high (still_logging a l)
unfolding still_logging
still_logging-Ascending a low high [] h = tt
still_logging-Ascending a low high (x ∷ l) (p, q, h) =
    let ih = still_logging-Ascending a (x + 1) high l h in
    elim (Bool-cases (a.closes x)) [
      | inl e ↦ rw e (Ascending-lower (x + 1) low high (still_logging a l) (omega arith) ih)
      | inr e ↦ rw e (p, q, ih)
    ]

-- Each motor that is logged is one of the monitored ones and is listed once, and the logs count as
-- disabled only when none is left.
pub record IsLogs (s : PlayLogs) : Type 0 where
  pub ascending : Ascending 0 (length s.monitored) s.logging
  pub disabled : s.logs_enabled ≡ false → s.logging ≡ []

enabled_if_any : (l : List ℕ) → not (is_empty l) ≡ false → l ≡ []
enabled_if_any [] h = refl
enabled_if_any (x ∷ l) h = cc

disable_logs-IsLogs :
    (a : LogAnswers) (s : PlayLogs)
    → Ascending 0 (length s.monitored) s.logging
    → IsLogs (disable_logs a s).0
unfolding disable_logs
disable_logs-IsLogs a s h = record {
  ascending = still_logging-Ascending a 0 (length s.monitored) s.logging h;
  disabled = enabled_if_any (still_logging a s.logging);
}

after_enabling-IsLogs :
    (a : LogAnswers) (name : Bytes) (s : PlayLogs) (rest : PlayLogs × Bool) (answer : Result Bool)
    → Ascending 0 (length s.monitored) s.logging
    → IsLogs rest.0
    → IsLogs (after_enabling a name s rest answer).0
unfolding after_enabling
after_enabling-IsLogs a name s rest (ok true) h later = later
after_enabling-IsLogs a name s rest (ok false) h later =
    disable_logs-IsLogs a (report (not_enabled name) s) h
after_enabling-IsLogs a name s rest (err thrown) h later =
    disable_logs-IsLogs a (report enabling_threw s) h

IsLogs-if :
    (b : Bool) (x y : PlayLogs × Bool) → IsLogs x.0 → IsLogs y.0 → IsLogs (if b then x else y).0
IsLogs-if true x y hx hy = hx
IsLogs-if false x y hx hy = hy

false≢true : true ≡ false → ⊥
false≢true e = cc

module _ (join : Bytes → Bytes → Bytes) where
  enable_from-IsLogs :
      (a : LogAnswers) (directory : Bytes) (index : ℕ) (names : List Bytes) (s : PlayLogs)
      → index + length names ≡ length s.monitored
      → Ascending 0 index s.logging
      → IsLogs (enable_from join a directory index names s).0
  unfolding enable_from
  enable_from-IsLogs a directory index [] s e h = record {
    ascending = Ascending-higher 0 index (length s.monitored) s.logging (omega arith) h;
    disabled = λ k. absurd (false≢true k);
  }
  enable_from-IsLogs a directory index (name ∷ names) s e h =
      let entered : PlayLogs = record s { logging = s.logging ++ (index ∷ []) } in
      let longer = Ascending-snoc 0 index s.logging (omega arith) h in
      after_enabling-IsLogs a name entered (enable_from join a directory (index + 1) names entered)
        (a.enable index (join directory (log_file_name name index)))
        (Ascending-higher 0 (index + 1) (length s.monitored) (s.logging ++ (index ∷ []))
          (omega arith) longer)
        (enable_from-IsLogs a directory (index + 1) names entered (omega arith) longer)

  enable_logs-IsLogs :
      (a : LogAnswers) (directory : Bytes) (s : PlayLogs)
      → IsLogs s
      → IsLogs (enable_logs join a directory s).0
  unfolding enable_logs
  enable_logs-IsLogs a directory s h = by_logging s.logging refl
    where
      by_logging : (l : List ℕ) → s.logging ≡ l → IsLogs (enable_logs join a directory s).0
      by_logging (x ∷ l) e =
          rw e (record { ascending = rw e at h.ascending; disabled = λ k. absurd (false≢true k) })
      by_logging [] e = elim (Bool-cases (a.created directory)) [
        | inr k ↦ rw (e, k) (record { ascending = tt; disabled = λ _. refl })
        | inl k ↦
            rw (e, k)
              (enable_from-IsLogs a directory 0 s.monitored (record s { logging = [] })
                (omega arith) tt)
      ]

  toggle_logs_from_tui-IsLogs :
      (a : LogAnswers) (s : PlayLogs) → IsLogs s → IsLogs (toggle_logs_from_tui join a s).0
  unfolding toggle_logs_from_tui
  toggle_logs_from_tui-IsLogs a s h =
      let directory = or_default s.log_directory in
      IsLogs-if s.logs_enabled (disable_logs a s) _ (disable_logs-IsLogs a s h.ascending) (
        enable_logs-IsLogs a directory (record s { log_directory = some directory })
          (record { ascending = h.ascending; disabled = h.disabled }))

  start_logs-IsLogs :
      (a : LogAnswers) (o : Option Bytes) (s : PlayLogs) → IsLogs s → IsLogs (start_logs join a o s)
  unfolding start_logs
  start_logs-IsLogs a none s h = h
  start_logs-IsLogs a (some directory) s h = enable_logs-IsLogs a directory s h

  operate-IsLogs : (o : LogOperation) (s : PlayLogs) → IsLogs s → IsLogs (operate join o s)
  unfolding operate
  operate-IsLogs (at_start a) s h = start_logs-IsLogs a s.log_directory s h
  operate-IsLogs (on_key a) s h = toggle_logs_from_tui-IsLogs a s h
  operate-IsLogs (at_end a) s h = disable_logs-IsLogs a s h.ascending

  -- Over any switching of the logs, whatever the driver and the file system answer: each motor that
  -- is logged is one of the monitored ones and is listed once, and the logs count as disabled only
  -- when none is left to close.
  pub run_logs-IsLogs :
      (operations : List LogOperation) (s : PlayLogs)
      → IsLogs s
      → IsLogs (run_logs join operations s)
  unfolding run_logs
  run_logs-IsLogs [] s h = h
  run_logs-IsLogs (o ∷ operations) s h =
      run_logs-IsLogs operations (operate join o s) (operate-IsLogs o s h)
