-- ===== src/Command/Flags.antt =====
-- cli_command.cc: `ExtractCanFdFlag`, which takes `--canfd` out of the arguments.
use encos_cli.Base.{
  ℕ, ◌+◌, ◌≡◌, ◌∙◌, Bool, true, false, List, [], ◌∷◌, ◌++◌, append_assoc, append-nil, Bytes, ◌=:◌,
  ltb, leb, if◌then◌else◌, Result, ok, err, runtime_error, ◌>>=◌, arith, inl, inr, Bool-cases,
}

pub record FlagParseResult : Type 0 where
  pub arguments : List Bytes
  pub canfd : Bool

abbrev duplicate : Result FlagParseResult
duplicate = err (runtime_error "Duplicate flag: '--canfd'" [])

-- One round of the loop.
unfoldable pub extract_step : Bytes → FlagParseResult → Result FlagParseResult
extract_step argument r =
    if argument =: "--canfd"
    then if r.canfd then duplicate else ok (record r { canfd = true })
    else ok (record r { arguments = r.arguments ++ argument ∷ [] })

unfoldable pub extract_loop : List Bytes → FlagParseResult → Result FlagParseResult
unfolding extract_step
extract_loop [] r = ok r
extract_loop (argument ∷ rest) r = do r' ← extract_step argument r; extract_loop rest r'

unfoldable pub extract_canfd_flag : List Bytes → Result FlagParseResult
unfolding extract_loop
extract_canfd_flag arguments = extract_loop arguments (record { arguments = []; canfd = false })

-- The arguments that are no flag, and how often the flag stands among all.
abbrev pub without_flag : List Bytes → List Bytes
without_flag [] = []
without_flag (a ∷ args) = let rest = without_flag args in if a =: "--canfd" then rest else a ∷ rest

abbrev pub count_flags : List Bytes → ℕ
count_flags [] = 0
count_flags (a ∷ args) = (if a =: "--canfd" then 1 else 0) + count_flags args

abbrev flags_of : Bool → ℕ
flags_of b = if b then 1 else 0

extract_loop-count_flags :
    (args : List Bytes) (r : FlagParseResult)
    → extract_loop args r ≡ (
        if ltb (flags_of r.canfd + count_flags args) 2
        then ok (record {
          arguments = r.arguments ++ without_flag args;
          canfd = leb 1 (flags_of r.canfd + count_flags args);
        })
        else duplicate)
unfolding extract_loop
extract_loop-count_flags [] r = rw append-nil (ground arith)
extract_loop-count_flags (a ∷ args) r = elim (Bool-cases (a =: "--canfd")) [
  | inl e ↦ rw e (ground (arith, extract_loop-count_flags args (record r { canfd = true })))
  | inr e ↦ rw e (
      extract_loop-count_flags args (record r { arguments = r.arguments ++ a ∷ [] })
      ∙ rw append_assoc (ground arith))
]

-- The flag may stand anywhere and is taken out: given once it switches CAN FD on, and given twice or
-- more often it is an error. The other arguments keep their order.
pub extract_canfd_flag-count_flags :
    (args : List Bytes)
    → extract_canfd_flag args ≡ (
        if ltb (count_flags args) 2
        then ok (record { arguments = without_flag args; canfd = leb 1 (count_flags args) })
        else duplicate)
unfolding extract_canfd_flag
extract_canfd_flag-count_flags args =
    extract_loop-count_flags args (record { arguments = []; canfd = false }) ∙ ground arith
