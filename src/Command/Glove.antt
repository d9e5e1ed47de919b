-- ===== src/Command/Glove.antt =====
-- cli_command.h and cli_command.cc: the `glove` command.
pub mod Laws
use encos_cli.Base.{
  ℕ, Bool, true, false, not, List, [], ◌∷◌, Bytes, ◌=:◌, ltb, ◌==◌, if◌then◌else◌, Result, ok, err,
  runtime_error, ◌>>=◌, ◌>>◌, throw_if,
}
use encos_cli.Base.Int.{ℤ, pos, ltb_ℤ, to_uint8}
use encos_cli.Target.Integer.{parse_integer, parse_uint16}
use encos_cli.Target.Motor.{GloveTarget, parse_glove_target}

pub data GloveCommandAction : Type 0 where
  show calibrate : GloveCommandAction

pub data GloveCalibrationMode : Type 0 where
  all single mask : GloveCalibrationMode

pub record GloveCommand : Type 0 where
  pub target : GloveTarget
  pub action : GloveCommandAction
  pub calibration_mode : GloveCalibrationMode
  pub finger_idx : ℕ
  pub encoder_idx : ℕ
  pub encoder_mask : ℕ

abbrev pub glove_finger_count : ℕ
glove_finger_count = 5

abbrev pub glove_encoders_per_finger : ℕ
glove_encoders_per_finger = 10

abbrev pub glove_max_encoder_mask : ℕ
glove_max_encoder_mask = 0x3ff

unfoldable pub parse_glove_finger_idx : Bytes → Result ℕ
parse_glove_finger_idx value = do
  parsed ← parse_integer value "finger_idx"
  throw_if (not (ltb_ℤ parsed (pos glove_finger_count)))
      (runtime_error "finger_idx is out of range, expected 0-4" value)
  ok (to_uint8 parsed)

unfoldable pub parse_glove_encoder_idx : Bytes → Result ℕ
parse_glove_encoder_idx value = do
  parsed ← parse_integer value "encoder_idx"
  throw_if (not (ltb_ℤ parsed (pos glove_encoders_per_finger)))
      (runtime_error "encoder_idx is out of range, expected 0-9" value)
  ok (to_uint8 parsed)

unfoldable pub parse_glove_encoder_mask : Bytes → Result ℕ
parse_glove_encoder_mask value = do
  m ← parse_uint16 value "encoder_mask"
  throw_if (m == 0) (runtime_error "encoder_mask must not be zero" [])
  throw_if (ltb glove_max_encoder_mask m)
      (runtime_error "encoder_mask is out of range, only the low 10 bits are valid" value)
  ok m

abbrev calibrate_usage : Result GloveCommand
calibrate_usage = err (runtime_error "Invalid glove calibrate syntax" [])

-- What follows the finger.
unfoldable pub glove_mask : GloveCommand → Bytes → Result GloveCommand
glove_mask c value = do
  m ← parse_glove_encoder_mask value
  ok (record c { encoder_mask = m; calibration_mode = mask })

unfoldable pub glove_encoder : GloveCommand → List Bytes → Result GloveCommand
unfolding glove_mask
glove_encoder c (value ∷ []) = do
  e ← parse_glove_encoder_idx value
  ok (record c { encoder_idx = e; calibration_mode = single })
glove_encoder c (word ∷ value ∷ []) = if word =: "mask" then glove_mask c value else calibrate_usage
glove_encoder c _ = calibrate_usage

unfoldable pub glove_finger : GloveCommand → Bytes → List Bytes → Result GloveCommand
unfolding glove_encoder
glove_finger c finger rest = do
  f ← parse_glove_finger_idx finger
  glove_encoder (record c { finger_idx = f }) rest

unfoldable pub glove_all : GloveCommand → List Bytes → Result GloveCommand
glove_all c [] = ok (record c { calibration_mode = all })
glove_all c _ = err (runtime_error "glove calibrate all does not take extra arguments" [])

unfoldable pub glove_calibrate : GloveCommand → List Bytes → Result GloveCommand
unfolding glove_finger glove_all
glove_calibrate c [] = err (runtime_error "glove calibrate expects more arguments" [])
glove_calibrate c (finger ∷ rest) =
    if finger =: "all" then glove_all c rest else glove_finger c finger rest

unfoldable pub glove_show : GloveCommand → List Bytes → Result GloveCommand
glove_show c [] = ok (record c { action = show })
glove_show c _ = err (runtime_error "glove show expects exactly one target" [])

unfoldable pub glove_action : GloveCommand → Bytes → List Bytes → Result GloveCommand
unfolding glove_calibrate glove_show
glove_action c word rest =
    if word =: "show"
    then glove_show c rest
    else if not (word =: "calibrate")
    then err (runtime_error "Unsupported glove action" word)
    else glove_calibrate (record c { action = calibrate }) rest

unfoldable pub parse_glove_command : List Bytes → Result GloveCommand
unfolding glove_action
parse_glove_command (command ∷ word ∷ target ∷ rest) = do
  throw_if (not (command =: "glove")) (runtime_error "Invalid glove command" [])
  t ← parse_glove_target target
  glove_action
      (record {
        target = t;
        action = show;
        calibration_mode = all;
        finger_idx = 0;
        encoder_idx = 0;
        encoder_mask = 0;
      })
      word rest
parse_glove_command _ = err (runtime_error "Invalid glove command" [])
