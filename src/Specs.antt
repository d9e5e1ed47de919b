-- ===== src/Specs.antt =====
-- main.cc: the adapters that the arguments of the interactive mode name.
-- The driver gives the adapter types, and the interfaces of a type. The set of the keys that were
-- resolved is that of the resolved list.
pub mod Laws
use encos_cli.Base.{
  ℕ, Bool, true, false, not, ◌||◌, Option, none, some, List, [], ◌∷◌, ◌++◌, Bytes, str_eq, ◌=:◌,
  is_empty, up_to, behind, Result, ok, err, runtime_error, ◌>>=◌, if◌then◌else◌,
}

pub record AdapterSpec : Type 0 where
  pub type : Bytes
  pub id : Bytes

unfoldable pub mem_text : Bytes → List Bytes → Bool
mem_text x [] = false
mem_text x (y ∷ ys) = str_eq x y || mem_text x ys

abbrev spec_of : Bytes → Bytes → Option Bytes → Result AdapterSpec
spec_of value type none = err (runtime_error "Invalid adapter value, expected Type:Id" value)
spec_of value type (some id) =
    if is_empty type || is_empty id
    then err (runtime_error "Invalid adapter value, expected Type:Id" value)
    else ok (record { type = type; id = id })

unfoldable pub parse_adapter_arg : Bytes → Result AdapterSpec
parse_adapter_arg value = spec_of value (up_to b':' value) (behind b':' value)

abbrev pub dedup_key : AdapterSpec → Bytes
dedup_key s = s.type ++ (b'\n' ∷ s.id)

unfoldable pub has_key : Bytes → List AdapterSpec → Bool
has_key key [] = false
has_key key (s ∷ specs) = str_eq key (dedup_key s) || has_key key specs

unfoldable pub add_spec : AdapterSpec → List AdapterSpec → List AdapterSpec
unfolding has_key
add_spec s specs = if has_key (dedup_key s) specs then specs else specs ++ (s ∷ [])

-- `ALL` adds each interface of the type.
unfoldable pub add_all : Bytes → List Bytes → List AdapterSpec → List AdapterSpec
unfolding add_spec
add_all type [] specs = specs
add_all type (id ∷ ids) specs = add_all type ids (add_spec (record { type = type; id = id }) specs)

module _ (types : List Bytes) (interfaces : Bytes → List Bytes) where
  unfoldable pub resolve_spec : AdapterSpec → List AdapterSpec → Result (List AdapterSpec)
  unfolding mem_text add_all
  resolve_spec s specs =
      if not (mem_text s.type types)
      then err (runtime_error "Unknown adapter type: " s.type)
      else if s.id =: "ALL"
      then ok (add_all s.type (interfaces s.type) specs)
      else if not (mem_text s.id (interfaces s.type))
      then err (runtime_error "Unknown adapter id" s.id)
      else ok (add_spec s specs)

  unfoldable pub resolve_from : List Bytes → List AdapterSpec → Result (List AdapterSpec)
  unfolding parse_adapter_arg resolve_spec
  resolve_from [] specs = ok specs
  resolve_from (raw ∷ raw_specs) specs = do
    s ← parse_adapter_arg raw
    next ← resolve_spec s specs
    resolve_from raw_specs next

  unfoldable pub resolve_adapter_specs : List Bytes → Result (List AdapterSpec)
  unfolding resolve_from
  resolve_adapter_specs raw_specs = resolve_from raw_specs []
