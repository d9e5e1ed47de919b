-- ===== src/InterfaceName.antt =====
-- src/cli/interface_name.cc: the adapter's name in the address of a relay.
pub mod Laws
use encos_cli.Base.{
  ℕ, zero, suc, ◌+◌, ◌-◌, ◌*◌, Bool, true, false, not, ◌&&◌, ◌||◌, Option, none, some, List, [],
  ◌∷◌, ◌++◌, Bytes, ◌≡◌, refl, codes, ◌=:◌, ◌==◌, leb, starts_with, up_to, behind, is_empty,
  is_digit, if◌then◌else◌, drop, length,
}

unfoldable pub hex_digit : ℕ → Option ℕ
hex_digit c =
    if is_digit c
    then some (c - b'0')
    else if leb b'A' c && leb c b'F'
    then some (c - b'A' + 10)
    else if leb b'a' c && leb c b'f'
    then some (c - b'a' + 10)
    else none

abbrev pub pair_digits : Option ℕ → Option ℕ → Option ℕ
pair_digits (some high) (some low) = some (high * 16 + low)
pair_digits _ _ = none

-- `DecodePercentEncoded` on the two characters behind a percent sign; none where it leaves `i`.
unfoldable pub decode_percent_encoded : ℕ → ℕ → Option ℕ
unfolding hex_digit
decode_percent_encoded high low = pair_digits (hex_digit high) (hex_digit low)

-- What a percent sign becomes, with the texts decoded behind the triplet and behind the sign. The
-- byte 0 counts as a failure although `i` has moved on: the sign is kept, the digits are not.
abbrev pub decoded : Option ℕ → Bytes → Bytes → Bytes
decoded none skipped stepped = b'%' ∷ stepped
decoded (some zero) skipped stepped = b'%' ∷ skipped
decoded (some (suc n)) skipped stepped = suc n ∷ skipped

abbrev pub plain : ℕ → ℕ
plain c = if c == b'+' then b' ' else c

unfoldable pub url_decode : Bytes → Bytes
unfolding decode_percent_encoded
url_decode [] = []
url_decode (c ∷ []) = plain c ∷ []
url_decode (c ∷ d ∷ []) = plain c ∷ url_decode (d ∷ [])
url_decode (c ∷ high ∷ low ∷ s) =
    let skipped = url_decode s in
    let stepped = url_decode (high ∷ low ∷ s) in
    if c == b'%'
    then decoded (decode_percent_encoded high low) skipped stepped
    else plain c ∷ stepped

-- The loop of `ExtractQueryParameter`: a match of the prefix counts at the start and behind `&`.
unfoldable pub query_loop : Bytes → Bool → Bytes → Bytes
unfolding url_decode up_to
query_loop prefix at_boundary [] = []
query_loop prefix at_boundary (c ∷ s) =
    let rest = query_loop prefix (c == b'&') s in
    if at_boundary && starts_with (c ∷ s) prefix
    then url_decode (up_to b'&' (drop (length prefix) (c ∷ s)))
    else rest

unfoldable pub extract_query_parameter : Bytes → Bytes → Bytes
unfolding query_loop
extract_query_parameter query name = query_loop (name ++ (b'=' ∷ [])) true query

abbrev pub query_name : Option Bytes → Bytes
query_name none = []
query_name (some rest) = extract_query_parameter (up_to b'#' rest) (codes "AdapterName")

unfoldable pub extract_adapter_name : Bytes → Bytes
unfolding extract_query_parameter behind up_to
extract_adapter_name interface_name =
    if not (starts_with interface_name (codes "http://"))
      && not (starts_with interface_name (codes "https://"))
    then []
    else query_name (behind b'?' interface_name)

-- `GetAdaptedInterfaceName`, which the display name and the logger's name both are.
unfoldable pub get_adapted_interface_name : Bytes → Bytes → Bytes
unfolding extract_adapter_name
get_adapted_interface_name adapter_type interface_name =
    let adapter_name = extract_adapter_name interface_name in
    if not (adapter_type =: "RelayWs")
    then interface_name
    else if is_empty adapter_name
    then interface_name
    else adapter_name

adapted_runs :
    (get_adapted_interface_name
        (codes "RelayWs")
        (codes "https://h/ws?Token=a&AdapterName=My%20Arm+1#top")
      ≡ codes "My Arm 1")
    × (get_adapted_interface_name (codes "SocketCan") (codes "can0") ≡ codes "can0")
    × (url_decode (codes "%00a%4") ≡ codes "%a%4")
unfolding get_adapted_interface_name url_decode encos_cli.Base.str_eq starts_with
adapted_runs = (refl, refl, refl)
