-- ===== src/Reaper/Names.antt =====
-- The ids of connections and the names of record files: session_records.CONNECTION_ID,
-- _RECORD_NAME_RE and record_name of src/provablyfine/cli/pf/openssh_session_reaper.py.
pub mod Shapes
pub mod Laws
use Prim.Native.Char.{Char, code}
use Prim.Native.String.{◌++◌ as ◌<>◌}
use pf.Base.{
  ℕ, String, Bool, true, false, ◌&&◌, ◌||◌, leb, if◌then◌else◌, ◌==◌, nat_eq, string_eq, Option,
  none, some, List, [], ◌∷◌,
}
use pf.Base.Text.{decimal}

-- `[0-9]`
abbrev pub is_digit : Char → Bool
is_digit c = leb 48 (code c) && leb (code c) 57

-- `[0-9a-f]`
abbrev pub is_hex : Char → Bool
is_hex c = is_digit c || leb 97 (code c) && leb (code c) 102

-- A digit of base 16 or 10, or a dash.
pub data Class : Type 0 where
  hex : Class
  digit : Class
  dash : Class

abbrev pub in_class : Class → Char → Bool
in_class hex c = is_hex c
in_class digit c = is_digit c
in_class dash c = code c == 45

abbrev hexes : ℕ → List Class → List Class
hexes ℕ.zero rest = rest
hexes (ℕ.suc n) rest = hex ∷ hexes n rest

-- `[0-9a-f]{8}-[0-9a-f]{4}-[0-9a-f]{4}-[0-9a-f]{4}-[0-9a-f]{12}`
abbrev pub connection_shape : List Class
connection_shape = hexes 8 (dash ∷ hexes 4 (dash ∷ hexes 4 (dash ∷ hexes 4 (dash ∷ hexes 12 []))))

-- The text that a shape matches at the start, and what follows it.
abbrev pub prepend : Char → Option (String × String) → Option (String × String)
prepend c none = none
prepend c (some (s, rest)) = some (String.◌∷◌ c s, rest)

unfoldable pub match_shape : List Class → String → Option (String × String)
match_shape [] s = some ("", s)
match_shape (k ∷ shape) String.[] = none
match_shape (k ∷ shape) (String.◌∷◌ c s) =
    let rest = match_shape shape s in if in_class k c then prepend c rest else none

-- Nothing follows what was matched.
abbrev pub is_whole : Option (String × String) → Bool
is_whole none = false
is_whole (some (_, rest)) = rest == ""

-- `_CONNECTION_ID_RE.fullmatch(s) is not None`
unfoldable pub is_connection_id : String → Bool
is_connection_id s = is_whole (match_shape connection_shape s)

-- `[0-9]+` and what follows it; no digit follows.
unfoldable pub span_digits : String → String × String
span_digits String.[] = ("", "")
span_digits (String.◌∷◌ c s) =
    let (digits, rest) = span_digits s in
    if is_digit c then (String.◌∷◌ c digits, rest) else ("", String.◌∷◌ c s)

-- `-` and then a connection id, and then `.json`.
abbrev pub finish_name : String → Option (String × String) → Option (String × String)
finish_name digits none = none
finish_name digits (some (connection_id, rest)) =
    if rest == ".json" then some (digits, connection_id) else none

unfoldable pub after_digits : String → String → Option (String × String)
unfolding match_shape
after_digits digits String.[] = none
after_digits digits (String.◌∷◌ c s) =
    if code c == 45 then finish_name digits (match_shape connection_shape s) else none

-- `_RECORD_NAME_RE.fullmatch(name)`: its groups.
unfoldable pub match_record_name : String → Option (String × String)
unfolding span_digits after_digits
match_record_name name =
    let (digits, rest) = span_digits name in if digits == "" then none else after_digits digits rest

unfoldable pub record_name : ℕ → String → String
record_name pid connection_id = decimal pid <> ("-" <> (connection_id <> ".json"))
