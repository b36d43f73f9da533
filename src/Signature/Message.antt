-- ===== src/Signature/Message.antt =====
-- The signature headers of a request and the text that is signed: `_parse_signature_input`,
-- `_parse_signature`, `_build_signature_base` and `_get_keyid` of src/provablyfine/api/signature.py.
-- The parser of structured fields (http_sfv) is a parameter.
use Prim.Native.Char.{code}
use Prim.Native.String.{◌++◌ as ◌<>◌}
use pf.Base.{
  Bool, Option, none, some, List, [], ◌∷◌, String, ◌==◌, string_eq, nat_eq, if◌then◌else◌,
}
use pf.Base.Dict.{Dict, lookup, insert}
use pf.Base.Int.{ℤ}
use pf.Http.{Outcome, ok, crash, fail, or_fail, ◌>>=◌}

-- A value of a structured field. `boolean` stands apart from `int`, though Python's `bool` is an
-- `int`.
pub data Value : Type 0 where
  text : String → Value
  bytes : String → Value
  int : ℤ → Value
  boolean : Bool → Value
  other : Value

-- `http_sfv.InnerList`: the covered components, the parameters, and `str(inner)`.
pub record InnerList : Type 0 where
  pub items : List String
  pub params : Dict String Value
  pub shown : String

-- A member of an `http_sfv.Dictionary`.
pub data Member : Type 0 where
  inner_list : InnerList → Member
  item : Value → Member

-- The parser: `none` where `parse` raises.
abbrev pub Parser : Type 0
Parser = String → Option (Dict String Member)

pub record Request : Type 0 where
  pub method : String
  pub netloc : String
  pub url : String
  pub headers : String → Option String
  pub body : String

-- One round of the loop of `_parse_signature_input`.
keyid_of : Member → Outcome (String × InnerList)
keyid_of (item v) = fail 400 "Invalid Signature-Input"
keyid_of (inner_list inner) = elim (lookup "keyid" inner.params) [
  | some (text keyid) ↦ ok (keyid, inner)
  | _ ↦ fail 400 "Invalid Signature-Input"
]

keyids :
    Dict String (String × InnerList)
    → Dict String Member
    → Outcome (Dict String (String × InnerList))
keyids found [] = ok found
keyids found ((label, v) ∷ d) = do entry ← keyid_of v; keyids (insert label entry found) d

unfoldable pub parse_signature_input : Parser → String → Outcome (Dict String (String × InnerList))
unfolding keyids keyid_of
parse_signature_input parse header = do
  d ← or_fail (parse header) 400 "Invalid Signature-Input header"
  keyids [] d

-- The values, if every member is an item.
items_of : Dict String Member → Outcome (Dict String Value)
items_of [] = ok []
items_of ((label, inner_list _) ∷ d) = fail 400 "Invalid Signature header"
items_of ((label, item v) ∷ d) = do rest ← items_of d; ok ((label, v) ∷ rest)

unfoldable pub parse_signature : Parser → String → Outcome (Dict String Value)
unfolding items_of
parse_signature parse header = do
  d ← or_fail (parse header) 400 "Invalid Signature header"
  items_of d

-- One line of the signature base; a header that is missing is a `KeyError`.
component : Request → String → String → Outcome String
component request sig_params c =
    if c == "@method"
    then ok ("\"@method\": " <> request.method)
    else if c == "@authority"
    then ok ("\"@authority\": " <> request.netloc)
    else if c == "@target-uri"
    then ok ("\"@target-uri\": " <> request.url)
    else if c == "@signature-params"
    then ok ("\"@signature-params\": " <> sig_params)
    else elim (request.headers c) [ none ↦ crash | some value ↦ ok ("\"" <> c <> "\": " <> value) ]

components : Request → String → List String → Outcome (List String)
components request sig_params [] = ok []
components request sig_params (c ∷ cs) = do
  part ← component request sig_params c
  parts ← components request sig_params cs
  ok (part ∷ parts)

-- `"\n".join(parts)`
join_lines : List String → String
join_lines [] = ""
join_lines (part ∷ []) = part
join_lines (part ∷ parts) = part <> "\n" <> join_lines parts

unfoldable pub build_signature_base : Request → InnerList → String → Outcome String
unfolding components component join_lines
build_signature_base request inner sig_params = do
  parts ← components request sig_params inner.items
  ok (join_lines parts)

-- `keyid[len(prefix):]` where `keyid.startswith(prefix)`.
unfoldable pub strip_prefix : String → String → Option String
strip_prefix String.[] s = some s
strip_prefix (String.◌∷◌ p ps) String.[] = none
strip_prefix (String.◌∷◌ p ps) (String.◌∷◌ c s) =
    let rest = strip_prefix ps s in if code p == code c then rest else none

find_keyid : String → Dict String (String × InnerList) → Outcome String
find_keyid prefix [] = fail 401 "Missing signature for prefix"
find_keyid prefix ((label, (keyid, inner)) ∷ d) = elim (strip_prefix (prefix <> ":") keyid) [
  | none ↦ find_keyid prefix d
  | some id ↦ ok id
]

unfoldable pub get_keyid : Parser → Request → String → Outcome String
unfolding find_keyid
get_keyid parse request prefix = do
  header ← or_fail (request.headers "Signature-Input") 401 "Missing Signature-Input header"
  keyid_by_label ← parse_signature_input parse header
  find_keyid prefix keyid_by_label
