-- ===== src/Reaper/Names/Shapes.antt =====
-- What a shape matches at the start of a text.
use Prim.Native.Char.{Char}
use Prim.Native.String.{◌++◌ as ◌<>◌}
use text.Mathlib.TextLemmas.{nil-append, cons-append, append-nil, tail-eq_of_cons-eq}
use mathlib.Core.Path.{ap₂}
use pf.Base.{
  String, true, nat_eq, string_eq, Option, none, some, get_or, List, [], ◌∷◌, ◌≡◌, sym, inl, inr,
  Option-cases, ap, ◌∙◌, arith,
}
use pf.Reaper.Names.{Class, match_shape, connection_shape, is_connection_id, is_whole, prepend}

prepend_inverts :
    (c : Char) (s : String) (o : Option (String × String))
    → prepend c o ≡ some (String.◌∷◌ c s, "")
    → o ≡ some (s, "")
prepend_inverts c s none h = cc
prepend_inverts c s (some (u, rest)) h =
    ap₂ (λ v w. some (v, w))
      (tail-eq_of_cons-eq (ap (λ (o : Option (String × String)). (get_or o ("", "")).0) h))
      (ap (λ (o : Option (String × String)). (get_or o ("", "")).1) h)

-- A shape matches a text that starts with what it matched before.
match_shape-append :
    (shape : List Class) (s t : String)
    → match_shape shape s ≡ some (s, "")
    → match_shape shape (s <> t) ≡ some (s, t)
unfolding match_shape
match_shape-append [] s t h =
    let empty : "" ≡ s = ap (λ (o : Option (String × String)). (get_or o ("", "")).0) h in
    ap (λ u. some ("", u)) (ap (λ u. u <> t) (sym empty) ∙ nil-append t)
    ∙ ap (λ u. some (u, t)) empty
match_shape-append (k ∷ shape) String.[] t h = cc
match_shape-append (k ∷ shape) (String.◌∷◌ c s) t h =
    ap (match_shape (k ∷ shape)) (cons-append c s t)
    ∙ ground (
      arith,
      match_shape-append shape s t (prepend_inverts c s (match_shape shape s) (ground arith)),
    )

pub prepend_splits :
    (c : Char) (o : Option (String × String)) {m r : String}
    → prepend c o ≡ some (m, r)
    → (u : String) × (o ≡ some (u, r)) × (String.◌∷◌ c u ≡ m)
prepend_splits c none h = cc
prepend_splits c (some (u, v)) h = (
  u,
  ap (λ w. some (u, w)) (ap (λ (o : Option (String × String)). (get_or o ("", "")).1) h),
  ap (λ (o : Option (String × String)). (get_or o ("", "")).0) h,
)

-- What is matched and what follows make up the text.
pub match_shape_splits :
    (shape : List Class) (s : String) {m r : String}
    → match_shape shape s ≡ some (m, r)
    → m <> r ≡ s
unfolding match_shape
match_shape_splits [] s {m} {r} h =
    let first : "" ≡ m = ap (λ (o : Option (String × String)). (get_or o ("", "")).0) h in
    let last : s ≡ r = ap (λ (o : Option (String × String)). (get_or o ("", "")).1) h in
    ap (λ u. u <> r) (sym first) ∙ nil-append r ∙ sym last
match_shape_splits (k ∷ shape) String.[] h = cc
match_shape_splits (k ∷ shape) (String.◌∷◌ c s) {m} {r} h =
    let (u, found, e) = prepend_splits c (match_shape shape s) {m = m} {r = r} (ground arith) in
    ap (λ w. w <> r) (sym e)
    ∙ cons-append c u r
    ∙ ap (String.◌∷◌ c) (match_shape_splits shape s found)

pub match_shape_whole :
    (shape : List Class) (s : String)
    → is_whole (match_shape shape s) ≡ true
    → match_shape shape s ≡ some (s, "")
match_shape_whole shape s h = elim (Option-cases (match_shape shape s)) [
  | inl e ↦ cc
  | inr ((m, r), e) ↦
      let empty : r ≡ "" = ground (arith, ap is_whole e) in
      e
      ∙ ap₂ (λ u v. some (u, v))
          (sym (append-nil m) ∙ ap (λ v. m <> v) (sym empty) ∙ match_shape_splits shape s e) empty
]

-- A connection id is matched whole, whatever follows it.
pub connection_shape-append :
    (s t : String) → is_connection_id s ≡ true → match_shape connection_shape (s <> t) ≡ some (s, t)
unfolding is_connection_id
connection_shape-append s t h =
    match_shape-append connection_shape s t (match_shape_whole connection_shape s h)

abbrev pub dash_char : Char
dash_char = "-"

pub dash_cons : (s : String) → "-" <> s ≡ String.◌∷◌ dash_char s
dash_cons s = cons-append dash_char "" s ∙ ap (String.◌∷◌ dash_char) (nil-append s)
