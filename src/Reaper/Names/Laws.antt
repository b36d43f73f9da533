-- ===== src/Reaper/Names/Laws.antt =====
-- What the names of record files match.
use Prim.Native.Char.{Char, code}
use Prim.Native.String.{◌++◌ as ◌<>◌}
use text.Mathlib.TextLemmas.{nil-append, cons-append}
use text.Mathlib.TextEquality.{Char-path}
use mathlib.Core.Path.{ap₂}
use mathlib.Core.Bool.{true≢false}
use mathlib.Core.Logic.{if_neg}
use pf.Base.{
  ℕ, zero, suc, ◌/◌, ◌%◌, String, Bool, true, false, ◌&&◌, ◌||◌, ◌==◌, nat_eq, string_eq, Option,
  none, some, get_or, ◌≡◌, refl, sym, inl, inr, Bool-cases, ap, ◌∙◌, arith,
}
use pf.Base.Text.{digit, of_digits, decimal, decimal_loop}
use pf.Reaper.Names.{
  is_digit, match_shape, connection_shape, is_connection_id, span_digits, after_digits,
  match_record_name, record_name, finish_name,
}
use pf.Reaper.Names.Shapes.{match_shape_splits, connection_shape-append, dash_char, dash_cons}

all_digits : String → Bool
all_digits String.[] = true
all_digits (String.◌∷◌ c s) = is_digit c && all_digits s

span_digits-append :
    (s : String) (c : Char) (t : String)
    → all_digits s ≡ true
    → is_digit c ≡ false
    → span_digits (s <> String.◌∷◌ c t) ≡ (s, String.◌∷◌ c t)
unfolding all_digits span_digits
span_digits-append String.[] c t h e = ap span_digits (nil-append (String.◌∷◌ c t)) ∙ ground arith
span_digits-append (String.◌∷◌ d s) c t h e =
    ap span_digits (cons-append d s (String.◌∷◌ c t)) ∙ ground (arith, span_digits-append s c t)

all_digits-append : (s t : String) → all_digits (s <> t) ≡ (all_digits s && all_digits t)
unfolding all_digits
all_digits-append String.[] t = ap all_digits (nil-append t)
all_digits-append (String.◌∷◌ c s) t =
    ap all_digits (cons-append c s t) ∙ ground (arith, all_digits-append s t)

all_digits-digit : (d : ℕ) → all_digits (digit d) ≡ true
unfolding all_digits
all_digits-digit d = of_digits all_digits refl d

all_digits-decimal_loop : (fuel n : ℕ) → all_digits (decimal_loop fuel n) ≡ true
unfolding decimal_loop all_digits
all_digits-decimal_loop zero n = refl
all_digits-decimal_loop (suc fuel) n = ground (
  arith,
  all_digits-digit n,
  all_digits-digit (n % 10),
  all_digits-append (decimal_loop fuel (n / 10)) (digit (n % 10)),
  all_digits-decimal_loop fuel (n / 10),
)

all_digits-decimal : (n : ℕ) → all_digits (decimal n) ≡ true
unfolding decimal
all_digits-decimal n = all_digits-decimal_loop (suc n) n

is_filled : String → Bool
is_filled String.[] = false
is_filled (String.◌∷◌ c s) = true

is_filled-append : (s t : String) → is_filled (s <> t) ≡ (is_filled s || is_filled t)
unfolding is_filled
is_filled-append String.[] t = ap is_filled (nil-append t)
is_filled-append (String.◌∷◌ c s) t = ap is_filled (cons-append c s t)

is_filled-digit : (d : ℕ) → is_filled (digit d) ≡ true
unfolding is_filled
is_filled-digit d = of_digits is_filled refl d

filled_other : (s : String) → is_filled s ≡ true → (s == "") ≡ false
unfolding is_filled
filled_other s h = if_neg (string_eq.dec s "") (λ e. true≢false (sym h ∙ ap is_filled e)) true false

filled_decimal : (n : ℕ) → is_filled (decimal n) ≡ true
unfolding decimal decimal_loop
filled_decimal n = ground (
  arith,
  is_filled-digit n,
  is_filled-digit (n % 10),
  is_filled-append (decimal_loop n (n / 10)) (digit (n % 10)),
)

span_digits-record_name :
    (pid : ℕ) (rest : String)
    → span_digits (decimal pid <> ("-" <> rest)) ≡ (decimal pid, String.◌∷◌ dash_char rest)
span_digits-record_name pid rest =
    ap (λ t. span_digits (decimal pid <> t)) (dash_cons rest)
    ∙ span_digits-append (decimal pid) dash_char rest (all_digits-decimal pid) refl

pub match_record_name-record_name :
    (pid : ℕ) (connection_id : String)
    → is_connection_id connection_id ≡ true
    → match_record_name (record_name pid connection_id) ≡ some (decimal pid, connection_id)
unfolding match_record_name record_name after_digits nat_eq string_eq
match_record_name-record_name pid connection_id h =
    rw
      (
        span_digits-record_name pid (connection_id <> ".json"),
        filled_other (decimal pid) (filled_decimal pid),
        connection_shape-append connection_id ".json" h,
      )
      refl

span_digits_splits : (s : String) → (span_digits s).0 <> (span_digits s).1 ≡ s
unfolding span_digits
span_digits_splits String.[] = nil-append ""
span_digits_splits (String.◌∷◌ c s) = elim (Bool-cases (is_digit c)) [
  | inl e ↦
      rw e (
        cons-append c (span_digits s).0 (span_digits s).1
        ∙ ap (String.◌∷◌ c) (span_digits_splits s))
  | inr e ↦ rw e (nil-append (String.◌∷◌ c s))
]

finish_name_splits :
    (digits : String) (o : Option (String × String)) {d i : String}
    → finish_name digits o ≡ some (d, i)
    → (digits ≡ d) × (o ≡ some (i, ".json"))
finish_name_splits digits none h = cc
finish_name_splits digits (some (u, v)) {d} {i} h =
    let json : v ≡ ".json" = ground arith in
    let e : some (digits, u) ≡ some (d, i) = ground arith in
    (
      ap (λ (o : Option (String × String)). (get_or o ("", "")).0) e,
      ap₂ (λ s t. some (s, t)) (ap (λ (o : Option (String × String)). (get_or o ("", "")).1) e)
          json,
    )

after_digits_splits :
    (digits s : String) {d i : String}
    → after_digits digits s ≡ some (d, i)
    → (digits ≡ d) × (s ≡ "-" <> (i <> ".json"))
unfolding after_digits
after_digits_splits digits String.[] h = cc
after_digits_splits digits (String.◌∷◌ c s) {d} {i} h =
    let (same, found) =
      finish_name_splits digits (match_shape connection_shape s) {d = d} {i = i} (ground arith) in
    let dashed : code c ≡ 45 = ground arith in
    (
      same,
      ap₂ String.◌∷◌ (Char-path c dash_char dashed)
            (sym (match_shape_splits connection_shape s found))
          ∙ sym (dash_cons (i <> ".json")),
    )

-- Only the name that record_name gives for the groups has them.
pub match_record_name_splits :
    (name : String) {d i : String}
    → match_record_name name ≡ some (d, i)
    → name ≡ d <> ("-" <> (i <> ".json"))
unfolding match_record_name
match_record_name_splits name {d} {i} h =
    let (e, f) =
      after_digits_splits (span_digits name).0 (span_digits name).1 {d = d} {i = i}
        (ground arith) in
    sym (span_digits_splits name) ∙ ap₂ (λ u v. u <> v) e f
