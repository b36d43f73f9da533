-- ===== src/Reaper/Logind/Laws.antt =====
-- Which sessions are ended on request.
use Prim.Native.Char.{code}
use Prim.Native.String.{◌++◌ as ◌<>◌}
use text.Mathlib.TextEquality.{Char-path}
use mathlib.Core.Path.{ap₂}
use mathlib.Core.Option.{some-injective}
use pf.Base.{
  ℕ, String, Bool, true, false, ◌||◌, ◌==◌, ==_refl, eq_of_==, nat_eq, string_eq, get_or, contains,
  contains-append, any, all, Option, none, some, List, [], ◌∷◌, ◌≡◌, refl, sym, ap, ◌∙◌, arith,
  Option-cases, inl, inr,
}
use pf.Reaper.Names.{connection_shape, match_shape, is_connection_id}
use pf.Reaper.Names.Shapes.{connection_shape-append, match_shape_splits, dash_char, dash_cons}
use pf.Reaper.Requests.{Orphans}
use pf.Reaper.Logind.{
  is_logind_id, session_record_name, ids_of, match_session_name, session_of, session_ids, Claims,
  claim_or_leave, claim_each, tick_logind,
}

-- The name that is written for valid ids has them as its groups.
match_session_name-session_record_name :
    (c s : String)
    → is_connection_id c ≡ true
    → is_logind_id s ≡ true
    → match_session_name (session_record_name c s) ≡ some (c, s)
unfolding match_session_name session_record_name nat_eq
match_session_name-session_record_name c s v w =
    rw (dash_cons s, connection_shape-append c (String.◌∷◌ dash_char s) v, w) refl

ids_of_splits :
    (d rest : String) {c s : String}
    → ids_of (some (d, rest)) ≡ some (c, s)
    → (d ≡ c) × (rest ≡ "-" <> s)
ids_of_splits d String.[] h = cc
ids_of_splits d (String.◌∷◌ x t) {c} {s} h =
    let dashed : code x ≡ 45 = ground arith in
    let e : some (d, t) ≡ some (c, s) = ground arith in
    (
      ap (λ (o : Option (String × String)). (get_or o ("", "")).0) e,
      ap₂ String.◌∷◌ (Char-path x dash_char dashed)
            (ap (λ (o : Option (String × String)). (get_or o ("", "")).1) e)
          ∙ sym (dash_cons s),
    )

match_session_name_splits :
    (name : String) {c s : String}
    → match_session_name name ≡ some (c, s)
    → name ≡ session_record_name c s
unfolding match_session_name session_record_name
match_session_name_splits name {c} {s} h = elim (Option-cases (match_shape connection_shape name)) [
  | inl e ↦ ground arith
  | inr ((d, rest), e) ↦
      let (p, q) = ids_of_splits d rest {c = c} {s = s} (sym (ap ids_of e) ∙ h) in
      sym (match_shape_splits connection_shape name e) ∙ ap₂ (λ u v. u <> v) p q
]

session_of_inverts :
    (c : String) (o : Option (String × String)) {y : String}
    → session_of c o ≡ some y
    → o ≡ some (c, y)
session_of_inverts c none h = cc
session_of_inverts c (some (d, t)) {y} h =
    let same : d ≡ c = eq_of_== d c (ground arith) in
    let e : some t ≡ some y = ground arith in ap₂ (λ u v. some (u, v)) same (some-injective t y e)

contains-session_ids :
    (names : List String) (c s : String)
    → is_connection_id c ≡ true
    → is_logind_id s ≡ true
    → contains (session_ids (some names) c) s ≡ contains names (session_record_name c s)
unfolding session_ids
contains-session_ids [] c s v w = refl
contains-session_ids (name ∷ names) c s v w =
    elim (Option-cases (session_of c (match_session_name name))) [
      | inl e ↦
          let other : (name == session_record_name c s) ≡ false = ground (
            arith,
            λ (q : name ≡ session_record_name c s). ap match_session_name q,
            match_session_name-session_record_name c s v w,
            ==_refl c,
          ) in
          ground (arith, contains-session_ids names c s v w)
      | inr (y, e) ↦
          let named =
            match_session_name_splits name (session_of_inverts c (match_session_name name) e) in
          let found : (y ≡ s → name ≡ session_record_name c s) =
            λ q. named ∙ ap (session_record_name c) q in
          let only : (name ≡ session_record_name c s → some y ≡ some s) = λ q.
            sym e
            ∙ ap (λ n. session_of c (match_session_name n)) q
            ∙ ap (session_of c) (match_session_name-session_record_name c s v w)
            ∙ ground arith in
          ground (arith, contains-session_ids names c s v w, found, only)
    ]

contains-claim_or_leave :
    (unlinks : String → Bool) (c : String) (ids : List String) (rest : Claims) (s : String)
    → unlinks c ≡ true
    → contains (claim_or_leave unlinks c ids rest).terminated s
      ≡ (contains ids s || contains rest.terminated s)
contains-claim_or_leave unlinks c [] rest s u = refl
contains-claim_or_leave unlinks c (i ∷ ids) rest s u =
    rw u (contains-append s (i ∷ ids) rest.terminated)

contains-claim_each :
    (unlinks : String → Bool) (names cs : List String) (s : String)
    → all unlinks cs ≡ true
    → all is_connection_id cs ≡ true
    → is_logind_id s ≡ true
    → contains (claim_each unlinks (some names) cs).terminated s
      ≡ any (λ c. contains names (session_record_name c s)) cs
unfolding claim_each
contains-claim_each unlinks names [] s u v w = refl
contains-claim_each unlinks names (c ∷ cs) s u v w =
    contains-claim_or_leave unlinks c (session_ids (some names) c)
      (claim_each unlinks (some names) cs) s (ground arith)
    ∙ ground (
      arith,
      contains-session_ids names c s (ground arith) w,
      contains-claim_each unlinks names cs s (ground arith) (ground arith) w,
    )

-- Where every removal succeeds, a tick ends exactly the sessions that are recorded for the
-- connections that it was asked to end.
pub tick_logind-contains :
    (unlinks : String → Bool) (now : ℕ) (names requested : List String) (orphans : Orphans)
    (s : String)
    → all unlinks requested ≡ true
    → all is_connection_id requested ≡ true
    → is_logind_id s ≡ true
    → contains (tick_logind unlinks now (some names) requested orphans).0.terminated s
      ≡ any (λ c. contains names (session_record_name c s)) requested
unfolding tick_logind
tick_logind-contains unlinks now names requested orphans s u v w =
    contains-claim_each unlinks names requested s u v w
