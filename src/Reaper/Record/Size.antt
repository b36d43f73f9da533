-- ===== src/Reaper/Record/Size.antt =====
-- The size of what write_record writes.
use Prim.Native.String.{◌++◌ as ◌<>◌}
use text.Mathlib.TextLemmas.{nil-append, cons-append}
use pf.Base.{
  ℕ, zero, suc, ◌+◌, ◌^◌, ◌/◌, ◌%◌, ◌≤◌, ◌<◌, String, true, ltb, ◌==◌, eq_of_==, nat_eq, Option,
  none, some, get_or, List, [], ◌∷◌, length, ◌≡◌, refl, ap, ◌∙◌, sym, inl, inr, Bool-cases, arith,
}
use pf.Base.Text.{digit, of_digits, decimal, decimal_loop}
use pf.Reaper.Names.{Class, match_shape, connection_shape, is_connection_id}
use pf.Reaper.Names.Shapes.{prepend_splits, match_shape_whole}
use pf.Reaper.Record.{Record, text_size, content, deadline_text, max_record_bytes, max_pid}

size-append : (s t : String) → text_size (s <> t) ≡ text_size s + text_size t
unfolding text_size
size-append String.[] t = omega (arith, ap text_size (nil-append t))
size-append (String.◌∷◌ c s) t = omega (arith, ap text_size (cons-append c s t), size-append s t)

size-digit : (d : ℕ) → text_size (digit d) ≡ 1
unfolding text_size nat_eq
size-digit d =
    omega (arith, eq_of_== (text_size (digit d)) 1 (of_digits (λ s. text_size s == 1) refl d))

size-decimal_loop : (fuel k n : ℕ) → n < 10 ^ suc k → text_size (decimal_loop fuel n) ≤ suc k
unfolding decimal_loop text_size
size-decimal_loop zero k n h = omega arith
size-decimal_loop (suc fuel) zero n h =
    let small : ltb n 10 ≡ true = ground arith in rw small (omega (arith, size-digit n))
size-decimal_loop (suc fuel) (suc k) n h = elim (Bool-cases (ltb n 10)) [
  | inl small ↦ rw small (omega (arith, size-digit n))
  | inr large ↦
      let shorter : n / 10 < 10 ^ suc k = ground arith in
      rw large (
        omega (
          arith,
          size-append (decimal_loop fuel (n / 10)) (digit (n % 10)),
          size-digit (n % 10),
          size-decimal_loop fuel k (n / 10) shorter,
        ))
]

pub size-decimal : (k n : ℕ) → n < 10 ^ suc k → text_size (decimal n) ≤ suc k
unfolding decimal
size-decimal k n h = size-decimal_loop (suc n) k n h

size-match_shape :
    (shape : List Class) (s : String) {m r : String}
    → match_shape shape s ≡ some (m, r)
    → text_size m ≡ length shape
unfolding match_shape text_size
size-match_shape [] s h =
    ap (λ (o : Option (String × String)). text_size (get_or o ("", "")).0) (sym h)
size-match_shape (k ∷ shape) String.[] h = cc
size-match_shape (k ∷ shape) (String.◌∷◌ c s) {m} {r} h =
    let (u, found, e) = prepend_splits c (match_shape shape s) {m = m} {r = r} (ground arith) in
    ap text_size (sym e) ∙ ap suc (size-match_shape shape s found)

size-connection_id : (s : String) → is_connection_id s ≡ true → text_size s ≡ 36
unfolding is_connection_id
size-connection_id s h =
    size-match_shape connection_shape s (match_shape_whole connection_shape s h)

-- A deadline of at most twenty digits, if there is one.
abbrev pub IsShort : Option ℕ → Type 0
IsShort none = Unit
IsShort (some n) = n < 10 ^ 20

size-deadline_text : (d : Option ℕ) → IsShort d → text_size (deadline_text d) ≤ 20
unfolding text_size
size-deadline_text none h = omega arith
size-deadline_text (some n) h = size-decimal 19 n h

pub size-content :
    (r : Record)
    → r.pid < max_pid
    → r.written_ms < 10 ^ 20
    → IsShort r.deadline
    → is_connection_id r.connection_id ≡ true
    → text_size (content r) ≤ max_record_bytes
unfolding content text_size
size-content r p w d c =
    let tail = r.connection_id <> "\"}" in
    let t₁ = ", \"connection_id\": \"" <> tail in
    let t₂ = deadline_text r.deadline <> t₁ in
    let t₃ = ", \"deadline\": " <> t₂ in
    let t₄ = decimal r.written_ms <> t₃ in
    let t₅ = ", \"written_ms\": " <> t₄ in
    let t₆ = decimal r.pid <> t₅ in
    omega (
      arith,
      size-append "{\"pid\": " t₆,
      size-append (decimal r.pid) t₅,
      size-append ", \"written_ms\": " t₄,
      size-append (decimal r.written_ms) t₃,
      size-append ", \"deadline\": " t₂,
      size-append (deadline_text r.deadline) t₁,
      size-append ", \"connection_id\": \"" tail,
      size-append r.connection_id "\"}",
      size-decimal 9 r.pid (omega arith),
      size-decimal 19 r.written_ms w,
      size-deadline_text r.deadline d,
      size-connection_id r.connection_id c,
    )
