-- ===== src/Cli.antt =====
-- The command line programs of src/provablyfine/cli: an error that is shown to the user
-- (`pfc.exceptions.UI`) ends the program.
use Prim.Native.Char.{Char, code}
use Prim.Native.String.{◌++◌ as ◌<>◌}
use mathlib.Core.Path.{ap}
use text.Mathlib.TextLemmas.{nil-append, cons-append}
use pf.Base.{ℕ, ◌≡◌, refl, ◌∙◌, true, List, [], ◌∷◌, String, ◌==◌, nat_eq, if◌then◌else◌, arith}
use pf.Base.Text.Decimal.{lacks}

pub data Result (A : Type 0) : Type 0 where
  value : A → Result A
  ui_error : String → Result A

-- A character in front of the first part.
abbrev pub extend : Char → List String → List String
extend c [] = String.◌∷◌ c "" ∷ []
extend c (t ∷ ts) = String.◌∷◌ c t ∷ ts

-- `s.split(separator)`, the separator given by its code.
unfoldable pub split : ℕ → String → List String
split separator String.[] = "" ∷ []
split separator (String.◌∷◌ c s) =
    let rest = split separator s in if code c == separator then "" ∷ rest else extend c rest

-- A text without the separator is one part.
pub split-lacks : (k : ℕ) (s : String) → lacks k s ≡ true → split k s ≡ s ∷ []
unfolding split
split-lacks k String.[] h = refl
split-lacks k (String.◌∷◌ c s) h = ground (arith, split-lacks k s)

-- What stands before the first separator is the first part.
split-append :
    (k : ℕ) (s : String) (c : Char) (t : String)
    → lacks k s ≡ true
    → code c ≡ k
    → split k (s <> String.◌∷◌ c t) ≡ s ∷ split k t
unfolding split
split-append k String.[] c t h e = ap (split k) (nil-append _) ∙ ground arith
split-append k (String.◌∷◌ d s) c t h e =
    ap (split k) (cons-append d s _) ∙ ground (arith, split-append k s c t)

pub split-separator :
    (k : ℕ) (s : String) (c : Char) (t : String)
    → lacks k s ≡ true
    → code c ≡ k
    → split k (s <> (String.◌∷◌ c "" <> t)) ≡ s ∷ split k t
split-separator k s c t h e =
    ap (λ u. split k (s <> u)) (cons-append c "" t ∙ ap (String.◌∷◌ c) (nil-append t))
    ∙ split-append k s c t h e
