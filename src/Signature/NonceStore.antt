-- ===== src/Signature/NonceStore.antt =====
-- `NonceStore` of src/provablyfine/api/signature.py: the (key id, nonce) pairs that were accepted,
-- each with the time up to which it is remembered.
pub mod Laws
use pf.Base.{
  ℕ, Bool, true, false, not, List, [], ◌∷◌, String, Option, none, some, string_eq, pair_eq,
  if◌then◌else◌,
}
use pf.Base.Dict.{Dict, contains_key, insert}
use pf.Base.Int.{ℤ, pos, add_ℕ, le_int}

pub record NonceStore : Type 0 where
  pub window_seconds : ℕ
  pub started_at : ℕ
  pub seen : Dict (String × String) ℤ

-- `_expire`: entries go from the front until one is still live.
unfoldable pub expire : ℕ → Dict (String × String) ℤ → Dict (String × String) ℤ
expire now [] = []
expire now ((k, expires) ∷ seen) =
    let rest = expire now seen in if le_int now expires then (k, expires) ∷ seen else rest

unfoldable pub check_and_add : NonceStore → String → String → ℕ → ℤ → NonceStore × Bool
check_and_add s key_id nonce now created =
    let seen = expire now s.seen in
    if not (le_int s.started_at created)
    then (record s { seen = seen }, false)
    else if contains_key (key_id, nonce) seen
    then (record s { seen = seen }, false)
    else (record s { seen = insert (key_id, nonce) (add_ℕ created s.window_seconds) seen }, true)
