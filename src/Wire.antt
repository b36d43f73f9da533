-- ===== src/Wire.antt =====
-- The messages of the agent protocol, from src/provablyfine/ssh: numbers, texts and frames of bytes.
-- A byte is a number below 256.
pub mod Bytes
pub mod Buffer
pub mod Socket
pub mod Agent
pub mod Tests
use pf.Base.{String}

-- What a call does: it returns, raises `exceptions.Error`, or raises another exception.
pub data Call {ℓ} (A : Type ℓ) : Type ℓ where
  done : A → Call A
  error : String → Call A
  crash : Call A

infixl 10 ◌>>=◌
abbrev pub ◌>>=◌ : {A B : Type 0} → Call A → (A → Call B) → Call B
done a >>= f = f a
error e >>= f = error e
crash >>= f = crash
