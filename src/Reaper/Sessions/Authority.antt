-- ===== src/Reaper/Sessions/Authority.antt =====
-- Why a process is signalled: the state of the reaper is explained by the ticks so far.
use mathlib.Core.List.{Memᴰ}
use pf.Base.{
  ℕ, ◌+◌, ◌/◌, ◌≤◌, String, Bool, true, false, nat_eq, string_eq, some, List, [], ◌∷◌, ◌≡◌, ◌⊎◌,
}
use pf.Base.Dict.{lookup}
use pf.Reaper.Record.{Record, read_record}
use pf.Reaper.Processes.{Proc}
use pf.Reaper.Processes.Descendants.{Below}
use pf.Reaper.Sessions.{
  Effect, unlinked, reported, signalled, request_removed, Reaper, Settings, Host, Turn, is_due,
}

-- At a tick, the process of the record passed the test for connections, and it was not younger
-- than the record.
pub record Recognised (c : Settings) (name : String) (started : ℕ) (h : Host) : Type 0 where
  pub entry : Record
  pub proc : Proc
  pub read : read_record name (h.file name) ≡ some entry
  pub found : lookup entry.pid h.snapshot ≡ some proc
  pub start_time : h.start_time entry.pid ≡ some started
  pub accepted : c.is_connection h.snapshot proc ≡ true
  pub older : started ≤ entry.written_ms / 1000

-- At a tick, at a time, the session of the record had to end.
pub record Asked (c : Settings) (name : String) (started at : ℕ) (h : Host) : Type 0 where
  pub entry : Record
  pub read : read_record name (h.file name) ≡ some entry
  pub start_time : h.start_time entry.pid ≡ some started
  pub due : is_due c h name entry ≡ true
  pub time : h.now name ≡ at

pub record Explained (c : Settings) (seen : List Host) (s : Reaper) : Type 0 where
  pub bound :
      (name : String) (b : ℕ)
      → lookup name s.bound ≡ some b
      → (k : Host) × Memᴰ k seen × Recognised c name b k
  pub ending :
      (name : String) (t : ℕ)
      → lookup name s.ending ≡ some t
      → (b : ℕ) × (lookup name s.bound ≡ some b) × (k : Host) × Memᴰ k seen × Asked c name b t k

-- The process is killed only if it was asked to end, at least the time of grace earlier.
abbrev pub Reason : Settings → List Host → Host → String → Record → ℕ → Bool → Type 0
Reason c seen h name r b false = is_due c h name r ≡ true
Reason c seen h name r b true =
    (k : Host) × Memᴰ k seen × (t : ℕ) × Asked c name b t k × (t + c.grace ≤ h.now name)

pub record IsAuthorised (c : Settings) (seen : List Host) (h : Host) (p : ℕ) (force : Bool)
    : Type 0 where
  pub name : String
  pub entry : Record
  pub started : ℕ
  pub read : read_record name (h.file name) ≡ some entry
  pub start_time : h.start_time entry.pid ≡ some started
  pub target : (p ≡ entry.pid) ⊎ Below h.snapshot entry.pid p
  pub first : (k : Host) × Memᴰ k seen × Recognised c name started k
  pub reason : Reason c seen h name entry started force

abbrev pub Fine : Settings → List Host → Host → Effect → Type 0
Fine c seen h (signalled p force) = IsAuthorised c seen h p force
Fine c seen h (unlinked _) = Unit
Fine c seen h (reported _ _ _) = Unit
Fine c seen h (request_removed _) = Unit

abbrev pub AllFine : Settings → List Host → Host → List Effect → Type 0
AllFine c seen h [] = Unit
AllFine c seen h (e ∷ es) = Fine c seen h e × AllFine c seen h es

abbrev pub Lawful : Settings → List Host → Host → Turn → Type 0
Lawful c seen h t = Explained c seen t.state × AllFine c seen h t.effects
