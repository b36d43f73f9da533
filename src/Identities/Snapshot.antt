-- ===== src/Identities/Snapshot.antt =====
-- What the deletion of an identity destroys, for the audit log: `_deletion_snapshot` of
-- src/provablyfine/api/model/identity.py.
use pf.Base.{
  ℕ, ◌+◌, ◌-◌, ◌≤◌, max, String, Bool, not, ◌&&◌, leb, ltb, if◌then◌else◌, ◌==◌, nat_eq, is_some,
  filter, map, length, take, length-take, Option, none, some, List, [], ◌∷◌, ◌≡◌, refl, arith,
}
use pf.Certificate.Tables.{Identity}

-- A row of identity_boundary, identity_tag or role_member.
pub record Link : Type 0 where
  pub identity_id : ℕ
  pub other_id : ℕ

pub record SessionRow : Type 0 where
  pub id : String
  pub identity_id : ℕ
  pub is_revoked : Bool
  pub logged_out_at : Option ℕ
  pub created_at : ℕ
  pub expires_at : ℕ
  pub login_ip : Option String
  pub role_id : Option ℕ

pub record InvitationRow : Type 0 where
  pub id : String
  pub identity_id : ℕ
  pub is_accepted : Bool
  pub is_revoked : Bool
  pub expires_at : ℕ

pub record AccountKeyRow : Type 0 where
  pub id : String
  pub identity_id : ℕ
  pub is_revoked : Bool

pub record ConnectionRow : Type 0 where
  pub connection_id : String
  pub identity_id : ℕ
  pub hostname : String
  pub deadline : Option ℕ
  pub valid_before : ℕ

-- The entry keeps some fields of these rows; whole rows stand for them here.
pub record Deletion : Type 0 where
  pub name : String
  pub unix_username : Option String
  pub tag_id_list : List ℕ
  pub boundary_id_list : List ℕ
  pub role_id_list : List ℕ
  pub account_keys : List AccountKeyRow
  pub pending_invitations : List InvitationRow
  pub session_count : ℕ
  pub last_session_created_at : Option ℕ
  pub live_sessions : List SessionRow
  pub live_sessions_truncated : ℕ
  pub valid_ssh_connections : List ConnectionRow

abbrev pub audit_live_sessions : ℕ
audit_live_sessions = 50

module _ {R : Type 0} (owner : R → ℕ) where
  -- `read_all(identity_id=id)`
  abbrev pub owned : ℕ → List R → List R
  owned id rows = filter (λ r. owner r == id) rows

  -- `delete(identity_id=id)`
  abbrev pub others : ℕ → List R → List R
  others id rows = filter (λ r. not (owner r == id)) rows

-- `sort(key=…, reverse=True)` keeps the order of rows with the same key.
module _ {R : Type 0} (key : R → ℕ) where
  abbrev pub place_before : R → List R → List R
  place_before r [] = r ∷ []
  place_before r (s ∷ rest) =
      let later = s ∷ place_before r rest in if leb (key s) (key r) then r ∷ s ∷ rest else later

  unfoldable pub sort_down : List R → List R
  sort_down [] = []
  sort_down (r ∷ rest) = place_before r (sort_down rest)

abbrev pub place_up : ℕ → List ℕ → List ℕ
place_up n [] = n ∷ []
place_up n (m ∷ rest) = let later = m ∷ place_up n rest in if leb n m then n ∷ m ∷ rest else later

unfoldable pub sort_up : List ℕ → List ℕ
sort_up [] = []
sort_up (n ∷ rest) = place_up n (sort_up rest)

-- `max(…, default=None)`
abbrev pub latest : List ℕ → Option ℕ
latest [] = none
latest (n ∷ rest) = elim (latest rest) [ none ↦ some n | some m ↦ some (max n m) ]

abbrev pub is_live_session : ℕ → SessionRow → Bool
is_live_session now s = not s.is_revoked && not (is_some s.logged_out_at) && ltb now s.expires_at

abbrev pub is_pending : ℕ → InvitationRow → Bool
is_pending now i = not i.is_accepted && not i.is_revoked && ltb now i.expires_at

-- The live sessions, the newest first.
abbrev pub live_of : ℕ → List SessionRow → List SessionRow
live_of now sessions = sort_down (λ s. s.created_at) (filter (is_live_session now) sessions)

unfoldable pub snapshot_of :
    ℕ
    → Identity
    → List Link
    → List AccountKeyRow
    → List InvitationRow
    → List SessionRow
    → List ConnectionRow
    → Deletion
snapshot_of now identity members keys invitations sessions connections =
    let mine = owned (λ s. s.identity_id) identity.id sessions in
    let live = live_of now mine in
    record {
      name = identity.name;
      unix_username = identity.unix_username;
      tag_id_list = identity.tag_id_list;
      boundary_id_list = identity.boundary_id_list;
      role_id_list =
          sort_up (map (λ m. m.other_id) (owned (λ m. m.identity_id) identity.id members));
      account_keys = owned (λ k. k.identity_id) identity.id keys;
      pending_invitations =
          filter (is_pending now) (owned (λ i. i.identity_id) identity.id invitations);
      session_count = length mine;
      last_session_created_at = latest (map (λ s. s.created_at) mine);
      live_sessions = take audit_live_sessions live;
      live_sessions_truncated = length live - audit_live_sessions;
      valid_ssh_connections =
          filter (λ c. ltb now c.valid_before) (owned (λ c. c.identity_id) identity.id connections);
    }

length-place_before :
    {R : Type 0} (key : R → ℕ) (r : R) (rs : List R)
    → length (place_before key r rs) ≡ length rs + 1
length-place_before key r [] = omega arith
length-place_before key r (s ∷ rs) = ground (arith, length-place_before key r rs)

length-sort_down : {R : Type 0} (key : R → ℕ) (rs : List R) → length (sort_down key rs) ≡ length rs
unfolding sort_down
length-sort_down key [] = refl
length-sort_down key (r ∷ rs) =
    omega (arith, length-place_before key r (sort_down key rs), length-sort_down key rs)

-- The entry lists at most 50 live sessions, and with the number of those left out they are all.
pub snapshot_bounds :
    (now : ℕ) (identity : Identity) (members : List Link) (keys : List AccountKeyRow)
    (invitations : List InvitationRow) (sessions : List SessionRow)
    (connections : List ConnectionRow)
    → let d = snapshot_of now identity members keys invitations sessions connections in
      (length d.live_sessions ≤ audit_live_sessions)
      × (length d.live_sessions + d.live_sessions_truncated
          ≡ length (filter (is_live_session now) (owned (λ s. s.identity_id) identity.id sessions)))
unfolding snapshot_of
snapshot_bounds now identity members keys invitations sessions connections =
    let mine = owned (λ s. s.identity_id) identity.id sessions in
    let live = live_of now mine in
    let all = length-sort_down (λ s. s.created_at) (filter (is_live_session now) mine) in
    (
      omega (arith, length-take audit_live_sessions live),
      omega (arith, length-take audit_live_sessions live, all),
    )
