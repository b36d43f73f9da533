-- ===== src/Reaper/Ticks.antt =====
-- One tick of the reaper, and its runs: the methods tick and run of the class Reaper of
-- src/provablyfine/cli/pf/openssh_session_reaper.py.
pub mod Safety
pub mod Reports
use pf.Base.{
  ℕ, String, Bool, true, false, not, if◌then◌else◌, string_eq, contains, filter, is_some, Option,
  none, some, List, [], ◌∷◌, ◌++◌,
}
use pf.Base.Dict.{keys}
use pf.Reaper.Names.{match_record_name}
use pf.Reaper.Record.{Record}
use pf.Reaper.Requests.{expire}
use pf.Reaper.Sessions.{Effect, request_removed, Reaper, Settings, Host, Turn, forget, handle}

-- A round of a loop: the state, the effects so far, and the ids whose session is live.
pub record Round : Type 0 where
  pub state : Reaper
  pub effects : List Effect
  pub live : List String

abbrev pub add_live : Option Record → List String → List String
add_live none live = live
add_live (some r) live = r.connection_id ∷ live

abbrev pub take_turn : Turn → Round → Round
take_turn t round = record {
  state = t.state;
  effects = round.effects ++ t.effects;
  live = add_live t.live round.live;
}

abbrev pub none_yet : Reaper → Round
none_yet s = record { state = s; effects = []; live = [] }

module _ (c : Settings) (h : Host) where
  -- A name that is none of a record is passed over.
  unfoldable pub handle_named : String → Round → Round
  handle_named name round =
      if is_some (match_record_name name)
      then take_turn (handle c h name round.state) round
      else round

  -- The first loop of `tick`.
  unfoldable pub handle_each : List String → Round → Round
  handle_each [] round = round
  handle_each (name ∷ names) round = handle_each names (handle_named name round)

  -- The second loop of `tick`.
  unfoldable pub forget_each : List String → Round → Round
  forget_each [] round = round
  forget_each (name ∷ names) round =
      forget_each names (take_turn (forget c h name round.state) round)

  abbrev pub removals : List String → List Effect
  removals [] = []
  removals (i ∷ ids) = request_removed i ∷ removals ids

  -- `self._requests.expire(requested - live)`
  unfoldable pub expire_requests : Round → Round
  expire_requests round =
      let e =
        expire h.drops_request h.expires_at (filter (λ i. not (contains round.live i)) h.requested)
          round.state.orphans in
      record round {
        state = record round.state { orphans = e.orphans };
        effects = round.effects ++ removals e.removed;
      }

  abbrev pub sweep : List String → Reaper → Round
  sweep names s =
      let handled = handle_each names (none_yet s) in
      let gone = filter (λ name. not (contains names name)) (keys handled.state.bound) in
      expire_requests (forget_each gone handled)

  abbrev pub tick_listed : Reaper → Option (List String) → Round
  tick_listed s none = none_yet s
  tick_listed s (some names) = sweep names s

  -- `tick`
  unfoldable pub tick : Reaper → Round
  tick s = tick_listed s h.names

-- `run`: the state after the ticks so far, the newest tick first.
unfoldable pub state_after : Settings → Reaper → List Host → Reaper
state_after c s [] = s
state_after c s (h ∷ hs) = (tick c h (state_after c s hs)).state
