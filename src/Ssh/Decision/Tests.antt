-- ===== src/Ssh/Decision/Tests.antt =====
-- Runs of `SSHChecker` on a small policy, and the theorems at concrete inputs.
use pf.Base.{◌≡◌, refl, true, none, some, [], ◌∷◌, string_eq, nat_eq, option_eq, inl}
use pf.Base.Dict.{lookup}
use pf.Grant.{Grant, Boundary, Role}
use pf.Grant.Permission.{shell, pty, capability_eq}
use pf.Ssh.Ttl.{deadline}
use pf.Ssh.Capabilities.Laws.{lasts as capability_lasts, mentions_capability}
use pf.Ssh.Commands
use pf.Ssh.Commands.Laws.{lasts, mentions_command}
use pf.Ssh.Decision.{
  SshChecker, init, decide_covers, decide, covers_username, covers_unnamed_username,
  candidate_usernames,
}
use pf.Ssh.Decision.Laws.{authorizes}
use pf.Ssh.Decision.Run.{run}
use pf.Ssh.Decision.Policy.{capability-decide, command-decide}
use pf.Ssh.Decision.Listing.{decide_unnamed, allowed-IsListed, IsListed}

-- Shell and pty for an hour on hosts with tag 1, as root or as oneself, and two commands.
abbrev operators : Role
operators = record {
  id = 1;
  name = "operators";
  description = "";
  grant_list =
      Grant.ssh (record {
        filter = record { id = none; tag_id_list = some (1 ∷ []); boundary_id_list = none };
        permission = record {
          username_list = some ("root" ∷ "{self}" ∷ []);
          capability_list = some (shell ∷ pty ∷ []);
          command_list = some ("ls" ∷ "rm" ∷ []);
          max_session_ttl_s = some 3600;
        };
      })
      ∷ [];
  member_id_list = [];
}

-- Any username and any capability on any host, without a bound.
abbrev anyone : Role
anyone = record {
  id = 2;
  name = "anyone";
  description = "";
  grant_list =
      Grant.ssh (record {
        filter = record { id = none; tag_id_list = none; boundary_id_list = none };
        permission = record {
          username_list = none;
          capability_list = none;
          command_list = none;
          max_session_ttl_s = none;
        };
      })
      ∷ [];
  member_id_list = [];
}

-- At most half an hour for everything, and no `rm` at all.
abbrev careful : Boundary
careful = record {
  id = 1;
  name = "careful";
  description = "";
  ceiling_list = some (
      Grant.ssh (record {
        filter = record { id = none; tag_id_list = none; boundary_id_list = none };
        permission = record {
          username_list = none;
          capability_list = none;
          command_list = none;
          max_session_ttl_s = some 1800;
        };
      })
      ∷ []);
  denied_list =
      Grant.ssh (record {
        filter = record { id = some 7; tag_id_list = none; boundary_id_list = none };
        permission = record {
          username_list = some ("root" ∷ []);
          capability_list = some [];
          command_list = some ("rm" ∷ []);
          max_session_ttl_s = none;
        };
      })
      ∷ [];
}

-- The caller `ann` on host 7, which has tags 1 and 2 and boundary 3.
abbrev checker : SshChecker
checker = init 7 (1 ∷ 2 ∷ []) (3 ∷ []) (careful ∷ []) (operators ∷ [])

decide_tests :
    ((decide checker "root" (some "ann")).capability_ttl
      ≡ (shell, some 1800) ∷ (pty, some 1800) ∷ [])
    × (Commands.permits (decide checker "ann" (some "ann")).commands "rm"
        ≡ some (record { ttl = some 1800 }))
    × (Commands.permits (decide checker "root" (some "ann")).commands "rm" ≡ none)
    × (Commands.permits (decide checker "root" (some "ann")).commands "ls"
        ≡ some (record { ttl = some 1800 }))
    × ((decide checker "bob" (some "ann")).capability_ttl ≡ [])
    × ((decide (init 7 [] [] (careful ∷ []) (operators ∷ [])) "root" none).capability_ttl ≡ [])
unfolding run
decide_tests = (refl, refl, refl, refl, refl, refl)

candidates_test :
    candidate_usernames (init 7 (1 ∷ []) [] [] (operators ∷ anyone ∷ [])) (some "ann")
    ≡ ("root" ∷ "ann" ∷ [], true)
unfolding run
candidates_test = refl

deadline_test :
    (deadline 1000 (none ∷ some 60 ∷ some 30 ∷ []) ≡ some 1030) × (deadline 1000 (none ∷ []) ≡ none)
unfolding run
deadline_test = (refl, refl)

capability-decide_example :
    capability_lasts 1800 (lookup shell (decide checker "root" (some "ann")).capability_ttl)
    ≡ authorizes 7
        (1 ∷ 2 ∷ [])
        (3 ∷ [])
        (λ p. covers_username p "root" (some "ann"))
        (mentions_capability shell)
        1800
        (careful ∷ [])
        (operators ∷ [])
capability-decide_example =
    capability-decide 7 (1 ∷ 2 ∷ []) (3 ∷ []) (careful ∷ []) (operators ∷ []) "root" (some "ann")
      shell 1800

command-decide_example :
    lasts 60 (Commands.permits (decide checker "root" (some "ann")).commands "rm")
    ≡ authorizes 7
        (1 ∷ 2 ∷ [])
        (3 ∷ [])
        (λ p. covers_username p "root" (some "ann"))
        (mentions_command "rm")
        60
        (careful ∷ [])
        (operators ∷ [])
command-decide_example =
    command-decide 7 (1 ∷ 2 ∷ []) (3 ∷ []) (careful ∷ []) (operators ∷ []) "root" (some "ann") "rm"
      60

decide_unnamed_example :
    decide checker "bob" (some "ann") ≡ decide_covers checker covers_unnamed_username
unfolding run
decide_unnamed_example = decide_unnamed (some "ann") "bob" checker refl refl refl

allowed-IsListed_example : IsListed (some "ann") "root" checker
unfolding run
allowed-IsListed_example = allowed-IsListed (some "ann") "root" checker 60 shell "ls" (inl refl)
