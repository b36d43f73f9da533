-- ===== src/Live/Registry/Run.antt =====
-- Everything that a run of the registry computes with, for the tests.
use pf.Base.{string_eq, nat_eq, option_eq}
use pf.Live.Registry.{
  read_connection, connection, conflicts, create_if_absent, start, reported, close, close_all, end,
}

unfoldable pub run : Unit {0}
unfolding string_eq nat_eq option_eq read_connection connection conflicts create_if_absent start
    reported close close_all end
run = tt
