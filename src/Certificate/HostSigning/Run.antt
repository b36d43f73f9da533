-- ===== src/Certificate/HostSigning/Run.antt =====
-- Everything that a run of `sign_host_certificate` computes with, for the tests.
use pf.Certificate.{create_host}
use pf.Certificate.UserSigning.Run as UserSigningRun
use pf.Certificate.HostSigning.{host_identifier, sign_keys, sign_host_certificate}

unfoldable pub run : Unit {0}
unfolding UserSigningRun.run create_host host_identifier sign_keys sign_host_certificate
run = tt
