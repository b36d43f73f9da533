-- ===== src/Signature/Session/Run.antt =====
-- Everything that a run of `verify_session` computes with, for the tests.
use pf.Signature.Message.{get_keyid, strip_prefix}
use pf.Signature.Verify.Run as VerifyRun
use pf.Signature.Session.{
  is_allowed, admit, admit_public, with_session, with_key_id, verify_session,
}

unfoldable pub run : Unit {0}
unfolding VerifyRun.run get_keyid strip_prefix is_allowed admit admit_public with_session
    with_key_id verify_session
run = tt
