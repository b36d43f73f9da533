-- ===== src/Signature/Verify/Run.antt =====
-- Everything that a run of `verify` computes with, for the tests.
use pf.Base.{string_eq, nat_eq, pair_eq}
use pf.Signature.Message.{parse_signature_input, parse_signature, build_signature_base}
use pf.Signature.NonceStore.{expire, check_and_add}
use pf.Signature.Verify.{
  reject, label_by_keyid, nonce_of, created_of, covers_expected, check_time, read_signed,
  signature_of, use_nonce, after_check, finish, prepare, verify,
}

unfoldable pub run : Unit {0}
unfolding string_eq nat_eq pair_eq parse_signature_input parse_signature build_signature_base expire
    check_and_add reject label_by_keyid nonce_of created_of covers_expected check_time read_signed
    signature_of use_nonce after_check finish prepare verify
run = tt
