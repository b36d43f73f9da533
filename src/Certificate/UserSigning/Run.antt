-- ===== src/Certificate/UserSigning/Run.antt =====
-- Everything that a run of `sign_user_certificate` computes with, for the tests.
use pf.Base.{string_eq, nat_eq}
use pf.Base.Text.{digit, decimal_loop, decimal}
use pf.Ssh.Decision.Run as DecisionRun
use pf.Certificate.{join_commas, write_critical_options, write_extensions, create_user}
use pf.Certificate.Serial.{compare_and_set, attempts, allocate_serial_numbers}
use pf.Certificate.UserSigning.{
  embedded_capabilities, bounds, shell_options, restricted, forwarding_options, command_options,
  options, read_name, principal, matches_caller, login_addresses, same_type, read_current,
  first_key, set_serial, reserve, issue, sign_user_certificate,
}

unfoldable pub run : Unit {0}
unfolding DecisionRun.run digit decimal_loop decimal join_commas write_critical_options
    write_extensions create_user compare_and_set attempts allocate_serial_numbers
    embedded_capabilities bounds shell_options restricted forwarding_options command_options options
    read_name principal matches_caller login_addresses same_type read_current first_key set_serial
    reserve issue sign_user_certificate string_eq nat_eq
run = tt
