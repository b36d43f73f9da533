-- ===== src/Wire/Buffer/Run.antt =====
-- Everything that a run of a reader or a writer computes with, for the tests.
use pf.Base.{nat_eq}
use pf.Wire.Bytes.{
  big_endian, to_bytes, from_bytes_loop, from_bytes, to_bytes_negative, from_bytes_signed,
}
use pf.Wire.Buffer.{
  read_bytes, read_uint, read_uint32, read_string, read_mpint, write_uint, write_uint32, write_byte,
  write_bytes, write_string, bit_length_loop, bit_length, padded, write_mpint,
}

unfoldable pub run : Unit {0}
unfolding nat_eq big_endian to_bytes from_bytes_loop from_bytes to_bytes_negative from_bytes_signed
    read_bytes read_uint read_uint32 read_string read_mpint write_uint write_uint32 write_byte
    write_bytes write_string bit_length_loop bit_length padded write_mpint
run = tt
