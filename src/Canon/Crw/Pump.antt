-- ===== src/Canon/Crw/Pump.antt =====
-- src/canon/crw/decompress.rs: `BitPump`, which reads bits from bytes where a zero follows each 0xff.
pub mod Loads
pub mod Stuffed
pub mod Bits
pub mod Safe
use libopenraw.Prelude.{
  ◌>>=◌, ◌>>◌, ℕ, zero, suc, ◌+◌, ◌-◌, ◌^◌, ◌%◌, ◌==◌, leb, ltb, if◌then◌else◌, Result, ok, panic,
  require, index, shl, shr, ℤ, pos, negsuc,
}
use libopenraw.Io.{View, view_read}

-- `read_u8` of the byteorder crate: one byte, by `read_exact`.
unfoldable pub view_u8 : View → Result (ℕ × View)
view_u8 view = do (bytes, view') ← view_read 1 view; b ← index bytes 0; ok (b, view')

pub record BitPump : Type 0 where
  pub bitbuf : ℕ
  pub vbits : ℕ

-- `BitPump::default()`
abbrev pub empty_pump : BitPump
empty_pump = record { bitbuf = 0; vbits = 0 }

-- The zero behind a byte 0xff is passed.
unfoldable pub pass_zero : ℕ → View → Result View
pass_zero c view = if c == 0xff then (do (z, view') ← view_u8 view; ok view') else ok view

unfoldable pub pump_byte : ℕ → BitPump → BitPump
pump_byte c pump = record { bitbuf = (shl 32 pump.bitbuf 8 + c) % 2 ^ 32; vbits = pump.vbits + 8 }

abbrev pub Pumped : Type 0
Pumped = BitPump × View

-- The loop that loads bytes. A round loads 8 bits, so that 4 rounds pass 24 bits.
unfoldable pub fill_pump : ℕ → BitPump → View → Result Pumped
fill_pump zero pump view = ok (pump, view)
fill_pump (suc left) pump view =
    if ltb pump.vbits 25
    then (do (c, v1) ← view_u8 view; v2 ← pass_zero c v1; fill_pump left (pump_byte c pump) v2)
    else ok (pump, view)

-- The top `n` of the bits that the pump holds. A shift by 32 or more panics.
unfoldable pub top_bits : ℕ → BitPump → Result ℕ
top_bits n pump = do
  require (ltb 0 pump.vbits)
  require (leb pump.vbits 32)
  require (leb n 32)
  ok (shr (shl 32 pump.bitbuf (32 - pump.vbits)) (32 - n))

-- `get_bits` of -1 starts the buffer. No caller asks for more bits than the 25 that a filled pump
-- holds, and `require` stands for a count below 0.
unfoldable pub get_bits : ℤ → BitPump → View → Result (ℕ × Pumped)
get_bits (pos zero) pump view = ok (0, (pump, view))
get_bits (pos (suc n)) pump view = do
  ret ← top_bits (suc n) pump
  require (leb (suc n) pump.vbits)
  pumped ← fill_pump 4 (record pump { vbits = pump.vbits - suc n }) view
  ok (ret, pumped)
get_bits (negsuc zero) pump view = do pumped ← fill_pump 4 empty_pump view; ok (0, pumped)
get_bits (negsuc (suc n)) pump view = panic
