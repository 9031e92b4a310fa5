-- ===== src/Chunker.antt =====
-- src/chunker.rs: the rolling hash and the cut test of the content-defined chunker.
-- A `u64` is a number below 2 ^ 64, with the wrap-around written out.
use Prim.Native.Nat.{bit_and, bit_xor}
use rgx.Common.{
  ℕ, ◌+◌, ◌-◌, ◌*◌, ◌/◌, ◌%◌, ◌^◌, Bool, ◌&&◌, ◌||◌, Bytes, ltb, leb, ◌==◌, if◌then◌else◌,
  replicate, get_or, set,
}

abbrev pub min_chunk_size : ℕ
min_chunk_size = 64 * 1024

abbrev pub target_chunk_size : ℕ
target_chunk_size = 256 * 1024

abbrev pub max_chunk_size : ℕ
max_chunk_size = 1024 * 1024

abbrev pub window_size : ℕ
window_size = 64

abbrev boundary_mask : ℕ
boundary_mask = target_chunk_size - 1

pub record RollingHash : Type 0 where
  pub state : ℕ
  pub window : Bytes
  pub position : ℕ
  pub filled : ℕ

-- `RollingHash::default()`
abbrev pub new_rolling : RollingHash
new_rolling = record { state = 0; window = replicate 64 0; position = 0; filled = 0 }

-- `rotate_left(1)`; `rotate_left(WINDOW_SIZE % 64)` is by 0 and changes nothing.
unfoldable pub rotate_left_one : ℕ → ℕ
rotate_left_one v = v * 2 % 2 ^ 64 + v / 2 ^ 63

unfoldable pub gear_value : ℕ → ℕ
gear_value byte =
    let v0 : ℕ = (byte + 0x9E37_79B9_7F4A_7C15) % 2 ^ 64 in
    let v1 : ℕ = bit_xor v0 (v0 / 2 ^ 30) * 0xBF58_476D_1CE4_E5B9 % 2 ^ 64 in
    let v2 : ℕ = bit_xor v1 (v1 / 2 ^ 27) * 0x94D0_49BB_1331_11EB % 2 ^ 64 in
    bit_xor v2 (v2 / 2 ^ 31)

-- The method returns `self.state`, which is the new record's field.
unfoldable pub push : RollingHash → ℕ → RollingHash
push h byte =
    if ltb h.filled window_size
    then (record {
      state = bit_xor (rotate_left_one h.state) (gear_value byte);
      window = set h.window h.position byte;
      position = (h.position + 1) % window_size;
      filled = h.filled + 1;
    })
    else (record {
      state =
          bit_xor (bit_xor (rotate_left_one h.state) (gear_value byte))
            (gear_value (get_or h.window h.position 0));
      window = set h.window h.position byte;
      position = (h.position + 1) % window_size;
      filled = h.filled;
    })

unfoldable pub should_cut : ℕ → ℕ → Bool
should_cut state len =
    leb max_chunk_size len || (leb min_chunk_size len && (bit_and state boundary_mask == 0))
