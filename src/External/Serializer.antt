-- ===== src/External/Serializer.antt =====
-- `softadastra::store::utils::Serializer`, which the repository only calls.
use discovery.Base.{ℕ, ◌+◌, ◌≤◌, ◌<◌, ◌≡◌, Bool, Option, some, ◌++◌, leb, length, drop, All}
use discovery.Base.Int.{ℤ}
pub use discovery.Base.Int.{FitsI64}
use discovery.Base.Text.{Bytes, IsByte}

-- A read returns the value and the offset behind it, or nothing.
pub record Serializer : Type 0 where
  pub can_read : Bytes → ℕ → ℕ → Bool
  pub append_u16 : Bytes → ℕ → Bytes
  pub append_u32 : Bytes → ℕ → Bytes
  pub append_i64 : Bytes → ℤ → Bytes
  pub read_u16 : Bytes → ℕ → Option (ℕ × ℕ)
  pub read_u32 : Bytes → ℕ → Option (ℕ × ℕ)
  pub read_i64 : Bytes → ℕ → Option (ℤ × ℕ)

-- A field of a byte format: what writing appends, that reading at a cursor finds it again, and that
-- whatever a read accepts is what writing would have put there.
pub record IsField {A : Type 0} (append : Bytes → A → Bytes) (read : Bytes → ℕ → Option (A × ℕ))
    (wire : A → Bytes) (Fits : A → Type 0) : Type 0 where
  pub append_wire : (buffer : Bytes) (v : A) → append buffer v ≡ buffer ++ wire v
  pub read_wire :
      (v : A) (data' rest : Bytes) (offset : ℕ)
      → Fits v
      → drop offset data' ≡ wire v ++ rest
      → read data' offset ≡ some (v, offset + length (wire v))
  pub read_inverse :
      (data' : Bytes) (offset : ℕ) (v : A) (next : ℕ)
      → All IsByte data'
      → read data' offset ≡ some (v, next)
      → Fits v
        × (next ≡ offset + length (wire v))
        × (next ≤ length data')
        × (drop offset data' ≡ wire v ++ drop next data')

abbrev pub FitsU16 : ℕ → Type 0
FitsU16 v = v < 65536

abbrev pub FitsU32 : ℕ → Type 0
FitsU32 v = v < 4294967296

-- What the code relies on: the bounds test, and fixed-width fields of two, four and eight bytes.
pub record SerializerLaws (s : Serializer) : Type 0 where
  pub can_read_lem :
      (data' : Bytes) (offset size : ℕ)
      → s.can_read data' offset size ≡ leb (offset + size) (length data')
  pub wire_u16 : ℕ → Bytes
  pub wire_u32 : ℕ → Bytes
  pub wire_i64 : ℤ → Bytes
  pub length-wire_u16 : (v : ℕ) → length (wire_u16 v) ≡ 2
  pub length-wire_u32 : (v : ℕ) → length (wire_u32 v) ≡ 4
  pub length-wire_i64 : (v : ℤ) → length (wire_i64 v) ≡ 8
  pub u16 : IsField s.append_u16 s.read_u16 wire_u16 FitsU16
  pub u32 : IsField s.append_u32 s.read_u32 wire_u32 FitsU32
  pub i64 : IsField s.append_i64 s.read_i64 wire_i64 FitsI64
