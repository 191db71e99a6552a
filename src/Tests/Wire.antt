-- ===== src/Tests/Wire.antt =====
-- A big-endian serializer, which meets what the code relies on.
use discovery.Base.{
  ℕ, ◌+◌, ◌-◌, ◌*◌, ◌/◌, ◌%◌, ◌≤◌, ◌<◌, ◌≡◌, refl, sym, ap, ◌∙◌, [], ◌∷◌, ◌++◌, Option, none, some,
  arith,
}
use discovery.Base.{
  leb, length, drop, All, All-drop, ◌>>=◌, >>=-eq-some, length-drop, drop-add, if◌then◌else◌,
}
use mathlib.Core.Option
use mathlib.Core.Option.{some-injective}
use discovery.Base.{Bool-cases, inl, inr, subst, ap₂}
use discovery.Base.Int.{ℤ, pos, negsuc}
use discovery.Base.Text.{Bytes, IsByte}
use discovery.External.Serializer.{Serializer, SerializerLaws, IsField, FitsU16, FitsU32, FitsI64}

abbrev bytes16 : ℕ → Bytes
bytes16 v = (v / 256 % 256) ∷ (v % 256) ∷ []

abbrev bytes32 : ℕ → Bytes
bytes32 v = (v / 16777216 % 256) ∷ (v / 65536 % 256) ∷ (v / 256 % 256) ∷ (v % 256) ∷ []

abbrev to_u64 : ℤ → ℕ
to_u64 (pos n) = n
to_u64 (negsuc n) = 18446744073709551615 - n

abbrev from_u64 : ℕ → ℤ
from_u64 n = if leb n 9223372036854775807 then pos n else negsuc (18446744073709551615 - n)

abbrev bytes64 : ℤ → Bytes
bytes64 z = bytes32 (to_u64 z / 4294967296) ++ bytes32 (to_u64 z % 4294967296)

abbrev head16 : Bytes → Option ℕ
head16 [] = none
head16 (a ∷ []) = none
head16 (a ∷ b ∷ rest) = some (a * 256 + b)

abbrev head32 : Bytes → Option ℕ
head32 [] = none
head32 (a ∷ []) = none
head32 (a ∷ b ∷ []) = none
head32 (a ∷ b ∷ c ∷ []) = none
head32 (a ∷ b ∷ c ∷ d ∷ rest) = some (a * 16777216 + b * 65536 + c * 256 + d)

abbrev head64 : Bytes → Option ℤ
head64 xs = head32 xs >>= λ hi. head32 (drop 4 xs) >>= λ lo. some (from_u64 (hi * 4294967296 + lo))

module _ {A : Type 0} (head : Bytes → Option A) (wire : A → Bytes) (Fits : A → Type 0)
    (width : ℕ) where
  abbrev read_head : Bytes → ℕ → Option (A × ℕ)
  read_head xs offset = head (drop offset xs) >>= λ v. some (v, offset + width)

  head_inverse :
      1 ≤ width
      → ((v : A) → length (wire v) ≡ width)
      → ((xs : Bytes) (v : A)
          → All IsByte xs
          → head xs ≡ some v
          → Fits v × (width ≤ length xs) × (xs ≡ wire v ++ drop width xs))
      → (xs : Bytes) (offset : ℕ) (v : A) (next : ℕ) → All IsByte xs
      → read_head xs offset ≡ some (v, next)
      → Fits v
        × (next ≡ offset + length (wire v))
        × (next ≤ length xs)
        × (drop offset xs ≡ wire v ++ drop next xs)
  head_inverse wide sized inverse xs offset v next bytes h =
      let (u, e, k) = >>=-eq-some (head (drop offset xs)) _ h in
      let same : some u ≡ some v = ap (λ (o : Option (A × ℕ)). Option.map (λ p. p.0) o) k in
      let (fits, long, split) =
        inverse (drop offset xs) v (All-drop IsByte offset xs bytes) (e ∙ same) in
      let last : next ≡ offset + width = ground (arith, k) in
      (
        fits,
        omega (arith, last, sized v),
        omega (arith, last, length-drop offset xs),
        split ∙ ap (◌++◌ (wire v)) (rw (last, drop-add offset width xs)),
      )

  -- A field of a fixed width is read off the front of what stands at the cursor.
  head_field :
      1 ≤ width
      → ((v : A) → length (wire v) ≡ width)
      → ((v : A) (rest : Bytes) → Fits v → head (wire v ++ rest) ≡ some v)
      → ((xs : Bytes) (v : A)
          → All IsByte xs
          → head xs ≡ some v
          → Fits v × (width ≤ length xs) × (xs ≡ wire v ++ drop width xs))
      → IsField (λ buffer v. buffer ++ wire v) read_head wire Fits
  head_field wide sized reads inverse = record {
    append_wire = λ buffer v. refl;
    read_wire = λ v xs rest offset fits e. rw (e, reads v rest fits, sized v);
    read_inverse = head_inverse wide sized inverse;
  }

head32-bytes32 : (v : ℕ) (rest : Bytes) → FitsU32 v → head32 (bytes32 v ++ rest) ≡ some v
head32-bytes32 v rest h = ap some (omega arith)

head32_inverse :
    (xs : Bytes) (v : ℕ)
    → All IsByte xs
    → head32 xs ≡ some v
    → FitsU32 v × (4 ≤ length xs) × (xs ≡ bytes32 v ++ drop 4 xs)
head32_inverse [] v b h = cc
head32_inverse (x ∷ []) v b h = cc
head32_inverse (x ∷ y ∷ []) v b h = cc
head32_inverse (x ∷ y ∷ z ∷ []) v b h = cc
head32_inverse (x ∷ y ∷ z ∷ w ∷ rest) v b h =
    let e : v ≡ x * 16777216 + y * 65536 + z * 256 + w = ground arith in
    (omega arith, omega arith, rw e (four (omega arith) (omega arith) (omega arith) (omega arith)))
  where
    four :
        {a b c d : ℕ} → x ≡ a → y ≡ b → z ≡ c → w ≡ d → x ∷ y ∷ z ∷ w ∷ rest ≡ a ∷ b ∷ c ∷ d ∷ rest
    four p q r s = cc

head16_inverse :
    (xs : Bytes) (v : ℕ)
    → All IsByte xs
    → head16 xs ≡ some v
    → FitsU16 v × (2 ≤ length xs) × (xs ≡ bytes16 v ++ drop 2 xs)
head16_inverse [] v b h = cc
head16_inverse (x ∷ []) v b h = cc
head16_inverse (x ∷ y ∷ rest) v b h =
    let e : v ≡ x * 256 + y = ground arith in
    (omega arith, omega arith, rw e (two (omega arith) (omega arith)))
  where
    two : {a b : ℕ} → x ≡ a → y ≡ b → x ∷ y ∷ rest ≡ a ∷ b ∷ rest
    two p q = cc

from_u64-to_u64 : (z : ℤ) → FitsI64 z → from_u64 (to_u64 z) ≡ z
from_u64-to_u64 (pos n) h = ground arith
from_u64-to_u64 (negsuc n) h = ground arith

to_u64-from_u64 :
    (n : ℕ) → n < 18446744073709551616 → (to_u64 (from_u64 n) ≡ n) × FitsI64 (from_u64 n)
to_u64-from_u64 n h = elim (Bool-cases (leb n 9223372036854775807)) [
  | inl e ↦ rw e (refl, ground (arith, e))
  | inr e ↦ rw e (ground (arith, e), ground (arith, e))
]

to_u64_bound : (z : ℤ) → FitsI64 z → to_u64 z < 18446744073709551616
to_u64_bound (pos n) h = omega arith
to_u64_bound (negsuc n) h = omega arith

head64-bytes64 : (z : ℤ) (rest : Bytes) → FitsI64 z → head64 (bytes64 z ++ rest) ≡ some z
head64-bytes64 z rest h =
    let bound : to_u64 z < 18446744073709551616 = to_u64_bound z h in
    ap some (ap from_u64 (omega arith) ∙ from_u64-to_u64 z h)

head64_inverse :
    (xs : Bytes) (v : ℤ)
    → All IsByte xs
    → head64 xs ≡ some v
    → FitsI64 v × (8 ≤ length xs) × (xs ≡ bytes64 v ++ drop 8 xs)
head64_inverse xs v b h =
    let (hi, e, k) = >>=-eq-some (head32 xs) _ h in
    let (lo, f, m) = >>=-eq-some (head32 (drop 4 xs)) _ k in
    let (hi_fits, long, split) = head32_inverse xs hi b e in
    let (lo_fits, longer, split') = head32_inverse (drop 4 xs) lo (All-drop IsByte 4 xs b) f in
    let n : ℕ = hi * 4294967296 + lo in
    let value : from_u64 n ≡ v = some-injective _ _ m in
    let (back, fits) = to_u64-from_u64 n (omega arith) in
    let total : to_u64 v ≡ n = sym (ap to_u64 value) ∙ back in
    (
      subst FitsI64 value fits,
      omega (arith, length-drop 4 xs),
      split
          ∙ ap₂ (λ (p q : Bytes). p ++ q) (ap bytes32 (omega arith))
              (split'
                ∙ ap₂ (λ (p q : Bytes). p ++ q) (ap bytes32 (omega arith)) (sym (drop-add 4 4 xs))),
    )

abbrev pub big_endian : Serializer
big_endian = record {
  can_read = λ xs offset size. leb (offset + size) (length xs);
  append_u16 = λ buffer v. buffer ++ bytes16 v;
  append_u32 = λ buffer v. buffer ++ bytes32 v;
  append_i64 = λ buffer v. buffer ++ bytes64 v;
  read_u16 = read_head head16 bytes16 FitsU16 2;
  read_u32 = read_head head32 bytes32 FitsU32 4;
  read_i64 = read_head head64 bytes64 FitsI64 8;
}

pub big_endian-laws : SerializerLaws big_endian
big_endian-laws = record {
  can_read_lem = λ xs offset size. refl;
  wire_u16 = bytes16;
  wire_u32 = bytes32;
  wire_i64 = bytes64;
  length-wire_u16 = λ v. refl;
  length-wire_u32 = λ v. refl;
  length-wire_i64 = λ v. refl;
  u16 =
      head_field head16 bytes16 FitsU16 2 (omega arith) (λ v. refl)
        (λ v rest h. ap some (omega arith)) head16_inverse;
  u32 = head_field head32 bytes32 FitsU32 4 (omega arith) (λ v. refl) head32-bytes32 head32_inverse;
  i64 = head_field head64 bytes64 FitsI64 8 (omega arith) (λ v. refl) head64-bytes64 head64_inverse;
}
