-- ===== src/Encoding/Fields.antt =====
-- The readers and writers of one field: what `IsField` asks, for a byte and for a sized string.
use discovery.Base.{ℕ, ◌+◌, ◌%◌, ◌≤◌, ◌≡◌, sym, ap, ap₂, ◌∙◌, List, [], ◌∷◌, ◌++◌, some, arith}
use discovery.Base.{length, drop, take, All, le→leb}
use discovery.Base.{length-append, length-drop, length-take, take-append-drop, take-append_left}
use discovery.Base.{drop-append_left, drop-add, drop-get_elem?, get_elem?-drop}
use discovery.Base.{>>=-eq-some}
use discovery.Base.Text.{Bytes, IsByte}
use discovery.External.Serializer.{Serializer, SerializerLaws, IsField, FitsU32}
use discovery.Encoding.Encode.{append_string, append_bytes}
use discovery.Encoding.Decode.{read_u8, read_string, read_bytes}
use mathlib.Core.List.{append_assoc}

module _ {ℓ} {A : Type ℓ} where
  -- Behind a field that stands at the cursor stands the rest.
  pub drop_past :
      (xs w rest : List A) (offset : ℕ)
      → drop offset xs ≡ w ++ rest
      → drop (offset + length w) xs ≡ rest
  drop_past xs w rest offset e = drop-add offset (length w) xs ∙ rw e (drop-append_left w rest)

  -- A field that is not empty lies inside the list.
  pub drop_bound :
      (xs w rest : List A) (offset : ℕ)
      → drop offset xs ≡ w ++ rest
      → 1 ≤ length w
      → length xs ≡ offset + length w + length rest
  drop_bound xs w rest offset e h =
      omega (arith, length-drop offset xs, ap length e, length-append w rest)

-- A string below 4 GiB fits its size field.
abbrev pub FitsText : Bytes → Type 0
FitsText v = FitsU32 (length v)

module _ {s : Serializer} (laws : SerializerLaws s) where
  -- A string behind its size.
  abbrev pub wire_text : Bytes → Bytes
  wire_text v = laws.wire_u32 (length v % 4294967296) ++ v

  pub length-wire_text : (v : Bytes) → length (wire_text v) ≡ 4 + length v
  length-wire_text v = omega (
    arith,
    length-append (laws.wire_u32 (length v % 4294967296)) v,
    laws.length-wire_u32 (length v % 4294967296),
  )

  append_string_wire : (buffer v : Bytes) → append_string s buffer v ≡ buffer ++ wire_text v
  unfolding append_string
  append_string_wire buffer v =
      rw (laws.u32.append_wire buffer (length v % 4294967296)) (append_assoc buffer _ v)

  read_string_ok :
      (data' : Bytes) (offset size start : ℕ)
      → s.read_u32 data' offset ≡ some (size, start)
      → start + size ≤ length data'
      → read_string s data' offset ≡ some (take size (drop start data'), start + size)
  unfolding read_string
  read_string_ok data' offset size start r fits =
      rw (r, laws.can_read_lem data' start size, le→leb _ _ fits)

  text_at : (v rest xs : Bytes) (size : ℕ) → size ≡ length v → xs ≡ v ++ rest → take size xs ≡ v
  text_at v rest xs size n e = rw (n, e) (take-append_left v rest)

  read_string_wire :
      (v data' rest : Bytes) (offset : ℕ)
      → FitsText v
      → drop offset data' ≡ wire_text v ++ rest
      → read_string s data' offset ≡ some (v, offset + length (wire_text v))
  read_string_wire v data' rest offset fits e =
      let size : ℕ = length v % 4294967296 in
      let sized : size ≡ length v = omega arith in
      let sizes : Bytes = laws.wire_u32 size in
      let start : ℕ = offset + length sizes in
      let apart : drop offset data' ≡ sizes ++ (v ++ rest) = e ∙ append_assoc sizes v rest in
      let behind : drop start data' ≡ v ++ rest = drop_past data' sizes (v ++ rest) offset apart in
      let total : length data' ≡ offset + length sizes + length (v ++ rest) =
        drop_bound data' sizes (v ++ rest) offset apart
          (omega (arith, laws.length-wire_u32 size)) in
      let r : s.read_u32 data' offset ≡ some (size, start) =
        laws.u32.read_wire size data' (v ++ rest) offset (omega arith) apart in
      read_string_ok data' offset size start r (omega (arith, total, length-append v rest))
      ∙ ap₂ (λ (a : Bytes) (b : ℕ). some (a, b)) (text_at v rest _ size sized behind)
          (omega (arith, sized, length-append sizes v))

  read_string_size :
      (data' : Bytes) (offset : ℕ) (v : Bytes) (next : ℕ)
      → read_string s data' offset ≡ some (v, next)
      → (size : ℕ) × (start : ℕ) × (s.read_u32 data' offset ≡ some (size, start))
        × (start + size ≤ length data')
        × (v ≡ take size (drop start data'))
        × (next ≡ start + size)
  unfolding read_string
  read_string_size data' offset v next h =
      let ((size, start), r, k) = >>=-eq-some (s.read_u32 data' offset) _ h in
      (
        size,
        start,
        r,
        ground (arith, laws.can_read_lem data' start size),
        ground arith,
        ground arith,
      )

  text_between :
      (data' v : Bytes) (size start next : ℕ)
      → v ≡ take size (drop start data')
      → next ≡ start + size
      → drop start data' ≡ v ++ drop next data'
  text_between data' v size start next ev en =
      rw (ev, en, drop-add start size data') (sym (take-append-drop size (drop start data')))

  length-text :
      (data' v : Bytes) (size start : ℕ)
      → v ≡ take size (drop start data')
      → start + size ≤ length data'
      → length v ≡ size
  length-text data' v size start ev fits =
      ap length ev ∙ length-take size (drop start data') (omega (arith, length-drop start data'))

  read_string_inverse :
      (data' : Bytes) (offset : ℕ) (v : Bytes) (next : ℕ)
      → All IsByte data'
      → read_string s data' offset ≡ some (v, next)
      → FitsText v
        × (next ≡ offset + length (wire_text v))
        × (next ≤ length data')
        × (drop offset data' ≡ wire_text v ++ drop next data')
  read_string_inverse data' offset v next bytes h =
      let (size, start, r, fits, ev, en) = read_string_size data' offset v next h in
      let (small, es, inside, ed) = laws.u32.read_inverse data' offset size start bytes r in
      let sized : length v ≡ size = length-text data' v size start ev fits in
      let field : length v % 4294967296 ≡ size = omega arith in
      (
        omega arith,
        omega (arith, length-wire_text v, laws.length-wire_u32 size),
        omega arith,
        rw (field, append_assoc (laws.wire_u32 size) v (drop next data'))
            (ed ∙ ap (◌++◌ (laws.wire_u32 size)) (text_between data' v size start next ev en)),
      )

  pub string_field : IsField (append_string s) (read_string s) wire_text FitsText
  string_field = record {
    append_wire = append_string_wire;
    read_wire = read_string_wire;
    read_inverse = read_string_inverse;
  }

  -- The byte readers and writers have the bodies of those of strings.
  pub bytes_field : IsField (append_bytes s) (read_bytes s) wire_text FitsText
  unfolding append_bytes read_bytes append_string read_string
  bytes_field = string_field

  pub read_u8_wire :
      (v : ℕ) (data' rest : Bytes) (offset : ℕ)
      → drop offset data' ≡ v ∷ rest
      → read_u8 s data' offset ≡ some (v, offset + 1)
  unfolding read_u8
  read_u8_wire v data' rest offset e =
      let inside : length data' ≡ offset + 1 + length rest =
        drop_bound data' (v ∷ []) rest offset e (omega arith) in
      rw (
        laws.can_read_lem data' offset 1,
        le→leb (offset + 1) (length data') (omega arith),
        get_elem?-drop offset data' rest v e,
      )

  pub read_u8_inverse :
      (data' : Bytes) (offset v next : ℕ)
      → read_u8 s data' offset ≡ some (v, next)
      → (next ≡ offset + 1) × (next ≤ length data') × (drop offset data' ≡ v ∷ drop next data')
  unfolding read_u8
  read_u8_inverse data' offset v next h =
      ground (arith, laws.can_read_lem data' offset 1, drop-get_elem? offset data' v)
