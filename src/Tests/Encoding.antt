-- ===== src/Tests/Encoding.antt =====
-- The codec on concrete messages.
use discovery.Base.{◌+◌, ◌≡◌, refl, [], ◌∷◌, ◌++◌, some, none, true, arith, length}
use discovery.Base.Text.{Bytes, codes}
use discovery.Types.MessageType
use discovery.Core.Message
use discovery.Core.Message.{Message}
use discovery.Core.Datagram
use discovery.Encoding.Encode.{encode_message, make_datagram, append_string, append_bytes}
use discovery.Encoding.Decode.{decode_message, decode_datagram, read_u8, read_string, read_bytes}
use discovery.Encoding.RoundTrip.{
  decode_message-encode_message, encode_message-decode_message, decode_message_trailing,
  decode_message_truncated,
}
use discovery.Encoding.Datagrams.{length-encode_message, decode_datagram-make_datagram}
use discovery.Tests.Wire.{big_endian, big_endian-laws}
use discovery.Tests.Data.{hello}

abbrev pub hello_wire : Bytes
hello_wire = 2 ∷ 0 ∷ 0 ∷ 0 ∷ 1 ∷ 97 ∷ 0 ∷ 0 ∷ 0 ∷ 0 ∷ 0 ∷ 0 ∷ 0 ∷ 1 ∷ 112 ∷ 0 ∷ 0 ∷ 0 ∷ 0 ∷ []

pub hello_encoded : encode_message big_endian hello ≡ hello_wire
unfolding encode_message append_string append_bytes Message.is_valid MessageType.is_valid
    MessageType.to_u8
hello_encoded = refl

hello_decoded : decode_message big_endian hello_wire ≡ some hello
unfolding decode_message Message.is_valid MessageType.is_valid MessageType.from_u8 read_u8
    read_string read_bytes
hello_decoded = refl

pub hello_valid : Message.is_valid hello ≡ true
unfolding Message.is_valid MessageType.is_valid
hello_valid = refl

-- A message type outside the enumeration is refused.
unnamed_refused :
    decode_message big_endian
      (9 ∷ 0 ∷ 0 ∷ 0 ∷ 1 ∷ 97 ∷ 0 ∷ 0 ∷ 0 ∷ 0 ∷ 0 ∷ 0 ∷ 0 ∷ 0 ∷ 0 ∷ 0 ∷ 0 ∷ 0 ∷ [])
    ≡ none
unfolding decode_message Message.is_valid MessageType.is_valid MessageType.from_u8 read_u8
    read_string read_bytes
unnamed_refused = refl

decode_message-encode_message_example :
    decode_message big_endian (encode_message big_endian hello) ≡ some hello
decode_message-encode_message_example =
    decode_message-encode_message big_endian-laws hello hello_valid (omega arith)

encode_message-decode_message_example : encode_message big_endian hello ≡ hello_wire
encode_message-decode_message_example =
    encode_message-decode_message big_endian-laws hello_wire hello (omega arith) hello_decoded

decode_message_trailing_example : decode_message big_endian (hello_wire ++ 7 ∷ []) ≡ none
decode_message_trailing_example =
    decode_message_trailing big_endian-laws hello_wire hello 7 [] (omega arith) hello_decoded

decode_message_truncated_example : decode_message big_endian (2 ∷ 0 ∷ 0 ∷ 0 ∷ 1 ∷ []) ≡ none
decode_message_truncated_example =
    decode_message_truncated big_endian-laws (2 ∷ 0 ∷ 0 ∷ 0 ∷ 1 ∷ []) 97
      (0 ∷ 0 ∷ 0 ∷ 0 ∷ 0 ∷ 0 ∷ 0 ∷ 1 ∷ 112 ∷ 0 ∷ 0 ∷ 0 ∷ 0 ∷ []) hello (omega arith) hello_decoded

length-encode_message_example : length (encode_message big_endian hello) ≡ 17 + 1 + 0 + 1 + 0
length-encode_message_example = length-encode_message big_endian-laws hello hello_valid

hello_sent : Datagram.is_valid (make_datagram big_endian hello (codes "h") 9400) ≡ true
unfolding make_datagram encode_message append_string append_bytes Message.is_valid
    MessageType.is_valid Datagram.is_valid
hello_sent = refl

decode_datagram-make_datagram_example :
    decode_datagram big_endian (make_datagram big_endian hello (codes "h") 9400) ≡ some hello
decode_datagram-make_datagram_example =
    decode_datagram-make_datagram big_endian-laws hello (codes "h") 9400 (omega arith) hello_sent
