-- ===== src/Examples/Buffers.antt =====
-- Numbers, texts and buffers on concrete inputs.
use clibmedia_transfer_proto.Common.{
  ◌<◌, ◌≡◌, ◌↔◌, none, some, ◌++◌, arith, length, drop, replicate,
}
use clibmedia_transfer_proto.Common.{◌⊎◌, none}
use clibmedia_transfer_proto.ByteIo.{read_big_endian}
use clibmedia_transfer_proto.ByteIo.RoundTrip.{read_big_endian-none}
use clibmedia_transfer_proto.Http.Text.{text}
use clibmedia_transfer_proto.Http.Url.{url_encode, url_decode}
use clibmedia_transfer_proto.Http.Url.RoundTrip.{url_decode-url_encode}
use clibmedia_transfer_proto.Http.MsgBuffer.{MsgBuffer, readable, append, add_in_front, retrieve}
use clibmedia_transfer_proto.Http.MsgBuffer.View.{IsValid}
use clibmedia_transfer_proto.Http.MsgBuffer.Append.{append-readable}
use clibmedia_transfer_proto.Http.MsgBuffer.Front.{Overlaps, add_in_front-readable}
use clibmedia_transfer_proto.Http.MsgBuffer.Retrieve.{retrieve-readable}

-- A buffer of eight bytes in front and room for eight, with five of them in use.
abbrev five : MsgBuffer
five = record {
  head = 8;
  init_cap = 8;
  buffer = replicate 8 0 ++ (text "hello" ++ replicate 3 0);
  tail = 13;
}

five-IsValid : IsValid five
five-IsValid = record {
  ordered = omega arith;
  inside = omega arith;
  offset = omega arith;
  roomy = omega arith;
}

read_big_endian-none_example : (read_big_endian 4 (text "abc") ≡ none) ↔ (length (text "abc") < 4)
read_big_endian-none_example = read_big_endian-none 4 (text "abc")

url_decode-url_encode_example : url_decode (url_encode (text "a b%/")) ≡ text "a b%/"
url_decode-url_encode_example =
    url_decode-url_encode (text "a b%/")
      (omega arith, (omega arith, (omega arith, (omega arith, (omega arith, tt)))))

append-readable_example :
    (after : MsgBuffer) × (append five (text " world") ≡ some after)
    × IsValid after
    × (readable after ≡ readable five ++ text " world")
append-readable_example = append-readable five (text " world") five-IsValid

add_in_front-readable_example :
    ((after : MsgBuffer) × (add_in_front five (text "0123456789") ≡ some after)
      × IsValid after
      × (readable after ≡ text "0123456789" ++ readable five))
    ⊎ ((add_in_front five (text "0123456789") ≡ none) × Overlaps five (text "0123456789"))
add_in_front-readable_example = add_in_front-readable five (text "0123456789") five-IsValid

retrieve-readable_example :
    IsValid (retrieve five 2) × (readable (retrieve five 2) ≡ drop 2 (readable five))
retrieve-readable_example = retrieve-readable five 2 five-IsValid
