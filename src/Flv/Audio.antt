-- ===== src/Flv/Audio.antt =====
-- Audio frames, whose header stands where the description of FLV has the end of the tag before.
use clibmedia_transfer_proto.Common.{
  ℕ, ◌+◌, ◌/◌, ◌%◌, ◌^◌, ◌<◌, ◌≡◌, refl, ap, false, Option, none, some, ◌++◌, ◌>>=◌, arith, drop,
  concat,
}
use clibmedia_transfer_proto.ByteIo.{Bytes, read_loop, read_big_endian, write_big_endian}
use clibmedia_transfer_proto.Flv.{FlvContext, send_flv_audio_frame}
use clibmedia_transfer_proto.Flv.Reader.{is_type, read_tag}

bind_none {ℓ κ} :
    {A : Type ℓ} {B : Type κ} (m : Option A) (f : A → Option B)
    → ((a : A) → f a ≡ none)
    → (m >>= f) ≡ none
bind_none none f h = refl
bind_none (some a) f h = h a

-- A tag of no known type is refused.
read_tag-none :
    (bytes : Bytes) (t : ℕ)
    → read_big_endian 1 bytes ≡ some t
    → is_type t ≡ false
    → read_tag bytes ≡ none
unfolding read_tag
read_tag-none bytes t e unknown =
    rw (read_tag, e, ◌>>=◌, unknown)
      (bind_none (read_big_endian 3 (drop 1 bytes)) _ (λ size.
        bind_none (read_big_endian 3 (drop 4 bytes)) _ (λ low.
          bind_none (read_big_endian 1 (drop 7 bytes)) _
            (λ high. bind_none (read_big_endian 4 (drop (11 + size) bytes)) _ (λ previous. refl)))))

-- What is sent for an audio frame is no tag to a reader that has read the tags before it: it starts
-- with the size of the audio before it, whose highest byte is 0 where a type is due.
pub read_tag-send_flv_audio_frame :
    (frame rest : Bytes) (timestamp : ℕ) (c : FlvContext)
    → c.prev_packet_size < 2 ^ 24
    → read_tag (concat (send_flv_audio_frame frame timestamp c).1 ++ rest) ≡ none
unfolding send_flv_audio_frame write_big_endian
read_tag-send_flv_audio_frame frame rest timestamp c small =
    read_tag-none (concat (send_flv_audio_frame frame timestamp c).1 ++ rest)
      (c.prev_packet_size / 2 ^ 24 % 256)
      (unfold read_big_endian read_loop in ap some (omega arith)) (unfold is_type in ground arith)
