-- ===== src/Pktline/Tests.antt =====
-- Runs of internal/pktline, and its theorems at concrete inputs.
use bucketvcs.Prelude.{◌≡◌, refl, [], ◌++◌, none, some, arith, length, codes}
use bucketvcs.Pktline.{
  packet, token, eof, failed, read, malformed_hex, hex_value, frame_length, read_payload_of,
  read_frame, hex_nibble, header, write_packet, write_token, read_payload, read_length, exceeds_max,
  invalid_length,
}
use bucketvcs.Pktline.Frames.{read-write_token, IsFrame, read-IsFrame}
use bucketvcs.Pktline.Sideband.{write, Demuxes, write-Demuxes}

hello_frame : write_token (packet (codes "hello")) ≡ some (codes "0009hello")
unfolding write_token write_packet header hex_nibble
hello_frame = refl

read_hello : read (codes "0009hello0000") ≡ token (packet (codes "hello")) (codes "0000")
unfolding read frame_length hex_value read_frame read_payload_of
read_hello = refl

read_refuses :
    (read (codes "00g0") ≡ failed malformed_hex)
    × (read (codes "0003") ≡ failed invalid_length)
    × (read (codes "FFF5") ≡ failed exceeds_max)
    × (read (codes "0009hell") ≡ failed read_payload)
    × (read (codes "000") ≡ failed read_length)
    × (read [] ≡ eof)
unfolding read frame_length hex_value read_frame read_payload_of
read_refuses = (refl, refl, refl, refl, refl, refl)

read-write_token_example :
    read (codes "0009hello" ++ codes "0000") ≡ token (packet (codes "hello")) (codes "0000")
read-write_token_example =
    read-write_token (packet (codes "hello")) (codes "0000") (codes "0009hello") hello_frame

read-IsFrame_example : IsFrame (codes "0009hello0000") (packet (codes "hello")) (codes "0000")
read-IsFrame_example =
    read-IsFrame (codes "0009hello0000") (codes "0000") (packet (codes "hello")) read_hello

write-Demuxes_example :
    Demuxes 2 (write 2 (codes "50%")).sent (codes "50%")
    × ((write 2 (codes "50%")).written ≡ length (codes "50%"))
    × ((write 2 (codes "50%")).error ≡ none)
write-Demuxes_example = write-Demuxes 2 (codes "50%") (omega arith) (omega arith)
