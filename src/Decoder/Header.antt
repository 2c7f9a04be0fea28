-- ===== src/Decoder/Header.antt =====
-- The header of a parity packet, as `FecEncoder` writes it and `FecDecoder` reads it.
use naudio.Prelude.{
  ℕ, ◌+◌, ◌-◌, ◌%◌, ◌^◌, ◌<◌, ◌≡◌, refl, sym, ap, ◌∙◌, subst, List, [], ◌∷◌, ◌++◌, append-nil,
  arith, length, replicate, length-append,
}
use naudio.Packet.{create}
use naudio.Bytes.{put_u8, put_u32, put_bytes, reader, get_u32, get_u8, read_bytes}
use naudio.Bytes.Laws.{be, length-be, At, reader-At, get_u32-At, get_u8-At, read_bytes-At}
use naudio.Fec.{Encoder, build_parity_packet, xor_all}
use naudio.Fec.Parity.{frame_of, written}
use naudio.Decoder.{biased}
use naudio.Decoder.Handled.{IsParity}

read_back :
    (start size : ℕ) (xor_data : List ℕ)
    → start < 2 ^ 32
    → size < 256
    → let r = reader (frame_of start size xor_data) in
      ((get_u32 r).0 ≡ start)
      × ((get_u8 (get_u32 r).1).0 ≡ size)
      × ((read_bytes (get_u8 (get_u32 r).1).1 (length xor_data)).0 ≡ xor_data)
read_back start size xor_data hs hz =
    let r = reader (be 4 start ++ (size % 256 ∷ xor_data)) in
    let (first, at1, same1) =
      get_u32-At start r (size % 256 ∷ xor_data) hs
        (reader-At (be 4 start ++ (size % 256 ∷ xor_data))) in
    let (second, at2, same2) = get_u8-At (get_u32 r).1 (size % 256) xor_data at1 in
    let third =
      read_bytes-At (get_u8 (get_u32 r).1).1 xor_data [] (length xor_data) refl
        (subst (At (get_u8 (get_u32 r).1).1) (sym (append-nil xor_data)) at2) in
    (first, second ∙ omega arith, third.0)

pub build_parity_packet-IsParity :
    (now last : ℕ) (e : Encoder)
    → e.start_sequence < 2 ^ 32
    → e.block_size < 256
    → IsParity
        (build_parity_packet now last e)
        (biased e.start_sequence)
        e.block_size
        (xor_all (replicate e.max_payload_len 0) e.payloads)
unfolding build_parity_packet create
build_parity_packet-IsParity now last e hs hz = record {
  kind = refl;
  long_enough = omega (arith, ap length payload, size);
  starts = ap (λ w. biased (get_u32 (reader w)).0) payload ∙ ap biased back.0;
  sized = ap (λ w. (get_u8 (get_u32 (reader w)).1).0) payload ∙ back.1;
  carries =
      ap (λ w. (read_bytes (get_u8 (get_u32 (reader w)).1).1 (length w - 5)).0) payload
      ∙ ap (λ n. (read_bytes (get_u8 (get_u32 (reader frame)).1).1 n).0) {x = length frame - 5}
          {y = length xor_data} (omega (arith, size))
      ∙ back.2;
}
  where
    xor_data : List ℕ
    xor_data = xor_all (replicate e.max_payload_len 0) e.payloads

    frame : List ℕ
    frame = frame_of e.start_sequence e.block_size xor_data

    back :
        ((get_u32 (reader frame)).0 ≡ e.start_sequence)
        × ((get_u8 (get_u32 (reader frame)).1).0 ≡ e.block_size)
        × ((read_bytes (get_u8 (get_u32 (reader frame)).1).1 (length xor_data)).0 ≡ xor_data)
    back = read_back e.start_sequence e.block_size xor_data hs hz

    payload : put_bytes (put_u8 (put_u32 [] e.start_sequence) e.block_size) xor_data ≡ frame
    payload = written e.start_sequence e.block_size xor_data

    size : length frame ≡ 5 + length xor_data
    size = omega (
      arith,
      length-append (be 4 e.start_sequence) (e.block_size % 256 ∷ xor_data),
      length-be 4 e.start_sequence,
    )
