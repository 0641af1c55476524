-- ===== src/Pktline/Sideband.antt =====
-- internal/pktline/sideband.go: payloads cut into frames that carry the number of their band.
use bucketvcs.Prelude.{
  ℕ, zero, suc, ◌+◌, ◌-◌, ◌≤◌, ◌<◌, ◌≡◌, refl, ◌||◌, [], ◌∷◌, ◌++◌, Option, none, some, arith, ltb,
  if◌then◌else◌, length, take, drop, Bytes, inl, inr, sym, take-append-drop, length-take, ap, ◌∙◌,
  length-append, append_assoc, append-nil, Bool-cases,
}
use bucketvcs.Pktline.{max_payload, packet, token, read, write_packet}
use bucketvcs.Pktline.Frames.{read-write_packet, write_packet_total}

abbrev pub sideband_payload_max : ℕ
sideband_payload_max = max_payload - 1

pub data SideError : Type 0 where
  invalid_sideband packet_refused : SideError

-- What a call of `write` sent, the count that it returns, and its error.
pub record Written : Type 0 where
  pub sent : Bytes
  pub written : ℕ
  pub error : Option SideError

-- `chunk := p`, cut to the limit where it is longer.
unfoldable pub chunk_of : ℕ → Bytes → Bytes
chunk_of m p = if ltb m (length p) then take m p else p

-- The loop of `write`. Each round takes at least a byte, so fuel above the length is enough.
unfoldable pub write_loop : ℕ → ℕ → Bytes → Bytes → ℕ → Written
write_loop zero band p sent n = record { sent = sent; written = n; error = none }
write_loop (suc fuel) band [] sent n = record { sent = sent; written = n; error = none }
write_loop (suc fuel) band (c ∷ p) sent n =
    let chunk = chunk_of sideband_payload_max (c ∷ p) in
    elim (write_packet (band ∷ chunk)) [
      | none ↦ record { sent = sent; written = n; error = some packet_refused }
      | some frame ↦
          write_loop fuel band (drop (length chunk) (c ∷ p)) (sent ++ frame) (n + length chunk)
    ]

-- `(*SidebandWriter).write`
unfoldable pub write : ℕ → Bytes → Written
write band p =
    if ltb band 1 || ltb 3 band
    then record { sent = []; written = 0; error = some invalid_sideband }
    else write_loop (suc (length p)) band p [] 0

abbrev pub write_data : Bytes → Written
write_data = write 1

abbrev pub write_progress : Bytes → Written
write_progress = write 2

abbrev pub write_fatal : Bytes → Written
write_fatal = write 3

-- Reading the stream frame by frame, each on this band and within the limit, gives these bytes.
pub data Demuxes (band : ℕ) : Bytes → Bytes → Type 0 where
  done : Demuxes band [] []
  chunk :
      {s rest : Bytes} (c : Bytes) {p q : Bytes}
      → read s ≡ token (packet (band ∷ c)) rest
      → 0 < length c
      → length c ≤ sideband_payload_max
      → q ≡ c ++ p
      → Demuxes band rest p
      → Demuxes band s q

-- What the loop adds to the accumulators when it sends `p`.
record Sends (band : ℕ) (p sent : Bytes) (n : ℕ) (w : Written) : Type 0 where
  out : Bytes
  appended : w.sent ≡ sent ++ out
  demuxes : Demuxes band out p
  counted : w.written ≡ n + length p
  no_error : w.error ≡ none

take_all : (p : Bytes) → take (length p) p ≡ p
take_all [] = refl
take_all (c ∷ p) = ap (◌∷◌ c) (take_all p)

drop_all : (p : Bytes) → drop (length p) p ≡ []
drop_all [] = refl
drop_all (c ∷ p) = drop_all p

module _ (m : ℕ) (p : Bytes) where
  chunk_of_fits : length (chunk_of m p) ≤ m
  unfolding chunk_of
  chunk_of_fits = ground (arith, length-take m p)

  chunk_of_pos : 0 < m → 0 < length p → 0 < length (chunk_of m p)
  unfolding chunk_of
  chunk_of_pos h k = ground (arith, length-take m p)

  chunk_of-append : p ≡ chunk_of m p ++ drop (length (chunk_of m p)) p
  unfolding chunk_of
  chunk_of-append = elim (Bool-cases (ltb m (length p))) [
    | inl long ↦
        let e : length (take m p) ≡ m = ground (arith, length-take m p) in
        rw (long, e) (sym (take-append-drop m p))
    | inr short ↦ rw (short, drop_all p) (sym (append-nil p))
  ]

  chunk_of-length : length p ≡ length (chunk_of m p) + length (drop (length (chunk_of m p)) p)
  chunk_of-length =
      ap length chunk_of-append ∙ length-append (chunk_of m p) (drop (length (chunk_of m p)) p)

module _ (band : ℕ) (valid : band ≤ 3) where
  Sends-round :
      (m : ℕ) (p sent frame chunk : Bytes) (n : ℕ) (w : Written)
      → chunk ≡ chunk_of m p
      → m ≡ sideband_payload_max
      → 0 < length p
      → write_packet (band ∷ chunk) ≡ some frame
      → Sends band (drop (length chunk) p) (sent ++ frame) (n + length chunk) w
      → Sends band p sent n w
  Sends-round m p sent frame ck n w e em pos wr s = record {
    out = frame ++ s.out;
    appended = s.appended ∙ append_assoc sent frame s.out;
    demuxes =
        chunk ck (read-write_packet (band ∷ ck) s.out frame wr)
          (rw e (chunk_of_pos m p (omega arith) pos)) (rw (e, ← em) (chunk_of_fits m p))
          (rw e (chunk_of-append m p)) s.demuxes;
    counted = omega (arith, s.counted, rw (← e) at (chunk_of-length m p));
    no_error = s.no_error;
  }

  write_loop-Sends :
      (fuel : ℕ) (p sent : Bytes) (n : ℕ)
      → length p < fuel
      → Sends band p sent n (write_loop fuel band p sent n)
  unfolding write_loop
  write_loop-Sends zero p sent n h = elim h [ ]
  write_loop-Sends (suc fuel) [] sent n h = record {
    out = [];
    appended = sym (append-nil sent);
    demuxes = done;
    counted = omega arith;
    no_error = refl;
  }
  write_loop-Sends (suc fuel) (c ∷ p) sent n h =
      let ck = chunk_of sideband_payload_max (c ∷ p) in
      let fits : length ck ≤ sideband_payload_max = chunk_of_fits sideband_payload_max (c ∷ p) in
      let some_taken : 0 < length ck =
        chunk_of_pos sideband_payload_max (c ∷ p) (omega arith) (omega arith) in
      let shorter : length (drop (length ck) (c ∷ p)) < fuel =
        omega (arith, chunk_of-length sideband_payload_max (c ∷ p)) in
      let (frame, wr) = write_packet_total (band ∷ ck) (omega arith) in
      rw (wr, write_loop)
        (Sends-round sideband_payload_max (c ∷ p) sent frame ck n _ refl refl (omega arith) wr (
          write_loop-Sends fuel (drop (length ck) (c ∷ p)) (sent ++ frame) (n + length ck) shorter))

-- On a valid band the whole payload is sent in frames within the limit, each carrying the band: a
-- client that takes the frames off the stream one by one gets the payload back. The count that is
-- returned is the payload's length, and there is no error.
pub write-Demuxes :
    (band : ℕ) (p : Bytes)
    → 1 ≤ band
    → band ≤ 3
    → Demuxes band (write band p).sent p
      × ((write band p).written ≡ length p)
      × ((write band p).error ≡ none)
unfolding write
write-Demuxes band p lo hi =
    let s = write_loop-Sends band hi (suc (length p)) p [] 0 (omega arith) in
    elim (Bool-cases (ltb band 1 || ltb 3 band)) [
      | inl bad ↦ absurd (ground arith)
      | inr good ↦ rw good (rw s.appended s.demuxes, omega (arith, s.counted), s.no_error)
    ]
