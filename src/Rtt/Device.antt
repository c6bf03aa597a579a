-- ===== src/Rtt/Device.antt =====
-- core/internal/rtt/rtt.go, `Device`: what the wrapper shows the meter of a batch of packets. The
-- clock is asked once for each packet; `now i` is what it says for the i-th.
use caelo.Base.{
  ℕ, zero, suc, ◌+◌, ◌≡◌, refl, ◌&&◌, List, [], ◌∷◌, arith, ltb, leb, if◌then◌else◌, ok, ◌>>=◌,
  length, if-both,
}
use caelo.Tcp.{Go, slice}
use caelo.Tcp.Total.{slice-eq}
use caelo.Rtt.{Meter, outbound, inbound}
use caelo.Rtt.Bounds.{IsValid, Keeps, outbound-IsValid, inbound-IsValid}

-- One buffer of `Read`: `sizes[i] > 0 && offset+sizes[i] <= len(bufs[i])`.
pub read_one : ℕ → ℕ → List ℕ → ℕ → Meter → Go Meter
read_one now offset buf size m =
    if ltb 0 size && leb (offset + size) (length buf)
    then (do packet ← slice buf offset (offset + size); outbound now packet m)
    else ok m

-- The loop of `Read`: it ends at `n`, and where either slice ends.
pub read_batch : (ℕ → ℕ) → ℕ → ℕ → List (List ℕ) → List ℕ → Meter → Go Meter
read_batch now offset zero bufs sizes m = ok m
read_batch now offset (suc n) (buf ∷ bufs) (size ∷ sizes) m =
    read_one (now 0) offset buf size m >>= read_batch (λ i. now (suc i)) offset n bufs sizes
read_batch now offset (suc n) _ _ m = ok m

-- One buffer of `Write`: `offset < len(buf)`.
pub write_one : ℕ → ℕ → List ℕ → Meter → Go Meter
write_one now offset buf m =
    if ltb offset (length buf)
    then (do packet ← slice buf offset (length buf); inbound now packet m)
    else ok m

-- The loop of `Write`.
pub write_batch : (ℕ → ℕ) → ℕ → List (List ℕ) → Meter → Go Meter
write_batch now offset [] m = ok m
write_batch now offset (buf ∷ bufs) m =
    write_one (now 0) offset buf m >>= write_batch (λ i. now (suc i)) offset bufs

read_one-IsValid :
    (now offset size : ℕ) (buf : List ℕ) (m : Meter)
    → IsValid m
    → Keeps (read_one now offset buf size m)
unfolding read_one
read_one-IsValid now offset size buf m v =
    if-both Keeps (ltb 0 size && leb (offset + size) (length buf))
      (λ h.
        let fits : slice buf offset (offset + size) ≡ ok _ =
          slice-eq buf offset (offset + size) (omega arith) (ground arith) in
        rw fits (outbound-IsValid now _ m v))
      (λ _. (m, refl, v))

-- Whatever the device beneath returns (any count, any buffers and sizes, of any lengths), the
-- packets shown to the meter lie inside their buffers, and it stays valid.
pub read_batch-IsValid :
    (now : ℕ → ℕ) (offset n : ℕ) (bufs : List (List ℕ)) (sizes : List ℕ) (m : Meter)
    → IsValid m
    → Keeps (read_batch now offset n bufs sizes m)
unfolding read_batch
read_batch-IsValid now offset zero bufs sizes m v = (m, refl, v)
read_batch-IsValid now offset (suc n) [] sizes m v = (m, refl, v)
read_batch-IsValid now offset (suc n) (buf ∷ bufs) [] m v = (m, refl, v)
read_batch-IsValid now offset (suc n) (buf ∷ bufs) (size ∷ sizes) m v =
    let (m', shown, v') = read_one-IsValid (now 0) offset size buf m v in
    rw shown (read_batch-IsValid (λ i. now (suc i)) offset n bufs sizes m' v')

write_one-IsValid :
    (now offset : ℕ) (buf : List ℕ) (m : Meter) → IsValid m → Keeps (write_one now offset buf m)
unfolding write_one
write_one-IsValid now offset buf m v =
    if-both Keeps (ltb offset (length buf))
      (λ h.
        let fits : slice buf offset (length buf) ≡ ok _ =
          slice-eq buf offset (length buf) (ground arith) (omega arith) in
        rw fits (inbound-IsValid now _ m v))
      (λ _. (m, refl, v))

-- Whatever is handed to the device beneath (any offset, any buffers of any lengths), what the meter
-- is shown of it lies inside the buffers, and the meter stays valid.
pub write_batch-IsValid :
    (now : ℕ → ℕ) (offset : ℕ) (bufs : List (List ℕ)) (m : Meter)
    → IsValid m
    → Keeps (write_batch now offset bufs m)
unfolding write_batch
write_batch-IsValid now offset [] m v = (m, refl, v)
write_batch-IsValid now offset (buf ∷ bufs) m v =
    let (m', shown, v') = write_one-IsValid (now 0) offset buf m v in
    rw shown (write_batch-IsValid (λ i. now (suc i)) offset bufs m' v')
