-- ===== src/Socket/Results.antt =====
-- What Recv and Send tell their callers.
use flux_a_high_performance.Prelude.{
  ℕ, List, take, true, false, zero, suc, ◌^◌, ◌≤◌, ◌<◌, ◌≡◌, ◌⊎◌, inl, inr, refl, min, [], ◌∷◌,
  some, none, if◌then◌else◌, length, length-take, arith, Option-cases, Bool-cases,
}
use flux_a_high_performance.Socket.{
  pos, negsuc, to_int, Errno, is_retry, Received, got, recv_failed, recv, non_block_recv, Sending,
  send, non_block_send,
}

pub to_int-pos : (n : ℕ) → n < 2 ^ 31 → to_int (pos n) ≡ pos n
unfolding to_int
to_int-pos n h = ground arith

pub to_int-minus_one : to_int (negsuc 0) ≡ negsuc 0
unfolding to_int
to_int-minus_one = refl

-- Into a buffer of `len` bytes, a positive number, NonBlockRecv tells one of four things. When bytes have
-- come, the number of those that it has stored: the first of them, at least one and at most `len`.
-- Otherwise it stores nothing, and tells 0 if recv failed with an error after which it can be tried again,
-- -1 if it failed with another error, and -2 if the peer has closed.
pub non_block_recv_lem :
    (r : Received) (len : ℕ)
    → 0 < len
    → let (n, buf) = non_block_recv r len in
      ((bytes : List ℕ) × (r ≡ got bytes)
        × (buf ≡ take len bytes)
        × (n ≡ pos (length buf))
        × (0 < length buf)
        × (length buf ≤ len))
      ⊎ ((buf ≡ [])
          × (((e : Errno) × (r ≡ recv_failed e) × (is_retry e ≡ true) × (n ≡ pos 0))
              ⊎ ((e : Errno) × (r ≡ recv_failed e) × (is_retry e ≡ false) × (n ≡ negsuc 0))
              ⊎ ((r ≡ got []) × (n ≡ negsuc 1))))
unfolding non_block_recv recv
non_block_recv_lem (got []) (suc len) h = inr (refl, inr (inr (refl, refl)))
non_block_recv_lem (got []) zero h = absurd (omega arith)
non_block_recv_lem (got (b ∷ bs)) (suc len) h =
    inl (b ∷ bs, refl, refl, ground arith, ground arith, ground (arith, length-take len bs))
non_block_recv_lem (got (b ∷ bs)) zero h = absurd (omega arith)
non_block_recv_lem (recv_failed e) len h = elim (Bool-cases (is_retry e)) [
  | inl y ↦ inr (refl, inl (e, refl, y, rw y refl))
  | inr n ↦ inr (refl, inr (inl (e, refl, n, rw n refl)))
]

pub non_block_send-took :
    (k len : ℕ) (e : Errno)
    → len < 2 ^ 31
    → non_block_send (record { taken = some k; errno = e }) len ≡ pos (min k len)
unfolding non_block_send send
non_block_send-took k len e h = rw (to_int-pos (min k len) (omega arith))

-- While fewer than 2 ^ 31 bytes are offered, NonBlockSend tells how many of them the kernel has taken, or
-- 0 when it can take none yet, or -1 on an error.
pub non_block_send_lem :
    (s : Sending) (len : ℕ)
    → len < 2 ^ 31
    → ((k : ℕ) × (s.taken ≡ some k) × (non_block_send s len ≡ pos (min k len)))
      ⊎ ((s.taken ≡ none) × (non_block_send s len ≡ (if is_retry s.errno then pos 0 else negsuc 0)))
unfolding non_block_send send
non_block_send_lem s len h = elim (Option-cases s.taken) [
  | inl e ↦ inr (e, rw (e, to_int-minus_one))
  | inr (k, e) ↦ inl (k, e, rw (e, to_int-pos (min k len) (omega arith)))
]
