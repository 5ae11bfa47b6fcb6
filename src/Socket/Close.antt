-- ===== src/Socket/Close.antt =====
-- Close, however often it is called.
use flux_a_high_performance.Prelude.{
  ℕ, zero, suc, ◌≡◌, ◌⊎◌, inl, inr, refl, ap, ◌∙◌, true, false, List, [], ◌∷◌, ◌++◌, length,
}
use flux_a_high_performance.Socket.{
  ℤ, pos, negsuc, Syscall, socket_call, reuse_address_call, reuse_port_call, get_flags_call,
  set_nonblock_call, bind_call, listen_call, connect_call, close_call, Socket, socket_of, called,
  is_minus_one, close,
}

-- The descriptors closed.
abbrev pub closed : List Syscall → List ℤ
closed [] = []
closed (close_call fd ∷ calls) = fd ∷ closed calls
closed (socket_call ∷ calls) = closed calls
closed (reuse_address_call fd ∷ calls) = closed calls
closed (reuse_port_call fd ∷ calls) = closed calls
closed (get_flags_call fd ∷ calls) = closed calls
closed (set_nonblock_call fd ∷ calls) = closed calls
closed (bind_call fd port ∷ calls) = closed calls
closed (listen_call fd backlog ∷ calls) = closed calls
closed (connect_call fd port ∷ calls) = closed calls

abbrev pub close_times : ℕ → Socket → Socket
close_times zero s = s
close_times (suc n) s = close_times n (close s)

after_close : List Syscall → Socket
after_close calls = record { sockfd = negsuc 0; calls = calls }

already : (n : ℕ) (calls : List Syscall) → close_times n (after_close calls) ≡ after_close calls
unfolding close after_close
already zero calls = refl
already (suc n) calls = already n calls

-- However often Close is called on a socket before its destructor, which calls it once more, the
-- descriptor is closed exactly once.
pub close_once : (fd n : ℕ) → closed (close_times (suc n) (socket_of (pos fd))).calls ≡ pos fd ∷ []
unfolding close called after_close
close_once fd n = rw (already n (close_call (pos fd) ∷ []))

-- A descriptor that is open has not been closed; one that was closed is gone, and was closed once.
abbrev pub ClosedOnce : Socket → Type 0
ClosedOnce s =
    ((is_minus_one s.sockfd ≡ false) × (closed s.calls ≡ []))
    ⊎ ((is_minus_one s.sockfd ≡ true) × (length (closed s.calls) ≡ 1))

closed-append :
    (xs : List Syscall) (fd : ℤ) → closed (xs ++ close_call fd ∷ []) ≡ closed xs ++ fd ∷ []
closed-append [] fd = refl
closed-append (close_call g ∷ xs) fd = ap (λ gs. g ∷ gs) (closed-append xs fd)
closed-append (socket_call ∷ xs) fd = closed-append xs fd
closed-append (reuse_address_call g ∷ xs) fd = closed-append xs fd
closed-append (reuse_port_call g ∷ xs) fd = closed-append xs fd
closed-append (get_flags_call g ∷ xs) fd = closed-append xs fd
closed-append (set_nonblock_call g ∷ xs) fd = closed-append xs fd
closed-append (bind_call g port ∷ xs) fd = closed-append xs fd
closed-append (listen_call g backlog ∷ xs) fd = closed-append xs fd
closed-append (connect_call g port ∷ xs) fd = closed-append xs fd

pub close-ClosedOnce : (s : Socket) → ClosedOnce s → ClosedOnce (close s)
unfolding close called
close-ClosedOnce s (inr (e, h)) = rw e (inr (e, h))
close-ClosedOnce s (inl (e, h)) =
    rw e (inr (refl, ap length (closed-append s.calls s.sockfd ∙ ap (λ xs. xs ++ s.sockfd ∷ []) h)))

pub socket_of-ClosedOnce : (fd : ℕ) → ClosedOnce (socket_of (pos fd))
socket_of-ClosedOnce fd = inl (refl, refl)
