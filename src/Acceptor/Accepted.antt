-- ===== src/Acceptor/Accepted.antt =====
-- What the callback of Acceptor gets.
use flux_a_high_performance.Prelude.{
  ℕ, ◌≡◌, refl, sym, ap, ◌∙◌, true, List, [], ◌∷◌, ◌++◌, append-nil, append_assoc,
}
use flux_a_high_performance.Socket.{
  ℤ, pos, negsuc, Errno, eagain, ewouldblock, eintr, other_error, accept,
}
use flux_a_high_performance.Acceptor.{Acceptor, handle_read}

-- The readable events of the listening socket, with the answers of the kernel.
pub reads : Acceptor → List (ℤ × Errno) → Acceptor
unfolding handle_read
reads a [] = a
reads a ((answer, errno) ∷ answers) = reads (handle_read a answer errno) answers

-- The descriptors among the answers.
abbrev pub descriptors : List (ℤ × Errno) → List ℤ
descriptors [] = []
descriptors ((pos fd, errno) ∷ answers) = pos fd ∷ descriptors answers
descriptors ((negsuc n, errno) ∷ answers) = descriptors answers

refused : (a : Acceptor) (n : ℕ) (errno : Errno) → handle_read a (negsuc n) errno ≡ a
unfolding handle_read accept
refused a n eagain = refl
refused a n ewouldblock = refl
refused a n eintr = refl
refused a n other_error = refl

taken :
    (a : Acceptor) (fd : ℕ) (errno : Errno)
    → a.accept_callback ≡ true
    → handle_read a (pos fd) errno ≡ record a { accepted = a.accepted ++ pos fd ∷ [] }
unfolding handle_read accept
taken a fd errno h = simp h

-- Once the callback is set, it gets every descriptor that the kernel accepts, in order, and nothing for a failure.
pub reads_lem :
    (answers : List (ℤ × Errno)) (a : Acceptor)
    → a.accept_callback ≡ true
    → (reads a answers).accepted ≡ a.accepted ++ descriptors answers
unfolding reads
reads_lem [] a h = sym (append-nil a.accepted)
reads_lem ((pos fd, errno) ∷ answers) a h =
    let b : Acceptor = record a { accepted = a.accepted ++ pos fd ∷ [] } in
    ap (λ x. (reads x answers).accepted) (taken a fd errno h)
    ∙ (reads_lem answers b h ∙ append_assoc a.accepted (pos fd ∷ []) (descriptors answers))
reads_lem ((negsuc n, errno) ∷ answers) a h =
    ap (λ x. (reads x answers).accepted) (refused a n errno) ∙ reads_lem answers a h
