-- ===== src/Socket/Server.antt =====
-- CreateServer on every branch.
use flux_a_high_performance.Prelude.{
  ℕ, ◌≡◌, inl, inr, refl, ◌∙◌, Bool, true, false, not, ◌&&◌, List, [], ◌∷◌, ◌++◌, append_assoc,
  if◌then◌else◌, arith, Bool-cases,
}
use flux_a_high_performance.Socket.{
  ℤ, is_negative, Syscall, socket_call, reuse_address_call, reuse_port_call, get_flags_call,
  set_nonblock_call, bind_call, listen_call, Socket, called, Kernel, create, tested, bind,
  max_listen, listen, reuse_address, non_block, and_then, create_server,
}

abbrev pub succeeds : Kernel → Syscall → Bool
succeeds k call = not (is_negative (k call))

-- The calls of NonBlock.
abbrev pub flag_calls : Kernel → Bool → ℤ → List Syscall
flag_calls k false fd = []
flag_calls k true fd =
    get_flags_call fd
    ∷ (if is_negative (k (get_flags_call fd)) then [] else set_nonblock_call fd ∷ [])

-- What CreateServer does if all goes well, and as far as it goes.
abbrev pub server_calls : Kernel → ℕ → Bool → ℤ → List Syscall
server_calls k port block_flag fd =
    socket_call
    ∷ (if succeeds k socket_call
        then reuse_address_call fd
          ∷ reuse_port_call fd
          ∷ (flag_calls k block_flag fd
              ++ bind_call fd port
                ∷ (if succeeds k (bind_call fd port) then listen_call fd max_listen ∷ [] else []))
        else [])

abbrev pub Ends : Bool × Socket → Bool → ℤ → List Syscall → Type 0
Ends (created, s) ok fd calls = (created ≡ ok) × (s.sockfd ≡ fd) × (s.calls ≡ calls)

bind-listen-Ends :
    (k : Kernel) (port : ℕ) (s : Socket) {fd : ℤ} {calls : List Syscall}
    → (s.sockfd ≡ fd) × (s.calls ≡ calls)
    → Ends
        (and_then (bind k port s) (listen k max_listen))
        (succeeds k (bind_call fd port) && succeeds k (listen_call fd max_listen))
        fd
        (calls
          ++ bind_call fd port
            ∷ (if succeeds k (bind_call fd port) then listen_call fd max_listen ∷ [] else []))
unfolding bind listen tested called
bind-listen-Ends k port s {fd} {calls} (f, c) =
    elim (Bool-cases (is_negative (k (bind_call fd port)))) [
      | inl e ↦ rw (f, c, e) (refl, refl, refl)
      | inr e ↦ rw (f, c, e) (ground arith, refl, append_assoc calls _ _)
    ]

configured : Kernel → Bool → Socket → Socket
configured k block_flag s = let s2 = reuse_address s in if block_flag then non_block k s2 else s2

configured-calls :
    (k : Kernel) (block_flag : Bool) (s : Socket)
    → ((configured k block_flag s).sockfd ≡ s.sockfd)
      × ((configured k block_flag s).calls
          ≡ s.calls
            ++ reuse_address_call s.sockfd
              ∷ reuse_port_call s.sockfd
              ∷ flag_calls k block_flag s.sockfd)
unfolding configured reuse_address non_block called
configured-calls k false s = (refl, append_assoc s.calls _ _)
configured-calls k true s = elim (Bool-cases (is_negative (k (get_flags_call s.sockfd)))) [
  | inl e ↦ rw e (refl, simp append_assoc)
  | inr e ↦ rw e (refl, simp append_assoc)
]

-- CreateServer takes the descriptor that the kernel gives, and goes on as long as no call of socket, bind and listen
-- fails; it tells whether all of them have succeeded.
pub create_server_lem :
    (k : Kernel) (port : ℕ) (block_flag : Bool) (s : Socket)
    → let fd = k socket_call in
      let (created, s') = create_server k port block_flag s in
      (created ≡ (
        succeeds k socket_call
        && (succeeds k (bind_call fd port) && succeeds k (listen_call fd max_listen))))
      × (s'.sockfd ≡ fd)
      × (s'.calls ≡ s.calls ++ server_calls k port block_flag fd)
unfolding create_server create configured called
create_server_lem k port block_flag s = elim (Bool-cases (is_negative (k socket_call))) [
  | inl e ↦ rw e (refl, refl, refl)
  | inr e ↦
      let s1 = record (called s socket_call) { sockfd = k socket_call } in
      let (created, fd, calls) =
        bind-listen-Ends k port (configured k block_flag s1) (configured-calls k block_flag s1) in
      rw e (created, fd, calls ∙ simp append_assoc)
]
