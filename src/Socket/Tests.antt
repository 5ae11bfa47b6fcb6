-- ===== src/Socket/Tests.antt =====
-- A server socket, and a recv.
use flux_a_high_performance.Prelude.{
  take, List, ℕ, true, false, ◌<◌, ◌≤◌, ◌≡◌, ◌⊎◌, [], ◌∷◌, length, arith,
}
use flux_a_high_performance.Socket.{
  pos, negsuc, got, non_block_recv, socket_call, reuse_address_call, reuse_port_call,
  get_flags_call, set_nonblock_call, bind_call, listen_call, connect_call, close_call, socket_of,
  Kernel, create_server, Errno, recv_failed, is_retry,
}
use flux_a_high_performance.Socket.Results.{non_block_recv_lem}
use flux_a_high_performance.Socket.Server.{create_server_lem}

-- The port is taken.
abbrev busy : Kernel
busy socket_call = pos 5
busy (reuse_address_call fd) = pos 0
busy (reuse_port_call fd) = pos 0
busy (get_flags_call fd) = pos 2
busy (set_nonblock_call fd) = pos 0
busy (bind_call fd port) = negsuc 0
busy (listen_call fd backlog) = pos 0
busy (connect_call fd port) = pos 0
busy (close_call fd) = pos 0

create_server_lem_example :
    let (created, s) = create_server busy 8080 false (socket_of (negsuc 0)) in
    (created ≡ false)
    × (s.sockfd ≡ pos 5)
    × (s.calls
        ≡ socket_call
          ∷ reuse_address_call (pos 5)
          ∷ reuse_port_call (pos 5)
          ∷ bind_call (pos 5) 8080
          ∷ [])
create_server_lem_example = create_server_lem busy 8080 false (socket_of (negsuc 0))

non_block_recv_lem_example :
    let (n, buf) = non_block_recv (got (1 ∷ 2 ∷ 3 ∷ [])) 2 in
    ((bytes : List ℕ) × (got (1 ∷ 2 ∷ 3 ∷ []) ≡ got bytes)
      × (buf ≡ take 2 bytes)
      × (n ≡ pos (length buf))
      × (0 < length buf)
      × (length buf ≤ 2))
    ⊎ ((buf ≡ [])
        × (((e : Errno) × (got (1 ∷ 2 ∷ 3 ∷ []) ≡ recv_failed e)
              × (is_retry e ≡ true)
              × (n ≡ pos 0))
            ⊎ ((e : Errno) × (got (1 ∷ 2 ∷ 3 ∷ []) ≡ recv_failed e)
                × (is_retry e ≡ false)
                × (n ≡ negsuc 0))
            ⊎ ((got (1 ∷ 2 ∷ 3 ∷ []) ≡ got []) × (n ≡ negsuc 1))))
non_block_recv_lem_example = non_block_recv_lem (got (1 ∷ 2 ∷ 3 ∷ [])) 2 (omega arith)
