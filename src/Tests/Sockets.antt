-- ===== src/Tests/Sockets.antt =====
-- Sockets that are built, moved and destroyed (src/net/UdpSocket.cpp).
use sipdemo.Base.{refl, ◌≡◌, ℕ, true, List, [], ◌∷◌, some}
use sipdemo.Base.Int.{pos, negsuc}
use sipdemo.Base.Text.{text}
use sipdemo.Net.{
  close_socket, UdpSocket, Platform, timed_out, got, none_ready, new_socket, moved_from, bind,
  recv_from, receive, when_selected,
}
use sipdemo.Net.Ownership.{
  Program, Reach, starts, then_step, constructs, assigns_later, destroys, IsOwned, Reach-IsOwned,
}

abbrev program : List UdpSocket → List ℕ → Program
program ss fds = record { sockets = ss; os = record { open_fds = fds; bad_closes = 0 } }

-- Two sockets are built, the first is assigned from the second, which is then destroyed.
runs : Reach (program (new_socket 4 ∷ []) (4 ∷ []))
unfolding close_socket
runs =
    then_step (program (new_socket 4 ∷ moved_from ∷ []) (4 ∷ [])) _
      (then_step (program (new_socket 3 ∷ new_socket 4 ∷ []) (3 ∷ 4 ∷ [])) _
        (then_step (program (new_socket 4 ∷ []) (4 ∷ [])) _
          (then_step (program [] []) _ starts
            (constructs [] (record { open_fds = []; bad_closes = 0 }) 4 refl))
          (constructs (new_socket 4 ∷ []) (record { open_fds = 4 ∷ []; bad_closes = 0 }) 3 refl))
        (assigns_later [] [] [] (new_socket 3) (new_socket 4)
          (record { open_fds = 3 ∷ 4 ∷ []; bad_closes = 0 })))
      (destroys (new_socket 4 ∷ []) [] moved_from (record { open_fds = 4 ∷ []; bad_closes = 0 }))

Reach-IsOwned_example : IsOwned (program (new_socket 4 ∷ []) (4 ∷ []))
Reach-IsOwned_example = Reach-IsOwned (program (new_socket 4 ∷ []) (4 ∷ [])) runs

abbrev platform : Platform
platform = record {
  inet_pton = λ ip. some 7;
  inet_ntop = λ a. text "10.0.0.7";
  bind = λ fd a port. true;
  getsockname = λ fd. some 40000;
  sendto = λ fd data_ a port. some 2;
  select = λ fd ms. none_ready;
  recvfrom = λ fd n. some (1 ∷ 2 ∷ [], 7, 5060);
}

bind_any : bind platform (new_socket 4) [] 0 ≡ some (record { fd = some 4; local_port = 40000 })
unfolding bind
bind_any = refl

recv_from_waits :
    recv_from platform (new_socket 4) (negsuc 0)
    ≡ got (record { data_ = 1 ∷ 2 ∷ []; from = record { ip = text "10.0.0.7"; port = 5060 } })
unfolding recv_from receive when_selected
recv_from_waits = refl

recv_from_times_out : recv_from platform (new_socket 4) (pos 200) ≡ timed_out
unfolding recv_from receive when_selected
recv_from_times_out = refl
