-- ===== src/Net.antt =====
-- include/sipdemo/UdpSocket.h and src/net/UdpSocket.cpp: the socket that owns its descriptor. The
-- calls of the platform are parameters, in the build without _WIN32; a result is `none` where the
-- method throws.
pub mod Ownership
use sipdemo.Base.{
  ℕ, zero, suc, ◌+◌, Bool, true, false, ◌||◌, List, [], ◌∷◌, ◌++◌, Option, none, some, ltb, ◌==◌,
  if◌then◌else◌, is_empty, is_some,
}
use sipdemo.Base.Int.{ℤ, pos, ltb_ℤ}
use sipdemo.Base.Text.{Text, text, text_eq}
use sipdemo.Rtp.{Bytes}
use sipdemo.Sip.Uas.{Endpoint}

pub record Datagram : Type 0 where
  pub data_ : Bytes
  pub from : Endpoint

-- What `recvFrom` gives: nothing in time, an exception, or a datagram.
pub data Receipt : Type 0 where
  timed_out failed : Receipt
  got : Datagram → Receipt

-- `fd` is `none` where `fd_` is `kInvalidFd`.
pub record UdpSocket : Type 0 where
  pub fd : Option ℕ
  pub local_port : ℕ

-- The descriptors that the process has open, and how often it closed one that was not.
pub record Descriptors : Type 0 where
  pub open_fds : List ℕ
  pub bad_closes : ℕ

abbrev pub times : ℕ → List ℕ → ℕ
times k [] = 0
times k (x ∷ xs) = if x == k then suc (times k xs) else times k xs

abbrev pub remove : ℕ → List ℕ → List ℕ
remove k [] = []
remove k (x ∷ xs) = if x == k then xs else x ∷ remove k xs

-- `::close(fd)`.
abbrev pub close_fd : ℕ → Descriptors → Descriptors
close_fd k os =
    if ltb 0 (times k os.open_fds)
    then record os { open_fds = remove k os.open_fds }
    else record os { bad_closes = os.bad_closes + 1 }

-- The constructor, where `::socket` gave a descriptor.
abbrev pub new_socket : ℕ → UdpSocket
new_socket k = record { fd = some k; local_port = 0 }

-- `closeSocket`: what it leaves of the descriptors.
unfoldable pub close_socket : Option ℕ → Descriptors → Descriptors
close_socket none os = os
close_socket (some k) os = close_fd k os

-- What a move leaves of the other socket.
abbrev pub moved_from : UdpSocket
moved_from = record { fd = none; local_port = 0 }

abbrev pub valid : UdpSocket → Bool
valid s = is_some s.fd

-- The platform, for the calls that move no descriptor.
pub data Selected : Type 0 where
  none_ready select_failed some_ready : Selected

pub record Platform : Type 0 where
  pub inet_pton : Text → Option ℕ
  pub inet_ntop : ℕ → Text
  pub bind : Option ℕ → ℕ → ℕ → Bool
  pub getsockname : Option ℕ → Option ℕ
  pub sendto : Option ℕ → Bytes → ℕ → ℕ → Option ℕ
  pub select : Option ℕ → ℤ → Selected
  pub recvfrom : Option ℕ → ℕ → Option (Bytes × ℕ × ℕ)

module _ (os : Platform) where
  -- INADDR_ANY is 0.
  abbrev pub address : Text → Option ℕ
  address ip = if is_empty ip || text_eq ip (text "0.0.0.0") then some 0 else os.inet_pton ip

  unfoldable pub bind : UdpSocket → Text → ℕ → Option UdpSocket
  bind s ip port = elim (address ip) [
    | none ↦ none
    | some a ↦
        if os.bind s.fd a port
        then some (record s {
          local_port = elim (os.getsockname s.fd) [ some bound ↦ bound | none ↦ port ];
        })
        else none
  ]

  unfoldable pub send_to : UdpSocket → Bytes → Endpoint → Option ℕ
  send_to s data_ to = elim (os.inet_pton to.ip) [
    | none ↦ none
    | some a ↦ os.sendto s.fd data_ a to.port
  ]

  -- Behind the wait; a datagram is cut to the 2048 bytes of the buffer by `recvfrom`.
  unfoldable pub receive : UdpSocket → Receipt
  receive s = elim (os.recvfrom s.fd 2048) [
    | none ↦ failed
    | some (data_, a, port) ↦
        got (record { data_ = data_; from = record { ip = os.inet_ntop a; port = port } })
  ]

  unfoldable pub when_selected : UdpSocket → Selected → Receipt
  when_selected s none_ready = timed_out
  when_selected s select_failed = failed
  when_selected s some_ready = receive s

  unfoldable pub recv_from : UdpSocket → ℤ → Receipt
  unfolding receive when_selected
  recv_from s timeout_ms =
      if ltb_ℤ timeout_ms (pos 0) then receive s else when_selected s (os.select s.fd timeout_ms)
