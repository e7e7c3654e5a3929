-- ===== src/Net/Ownership.antt =====
-- Who closes a descriptor (src/net/UdpSocket.cpp): the sockets of a program, as they are built,
-- moved, assigned and destroyed in any order.
use sipdemo.Base.{
  ℕ, ◌+◌, ◌<◌, ◌≡◌, refl, ◌∙◌, List, [], ◌∷◌, ◌++◌, Option, none, some, ◌==◌, if◌then◌else◌,
  Bool-cases, inl, inr, arith, ==_iff, lt→ltb, ◌≤◌,
}
use sipdemo.Net.{UdpSocket, Descriptors, times, remove, new_socket, close_socket, moved_from}

-- The sockets that are alive, and the descriptors.
pub record Program : Type 0 where
  pub sockets : List UdpSocket
  pub os : Descriptors

-- The constructor, the destructor, the move constructor, and the move assignment from a socket
-- that stands behind, before, or is the one that is assigned. `::socket` gives a descriptor that is
-- not open.
pub data Step : Program → Program → Type 0 where
  constructs :
      (ss : List UdpSocket) (os : Descriptors) (k : ℕ)
      → times k os.open_fds ≡ 0
      → Step
          (record { sockets = ss; os = os })
          (record { sockets = new_socket k ∷ ss; os = record os { open_fds = k ∷ os.open_fds } })
  destroys :
      (before after : List UdpSocket) (s : UdpSocket) (os : Descriptors)
      → Step
          (record { sockets = before ++ s ∷ after; os = os })
          (record { sockets = before ++ after; os = close_socket s.fd os })
  move_constructs :
      (before after : List UdpSocket) (other : UdpSocket) (os : Descriptors)
      → Step
          (record { sockets = before ++ other ∷ after; os = os })
          (record { sockets = other ∷ (before ++ moved_from ∷ after); os = os })
  assigns_later :
      (before mid after : List UdpSocket) (this other : UdpSocket) (os : Descriptors)
      → Step
          (record { sockets = before ++ this ∷ (mid ++ other ∷ after); os = os })
          (record {
            sockets = before ++ other ∷ (mid ++ moved_from ∷ after);
            os = close_socket this.fd os;
          })
  assigns_earlier :
      (before mid after : List UdpSocket) (this other : UdpSocket) (os : Descriptors)
      → Step
          (record { sockets = before ++ other ∷ (mid ++ this ∷ after); os = os })
          (record {
            sockets = before ++ moved_from ∷ (mid ++ other ∷ after);
            os = close_socket this.fd os;
          })
  assigns_itself : (p : Program) → Step p p

pub data Reach : Program → Type 0 where
  starts : Reach (record { sockets = []; os = record { open_fds = []; bad_closes = 0 } })
  then_step : (p q : Program) → Reach p → Step p q → Reach q

-- How many sockets own a descriptor.
abbrev pub owns : ℕ → Option ℕ → ℕ
owns k none = 0
owns k (some j) = if j == k then 1 else 0

abbrev pub owners : ℕ → List UdpSocket → ℕ
owners k [] = 0
owners k (s ∷ ss) = owns k s.fd + owners k ss

owners-append : (k : ℕ) (xs ys : List UdpSocket) → owners k (xs ++ ys) ≡ owners k xs + owners k ys
owners-append k [] ys = omega arith
owners-append k (x ∷ xs) ys = omega (arith, owners-append k xs ys)

times-remove :
    (k j : ℕ) (xs : List ℕ) → 0 < times j xs → times k (remove j xs) + owns k (some j) ≡ times k xs
times-remove k j [] h = absurd (omega arith)
times-remove k j (x ∷ xs) h = elim (Bool-cases (x == j)) [
  | inl same ↦ let is : x ≡ j = (==_iff x j).0 same in ground (arith, same, is)
  | inr other ↦
      let ih = times-remove k j xs (ground (arith, other)) in
      rw other (elim (Bool-cases (x == k)) [
        | inl counted ↦ rw counted (omega (arith, ih))
        | inr not_counted ↦ rw not_counted ih
      ])
]

owns_self : (j : ℕ) → owns j (some j) ≡ 1
owns_self j = rw ((==_iff j j).1 refl) refl

-- A descriptor that is open is closed once, and none is closed that is not open.
close_socket-times :
    (fd : Option ℕ) (os : Descriptors)
    → ((k : ℕ) → owns k fd ≤ times k os.open_fds)
    → ((k : ℕ) → times k (close_socket fd os).open_fds + owns k fd ≡ times k os.open_fds)
      × ((close_socket fd os).bad_closes ≡ os.bad_closes)
unfolding close_socket
close_socket-times none os h = ((λ k. omega arith), refl)
close_socket-times (some j) os h =
    let there : 0 < times j os.open_fds = omega (arith, h j, owns_self j) in
    let open_ = lt→ltb 0 (times j os.open_fds) there in
    rw open_ ((λ k. times-remove k j os.open_fds there), refl)

-- Each open descriptor has just one owner, and each descriptor of a socket is open.
pub record IsOwned (p : Program) : Type 0 where
  pub matched : (k : ℕ) → owners k p.sockets ≡ times k p.os.open_fds
  pub single : (k : ℕ) → times k p.os.open_fds ≤ 1
  pub none_bad : p.os.bad_closes ≡ 0

-- The owners in a list with a socket, or with two.
owners_one :
    (k : ℕ) (before after : List UdpSocket) (s : UdpSocket)
    → owners k (before ++ s ∷ after) ≡ owners k before + owns k s.fd + owners k after
owners_one k before after s = omega (arith, owners-append k before (s ∷ after))

owners_two :
    (k : ℕ) (before mid after : List UdpSocket) (s t : UdpSocket)
    → owners k (before ++ s ∷ (mid ++ t ∷ after))
      ≡ owners k before + owns k s.fd + owners k mid + owns k t.fd + owners k after
owners_two k before mid after s t =
    omega (arith, owners_one k before (mid ++ t ∷ after) s, owners_one k mid after t)

-- A socket's descriptor is closed and the others keep theirs.
closes-IsOwned :
    (ss ts : List UdpSocket) (fd : Option ℕ) (os : Descriptors)
    → IsOwned (record { sockets = ss; os = os })
    → ((k : ℕ) → owners k ss ≡ owners k ts + owns k fd)
    → IsOwned (record { sockets = ts; os = close_socket fd os })
closes-IsOwned ss ts fd os v split =
    let (left, bad) = close_socket-times fd os (λ k. omega (arith, v.matched k, split k)) in
    record {
      matched = λ k. omega (arith, v.matched k, split k, left k);
      single = λ k. omega (arith, v.single k, left k);
      none_bad = bad ∙ v.none_bad;
    }

Step-IsOwned : (p q : Program) → Step p q → IsOwned p → IsOwned q
Step-IsOwned _ _ (constructs ss os j fresh) v = record {
  matched = λ k. elim (Bool-cases (j == k)) [
    | inl same ↦ rw same (omega (arith, v.matched k))
    | inr other ↦ rw other (omega (arith, v.matched k))
  ];
  single = λ k. elim (Bool-cases (j == k)) [
    | inl same ↦
        let is : j ≡ k = (==_iff j k).0 same in
        let none_yet : times k os.open_fds ≡ 0 = rw is at fresh in rw same (omega (arith, none_yet))
    | inr other ↦ rw other (v.single k)
  ];
  none_bad = v.none_bad;
}
Step-IsOwned _ _ (destroys before after s os) v =
    closes-IsOwned (before ++ s ∷ after) (before ++ after) s.fd os v
      λ k. omega (arith, owners_one k before after s, owners-append k before after)
Step-IsOwned _ _ (move_constructs before after other os) v = record {
  matched = λ k.
      omega
        (arith, v.matched k, owners_one k before after other, owners_one k before after moved_from);
  single = v.single;
  none_bad = v.none_bad;
}
Step-IsOwned _ _ (assigns_later before mid after this other os) v =
    closes-IsOwned _ (before ++ other ∷ (mid ++ moved_from ∷ after)) this.fd os v λ k. omega (
      arith,
      owners_two k before mid after this other,
      owners_two k before mid after other moved_from,
    )
Step-IsOwned _ _ (assigns_earlier before mid after this other os) v =
    closes-IsOwned _ (before ++ moved_from ∷ (mid ++ other ∷ after)) this.fd os v λ k. omega (
      arith,
      owners_two k before mid after other this,
      owners_two k before mid after moved_from other,
    )
Step-IsOwned p _ (assigns_itself _) v = v

-- However sockets are built, moved, assigned and destroyed, where a new descriptor is never one
-- that is open: every open descriptor belongs to just one socket and every descriptor of a socket
-- is open, and no descriptor is closed that is not open, so that none leaks or is closed twice.
pub Reach-IsOwned : (p : Program) → Reach p → IsOwned p
Reach-IsOwned _ starts = record { matched = λ k. refl; single = λ k. omega arith; none_bad = refl }
Reach-IsOwned q (then_step p _ r s) = Step-IsOwned p q s (Reach-IsOwned p r)
