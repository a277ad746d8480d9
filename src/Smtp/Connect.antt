-- ===== src/Smtp/Connect.antt =====
-- `connect_tcp` of src/smtp.c: the addresses of the server are tried one after the other.
use cellmgr.Base.{
  Bool, true, false, List, [], ◌∷◌, Option, none, some, inl, inr, ◌≡◌, refl, ◌∙◌, if◌then◌else◌,
  Bool-cases, Option-cases, Bytes,
}
use cellmgr.Base.Int.{ℤ, pos, negsuc, ltb_ℤ}
use cellmgr.Libc.Text.{truncate}
use cellmgr.Libc.Number.{show_int}
use cellmgr.System.{Prog}

-- `getaddrinfo` with its addresses, `socket` and `connect` for one of them, and `close`.
pub record Sockets (World Address : Type 0) : Type 0 where
  pub getaddrinfo : Bytes → Bytes → Prog World (Option (List Address))
  pub socket : Address → Prog World ℤ
  pub connect : ℤ → Address → Prog World Bool
  pub close : ℤ → World → World

abbrev is_negative : ℤ → Bool
is_negative fd = ltb_ℤ fd (pos 0)

module _ {World Address : Type 0} (net : Sockets World Address) where
  -- The loop, with the value of `fd`.
  unfoldable pub try_addresses : List Address → ℤ → Prog World ℤ
  try_addresses [] fd w = (fd, w)
  try_addresses (p ∷ rest) fd w =
      let (fd1, w1) = net.socket p w in
      elim (is_negative fd1) [
        | true ↦ try_addresses rest fd1 w1
        | false ↦
            let (done, w2) = net.connect fd1 p w1 in
            elim done [
              | true ↦ (fd1, w2)
              | false ↦ try_addresses rest (negsuc 0) (net.close fd1 w2)
            ]
      ]

  unfoldable pub connect_tcp : Bytes → ℤ → Prog World ℤ
  unfolding try_addresses show_int
  connect_tcp host port w =
      let (found, w1) = net.getaddrinfo host (truncate 16 (show_int port)) w in
      elim found [ none ↦ (negsuc 0, w1) | some res ↦ try_addresses res (negsuc 0) w1 ]

  -- What POSIX says of the descriptors that are open, the last one opened first. Of `close` it is used
  -- for the last one opened alone; on any other number nothing is assumed.
  pub record TracksOpen (open_fds : World → List ℤ) : Type 0 where
    pub found_same :
        (host port : Bytes) (w : World) → open_fds (net.getaddrinfo host port w).1 ≡ open_fds w
    pub socket_more :
        (p : Address) (w : World)
        → open_fds (net.socket p w).1
          ≡ (if is_negative (net.socket p w).0 then open_fds w else (net.socket p w).0 ∷ open_fds w)
    pub connect_same :
        (fd : ℤ) (p : Address) (w : World) → open_fds (net.connect fd p w).1 ≡ open_fds w
    pub close_last :
        (fd : ℤ) (others : List ℤ) (w : World)
        → open_fds w ≡ fd ∷ others
        → open_fds (net.close fd w) ≡ others

  module _ (open_fds : World → List ℤ) (laws : TracksOpen open_fds) where
    step_refused :
        (p : Address) (rest : List Address) (fd : ℤ) (w : World)
        → is_negative (net.socket p w).0 ≡ true
        → try_addresses (p ∷ rest) fd w ≡ try_addresses rest (net.socket p w).0 (net.socket p w).1
    unfolding try_addresses
    step_refused p rest fd w e = rw (try_addresses, e)

    step_connected :
        (p : Address) (rest : List Address) (fd : ℤ) (w : World)
        → is_negative (net.socket p w).0 ≡ false
        → (net.connect (net.socket p w).0 p (net.socket p w).1).0 ≡ true
        → try_addresses (p ∷ rest) fd w
          ≡ ((net.socket p w).0, (net.connect (net.socket p w).0 p (net.socket p w).1).1)
    unfolding try_addresses
    step_connected p rest fd w e e' = rw (try_addresses, e, e')

    step_closed :
        (p : Address) (rest : List Address) (fd : ℤ) (w : World)
        → is_negative (net.socket p w).0 ≡ false
        → (net.connect (net.socket p w).0 p (net.socket p w).1).0 ≡ false
        → try_addresses (p ∷ rest) fd w
          ≡ try_addresses rest
              (negsuc 0)
              (net.close (net.socket p w).0 (net.connect (net.socket p w).0 p (net.socket p w).1).1)
    unfolding try_addresses
    step_closed p rest fd w e e' = rw (try_addresses, e, e')

    -- Those of `fds` are open, and the one that is given, if one is.
    abbrev Leaves : List ℤ → ℤ × World → Type 0
    Leaves fds (fd, w) = open_fds w ≡ (if is_negative fd then fds else fd ∷ fds)

    try_addresses-Leaves :
        (res : List Address) (fd : ℤ) (w : World) (fds : List ℤ)
        → is_negative fd ≡ true
        → open_fds w ≡ fds
        → Leaves fds (try_addresses res fd w)
    try_addresses-Leaves [] fd w fds h k = unfold try_addresses in (rw h k)
    try_addresses-Leaves (p ∷ rest) fd w fds h k =
        let new = (net.socket p w).0 in
        let w1 = (net.socket p w).1 in
        let w2 = (net.connect new p w1).1 in
        elim (Bool-cases (is_negative new)) [
          | inl e ↦
              let same : open_fds w1 ≡ fds = rw (e, k) at (laws.socket_more p w) in
              rw (step_refused p rest fd w e) (try_addresses-Leaves rest new w1 fds e same)
          | inr e ↦
              let more : open_fds w1 ≡ new ∷ fds = rw (e, k) at (laws.socket_more p w) in
              let kept : open_fds w2 ≡ new ∷ fds = laws.connect_same new p w1 ∙ more in
              elim (Bool-cases (net.connect new p w1).0) [
                | inl c ↦ rw (step_connected p rest fd w e c, e) kept
                | inr c ↦ rw (step_closed p rest fd w e c) (
                    try_addresses-Leaves rest (negsuc 0) (net.close new w2) fds refl
                      (laws.close_last new fds w2 kept))
              ]
        ]

    connect_tcp_none :
        (host : Bytes) (port : ℤ) (w : World)
        → (net.getaddrinfo host (truncate 16 (show_int port)) w).0 ≡ none
        → connect_tcp host port w
          ≡ (negsuc 0, (net.getaddrinfo host (truncate 16 (show_int port)) w).1)
    unfolding connect_tcp
    connect_tcp_none host port w e = rw (connect_tcp, e)

    connect_tcp_some :
        (host : Bytes) (port : ℤ) (w : World) (res : List Address)
        → (net.getaddrinfo host (truncate 16 (show_int port)) w).0 ≡ some res
        → connect_tcp host port w
          ≡ try_addresses res (negsuc 0) (net.getaddrinfo host (truncate 16 (show_int port)) w).1
    unfolding connect_tcp
    connect_tcp_some host port w res e = rw (connect_tcp, e)

    -- Whatever addresses the name has and however they fail: behind connect_tcp the descriptors that were
    -- open before are open, with the one that it returns if it returns one, and no other.
    pub connect_tcp-Leaves :
        (host : Bytes) (port : ℤ) (w : World)
        → open_fds (connect_tcp host port w).1 ≡ (
            if is_negative (connect_tcp host port w).0
            then open_fds w
            else (connect_tcp host port w).0 ∷ open_fds w)
    connect_tcp-Leaves host port w =
        let port_s = truncate 16 (show_int port) in
        let same = laws.found_same host port_s w in
        elim (Option-cases (net.getaddrinfo host port_s w).0) [
          | inl e ↦ rw (connect_tcp_none host port w e) same
          | inr (res, e) ↦ rw (connect_tcp_some host port w res e) (
              try_addresses-Leaves res (negsuc 0) (net.getaddrinfo host port_s w).1 (open_fds w)
                refl same)
        ]
