-- ===== src/Sockets/Open.antt =====
-- p5/cs537.c: the state of the descriptor that the wrappers open.
use sp.Base.{
  ℕ, ◌≡◌, refl, true, false, Option, none, some, List, [], ◌∷◌, inl, inr, if◌then◌else◌, Bool-cases,
  eqb_ℤ, ℤ, arith, CString,
}
use sp.Sockets.{
  Message, open_listenfd_error, open_clientfd_error, dns_error, socket_failed, setsockopt_failed,
  bind_failed, listen_failed, Address, Call, socket, setsockopt, bind, listen, gethostbyname,
  connect, print, History, Net, End, returns, exits, negative, listenq, unsigned_short, any_address,
  open_listenfd_or_exit, open_clientfd_or_exit,
}

-- What the descriptor `fd` stands for, as the manual pages of the calls say.
pub data Socket : Type 0 where
  opened : Socket
  bound : Address → Socket
  listening : Address → ℕ → Socket
  connected : Address → Socket

abbrev to_listening : ℕ → Option Socket → Option Socket
to_listening backlog (some (bound a)) = some (listening a backlog)
to_listening backlog _ = none

-- The state `next` where a call on the descriptor `d` succeeds, and the old one otherwise.
abbrev on : ℤ → ℤ → ℤ → Option Socket → Option Socket → Option Socket
on fd d r next old = if negative r then old else if eqb_ℤ d fd then next else old

abbrev pub state : Net → ℤ → History → Option Socket
state net fd [] = none
state net fd (socket ∷ h) =
    on fd (net.answer (socket ∷ h)) (net.answer (socket ∷ h)) (some opened) (state net fd h)
state net fd (setsockopt d ∷ h) = state net fd h
state net fd (bind d a ∷ h) = on fd d (net.answer (bind d a ∷ h)) (some (bound a)) (state net fd h)
state net fd (listen d n ∷ h) =
    on fd d (net.answer (listen d n ∷ h)) (to_listening n (state net fd h)) (state net fd h)
state net fd (gethostbyname name ∷ h) = state net fd h
state net fd (connect d a ∷ h) =
    on fd d (net.answer (connect d a ∷ h)) (some (connected a)) (state net fd h)
state net fd (print m ∷ h) = state net fd h

same_fd : (fd : ℤ) → eqb_ℤ fd fd ≡ true
same_fd fd = ground arith

-- The last call, but for what is printed, was refused.
pub data Failed (net : Net) : History → Type 0 where
  refused : (c : Call) (h : History) → negative (net.answer (c ∷ h)) ≡ true → Failed net (c ∷ h)
  unknown :
      (name : CString) (h : History)
      → net.h_addr (gethostbyname name ∷ h) ≡ none
      → Failed net (gethostbyname name ∷ h)
  told : (m : Message) (h : History) → Failed net h → Failed net (print m ∷ h)

-- A run ends with a descriptor in this state, or the process stops with status 0 as a call failed.
pub data Opens (net : Net) (s : Socket) : End ℤ → Type 0 where
  gives :
      (fd : ℤ) (h : History)
      → negative fd ≡ false
      → state net fd h ≡ some s
      → Opens net s (returns fd h)
  stopped : (m : Message) (h : History) → Failed net h → Opens net s (exits 0 (print m ∷ h))

stop_after :
    {net : Net} {s : Socket} (m m' : Message) (c : Call) (h : History)
    → negative (net.answer (c ∷ h)) ≡ true
    → Opens net s (exits 0 (print m ∷ print m' ∷ c ∷ h))
stop_after m m' c h fails = stopped m (print m' ∷ c ∷ h) (told m' (c ∷ h) (refused c h fails))

open_listenfd_or_exit_lem :
    (net : Net) (port : ℤ) (h : History)
    → Opens net (listening (any_address port) listenq) (open_listenfd_or_exit net port h)
unfolding open_listenfd_or_exit
open_listenfd_or_exit_lem net port h =
    let fd = net.answer (socket ∷ h) in
    let h0 = socket ∷ h in
    let h1 = setsockopt fd ∷ h0 in
    let h2 = bind fd (any_address port) ∷ h1 in
    let h3 = listen fd listenq ∷ h2 in
    elim (Bool-cases (negative fd)) [
      | inl fails ↦ rw fails (stop_after open_listenfd_error socket_failed socket h fails)
      | inr done ↦ elim (Bool-cases (negative (net.answer h1))) [
        | inl fails1 ↦
            rw (done, fails1)
              (stop_after open_listenfd_error setsockopt_failed (setsockopt fd) h0 fails1)
        | inr done1 ↦ elim (Bool-cases (negative (net.answer h2))) [
          | inl no2 ↦
              rw (done, done1, no2)
                (stop_after open_listenfd_error bind_failed (bind fd (any_address port)) h1 no2)
          | inr done2 ↦ elim (Bool-cases (negative (net.answer h3))) [
            | inl no3 ↦
                rw (done, done1, done2, no3)
                  (stop_after open_listenfd_error listen_failed (listen fd listenq) h2 no3)
            | inr done3 ↦
                rw (done, done1, done2, done3, done)
                  (gives fd h3 done (rw (done3, same_fd fd, done2) refl))
          ]
        ]
      ]
    ]

-- Where a client connects to; no address is looked at where the host has none.
abbrev pub client_address : Net → CString → ℤ → History → Address
client_address net hostname port h = record {
  s_addr = elim (net.h_addr (gethostbyname hostname ∷ socket ∷ h)) [ none ↦ [] | some a ↦ a ];
  sin_port = unsigned_short port;
}

open_clientfd_or_exit_lem :
    (net : Net) (hostname : CString) (port : ℤ) (h : History)
    → Opens net
        (connected (client_address net hostname port h))
        (open_clientfd_or_exit net hostname port h)
unfolding open_clientfd_or_exit
open_clientfd_or_exit_lem net hostname port h =
    elim (Bool-cases (negative (net.answer (socket ∷ h)))) [
      | inl fails ↦ rw fails (stopped open_clientfd_error (socket ∷ h) (refused socket h fails))
      | inr done ↦ resolved done (net.h_addr (gethostbyname hostname ∷ socket ∷ h)) refl
    ]
  where
    resolved :
        negative (net.answer (socket ∷ h)) ≡ false
        → (o : Option (List ℕ)) → net.h_addr (gethostbyname hostname ∷ socket ∷ h) ≡ o
        → Opens net
            (connected (client_address net hostname port h))
            (open_clientfd_or_exit net hostname port h)
    resolved done none e =
        rw (done, e)
          (stopped dns_error (gethostbyname hostname ∷ socket ∷ h)
            (unknown hostname (socket ∷ h) e))
    resolved done (some addr) e =
        let fd = net.answer (socket ∷ h) in
        let a : Address = record { s_addr = addr; sin_port = unsigned_short port } in
        let h2 = gethostbyname hostname ∷ socket ∷ h in
        elim (Bool-cases (negative (net.answer (connect fd a ∷ h2)))) [
          | inl fails ↦
              rw (done, e, fails)
                (stopped open_clientfd_error (connect fd a ∷ h2) (refused (connect fd a) h2 fails))
          | inr done2 ↦
              rw (done, e, done2, done)
                (gives fd (connect fd a ∷ h2) done (rw (done2, same_fd fd) refl))
        ]

-- Whatever the calls answer, `Open_listenfd` either returns a descriptor that is not negative and
-- that, by the calls made, listens on every address at the port modulo 2^16 with a backlog of 1024,
-- or the process stops with status 0 and the last call before the messages was refused; in the same
-- way `Open_clientfd` either returns a descriptor that is connected to the address that was found
-- for the host, at the port modulo 2^16, or the process stops with status 0 after a call that was
-- refused or a host that was not found.
pub open_or_stop :
    (net : Net) (hostname : CString) (port : ℤ) (h : History)
    → Opens net (listening (any_address port) listenq) (open_listenfd_or_exit net port h)
      × Opens net
          (connected (client_address net hostname port h))
          (open_clientfd_or_exit net hostname port h)
open_or_stop net hostname port h =
    (open_listenfd_or_exit_lem net port h, open_clientfd_or_exit_lem net hostname port h)
