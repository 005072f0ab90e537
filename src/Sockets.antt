-- ===== src/Sockets.antt =====
-- p5/cs537.c: the sockets of the server and the client. A run is a function of the calls made so far, the
-- last one first; `Net` says what each call answers.
pub mod Open
pub mod Examples
use sp.Base.{
  ℕ, zero, suc, ◌-◌, ◌%◌, ◌^◌, Bool, Option, none, some, List, [], ◌∷◌, if◌then◌else◌, ltb_ℤ, eqb_ℤ,
  ℤ, pos, negsuc, CString,
}

-- What is printed on stderr.
pub data Message : Type 0 where
  socket_failed setsockopt_failed bind_failed listen_failed : Message
  open_listenfd_error open_clientfd_error dns_error : Message

-- The address of a socket, with its port as a number of 16 bits.
pub record Address : Type 0 where
  pub s_addr : List ℕ
  pub sin_port : ℕ

pub data Call : Type 0 where
  socket : Call
  setsockopt : ℤ → Call
  bind : ℤ → Address → Call
  listen : ℤ → ℕ → Call
  gethostbyname : CString → Call
  connect : ℤ → Address → Call
  print : Message → Call

abbrev pub History : Type 0
History = List Call

-- The bytes of `h_addr` are those of an address of four bytes.
pub record Net : Type 0 where
  pub answer : History → ℤ
  pub h_addr : History → Option (List ℕ)

pub data End (A : Type 0) : Type 0 where
  returns : A → History → End A
  exits : ℕ → History → End A

abbrev pub Run : Type 0 → Type 0
Run A = History → End A

abbrev pub continue : {A B : Type 0} → End A → (A → Run B) → End B
continue (returns a h) f = f a h
continue (exits c h) f = exits c h

infixl 5 ◌>>=◌
abbrev pub ◌>>=◌ : {A B : Type 0} → Run A → (A → Run B) → Run B
◌>>=◌ m f h = continue (m h) f

abbrev pub pure : {A : Type 0} → A → Run A
pure a h = returns a h

abbrev pub call : Net → Call → Run ℤ
call net c h = returns (net.answer (c ∷ h)) (c ∷ h)

abbrev pub negative : ℤ → Bool
negative r = ltb_ℤ r (pos 0)

abbrev pub listenq : ℕ
listenq = 1024

-- `INADDR_ANY`
abbrev pub inaddr_any : List ℕ
inaddr_any = 0 ∷ 0 ∷ 0 ∷ 0 ∷ []

-- An `int` as an `unsigned short`.
abbrev pub unsigned_short : ℤ → ℕ
unsigned_short (pos n) = n % 2 ^ 16
unsigned_short (negsuc n) = 2 ^ 16 - 1 - n % 2 ^ 16

-- `unix_error` and `dns_error`
unfoldable pub stop : {A : Type 0} → Message → Run A
stop m h = exits 0 (print m ∷ h)

-- A message, and the result -1.
unfoldable pub give_up : Message → Run ℤ
give_up m h = returns (negsuc 0) (print m ∷ h)

abbrev pub any_address : ℤ → Address
any_address port = record { s_addr = inaddr_any; sin_port = unsigned_short port }

unfoldable pub open_listenfd : Net → ℤ → Run ℤ
unfolding give_up
open_listenfd net port = do
  listenfd ← call net socket
  if negative listenfd then give_up socket_failed else (do
    optioned ← call net (setsockopt listenfd)
    if negative optioned then give_up setsockopt_failed else (do
      named ← call net (bind listenfd (any_address port))
      if negative named then give_up bind_failed else (do
        listens ← call net (listen listenfd listenq)
        if negative listens then give_up listen_failed else pure listenfd)))

-- `Open_listenfd`
unfoldable pub open_listenfd_or_exit : Net → ℤ → Run ℤ
unfolding open_listenfd stop
open_listenfd_or_exit net port = do
  rc ← open_listenfd net port
  if negative rc then stop open_listenfd_error else pure rc

unfoldable pub connect_to : Net → ℤ → ℤ → List ℕ → Run ℤ
connect_to net port clientfd addr = do
  connected ← call net (connect clientfd (record { s_addr = addr; sin_port = unsigned_short port }))
  if negative connected then pure (negsuc 0) else pure clientfd

unfoldable pub open_clientfd : Net → CString → ℤ → Run ℤ
unfolding connect_to
open_clientfd net hostname port = do
  clientfd ← call net socket
  if negative clientfd then pure (negsuc 0) else (λ h.
      elim (net.h_addr (gethostbyname hostname ∷ h)) [
        | none ↦ returns (negsuc 1) (gethostbyname hostname ∷ h)
        | some addr ↦ connect_to net port clientfd addr (gethostbyname hostname ∷ h)
      ])

-- `Open_clientfd`
unfoldable pub open_clientfd_or_exit : Net → CString → ℤ → Run ℤ
unfolding open_clientfd stop
open_clientfd_or_exit net hostname port = do
  rc ← open_clientfd net hostname port
  if negative rc
      then (if eqb_ℤ rc (negsuc 0) then stop open_clientfd_error else stop dns_error)
      else pure rc
