-- ===== src/Rio.antt =====
-- p5/cs537.c, the robust I/O routines. `read` and `write` are a list of what they answer, call by call; at the
pub mod Buffer
pub mod Bytes
pub mod Lines
pub mod Writes
mod Examples
-- end of that list the next call blocks. `rio_buf` and the buffers of the callers are arrays of bytes.
use sp.Base.{
  ℕ, zero, suc, ◌+◌, ◌-◌, Bool, true, false, List, [], ◌∷◌, ◌==◌, leb, ltb, if◌then◌else◌, length,
  ◌++◌, ℤ, pos, negsuc, eqb_ℤ, pos_part, ◌-ℤ◌, ltb_ℤ, leb_ℤ, Outcome, ok, exit, hang, ◌>>=◌, Array,
  load, store,
}

-- What `read` returns: bytes, or none at the end; or -1, with errno EINTR or another one.
pub data Read : Type 0 where
  got : List ℕ → Read
  interrupted failed : Read

-- `rio_t`, with the answers to come in place of the descriptor.
pub record Rio : Type 0 where
  pub cnt : ℤ
  pub bufptr : ℕ
  pub buf : Array ℕ
  pub source : List Read

-- What a routine hands to its caller: bytes, none at the end, or -1.
pub data Copied : Type 0 where
  bytes : List ℕ → Copied
  error : Copied

pub data Refill : Type 0 where
  ready ended broken : Rio → Refill

unfoldable pub store_all : Array ℕ → ℕ → List ℕ → Outcome (Array ℕ)
store_all buf i [] = ok buf
store_all buf i (b ∷ bs) = store buf i b >>= λ buf'. store_all buf' (suc i) bs

unfoldable pub load_range : ℕ → Array ℕ → ℕ → Outcome (List ℕ)
load_range zero buf i = ok []
load_range (suc n) buf i = load buf i >>= λ b. load_range n buf (suc i) >>= λ bs. ok (b ∷ bs)

-- The loop that refills an empty buffer.
unfoldable pub refill_loop : List Read → Rio → Outcome Refill
unfolding store_all
refill_loop [] r = hang
refill_loop (failed ∷ rs) r = ok (broken (record r { cnt = negsuc 0; source = rs }))
refill_loop (interrupted ∷ rs) r = refill_loop rs (record r { cnt = negsuc 0; source = rs })
refill_loop (got [] ∷ rs) r = ok (ended (record r { cnt = pos 0; source = rs }))
refill_loop (got (b ∷ bs) ∷ rs) r = do
  buf ← store_all r.buf 0 (b ∷ bs)
  ok (ready (record { cnt = pos (length (b ∷ bs)); bufptr = 0; buf = buf; source = rs }))

unfoldable pub refill : Rio → Outcome Refill
unfolding refill_loop
refill r = if leb_ℤ r.cnt (pos 0) then refill_loop r.source r else ok (ready r)

-- The bytes that are copied, min (n, rio_cnt) of them, where rio_cnt is above 0.
unfoldable pub copy_out : ℕ → Refill → Outcome (Copied × Rio)
unfolding load_range
copy_out n (ended r) = ok (bytes [], r)
copy_out n (broken r) = ok (error, r)
copy_out n (ready r) = do
  let cnt = if ltb_ℤ r.cnt (pos n) then pos_part r.cnt else n
  bs ← load_range cnt r.buf r.bufptr
  ok (bytes bs, record r { bufptr = r.bufptr + cnt; cnt = r.cnt -ℤ pos cnt })

-- `rio_read`; the caller stores the bytes.
unfoldable pub rio_read : Rio → ℕ → Outcome (Copied × Rio)
unfolding refill copy_out
rio_read r n = refill r >>= copy_out n

unfoldable pub rio_readinitb : List Read → Array ℕ → Rio
rio_readinitb source buf = record { cnt = pos 0; bufptr = 0; buf = buf; source = source }

-- What a routine leaves: its return value, the buffer of the caller and the `rio_t`.
pub record Left : Type 0 where
  pub value : ℤ
  pub usrbuf : Array ℕ
  pub rio : Rio

-- The loop of `rio_readnb`, with a round for each byte and one more. A failed `rio_read` does not leave
-- errno at EINTR.
unfoldable pub readnb_loop : ℕ → Rio → Array ℕ → ℕ → ℕ → ℕ → Outcome Left
unfolding rio_read store_all
readnb_loop zero r usr bufp n nleft = hang
readnb_loop (suc k) r usr bufp n zero = ok (record { value = pos n; usrbuf = usr; rio = r })
readnb_loop (suc k) r usr bufp n (suc nleft) = do
  (nread, r') ← rio_read r (suc nleft)
  elim nread [
    | error ↦ ok (record { value = negsuc 0; usrbuf = usr; rio = r' })
    | bytes [] ↦ ok (record { value = pos (n - suc nleft); usrbuf = usr; rio = r' })
    | bytes (b ∷ bs) ↦ (do
      usr' ← store_all usr bufp (b ∷ bs)
      readnb_loop k r' usr' (bufp + length (b ∷ bs)) n (suc nleft - length (b ∷ bs)))
  ]

unfoldable pub rio_readnb : Rio → Array ℕ → ℕ → Outcome Left
unfolding readnb_loop
rio_readnb r usr n = readnb_loop (suc n) r usr 0 n n

-- `*bufp = 0; return n;`
abbrev pub finish_line : Rio → Array ℕ → ℕ → ℕ → Outcome Left
finish_line r usr bufp n = do
  usr' ← store usr bufp 0
  ok (record { value = pos n; usrbuf = usr'; rio = r })

-- The loop of `rio_readlineb`; the variable n is always one more than the bytes stored.
unfoldable pub readlineb_loop : ℕ → Rio → Array ℕ → ℕ → Outcome Left
unfolding rio_read
readlineb_loop zero r usr bufp = finish_line r usr bufp (suc bufp)
readlineb_loop (suc k) r usr bufp = do
  (rc, r') ← rio_read r 1
  elim rc [
    | error ↦ ok (record { value = negsuc 0; usrbuf = usr; rio = r' })
    | bytes [] ↦
        if suc bufp == 1
        then ok (record { value = pos 0; usrbuf = usr; rio = r' })
        else finish_line r' usr bufp (suc bufp)
    | bytes (c ∷ cs) ↦ (do
      usr' ← store usr bufp c
      elim (c == b'\n') [
        | true ↦ finish_line r' usr' (suc bufp) (suc bufp)
        | false ↦ readlineb_loop k r' usr' (suc bufp)
      ])
  ]

unfoldable pub rio_readlineb : Rio → Array ℕ → ℕ → Outcome Left
unfolding readlineb_loop
rio_readlineb r usr maxlen = readlineb_loop (maxlen - 1) r usr 0

-- The loop of `rio_readn`. `read` returns no more bytes than it is asked for.
unfoldable pub readn_loop : List Read → Array ℕ → ℕ → ℕ → ℕ → Outcome (ℤ × Array ℕ)
unfolding store_all
readn_loop rs usr bufp n zero = ok (pos n, usr)
readn_loop [] usr bufp n (suc nleft) = hang
readn_loop (failed ∷ rs) usr bufp n (suc nleft) = ok (negsuc 0, usr)
readn_loop (interrupted ∷ rs) usr bufp n (suc nleft) = readn_loop rs usr bufp n (suc nleft)
readn_loop (got [] ∷ rs) usr bufp n (suc nleft) = ok (pos (n - suc nleft), usr)
readn_loop (got (b ∷ bs) ∷ rs) usr bufp n (suc nleft) = do
  usr' ← store_all usr bufp (b ∷ bs)
  readn_loop rs usr' (bufp + length (b ∷ bs)) n (suc nleft - length (b ∷ bs))

unfoldable pub rio_readn : List Read → Array ℕ → ℕ → Outcome (ℤ × Array ℕ)
unfolding readn_loop
rio_readn rs usr n = readn_loop rs usr 0 n n

-- What `write` returns: how many bytes it wrote, one at least, or 0 or less, with errno EINTR or another one.
pub data Write : Type 0 where
  wrote : ℕ → Write
  refused_by_signal refused : Write

-- The loop of `rio_writen`; `out` are the bytes written so far. `write` writes no more than it is asked to.
unfoldable pub writen_loop : List Write → Array ℕ → List ℕ → ℕ → ℕ → ℕ → Outcome (ℤ × List ℕ)
unfolding load_range
writen_loop ws usr out bufp n zero = ok (pos n, out)
writen_loop [] usr out bufp n (suc nleft) = hang
writen_loop (refused ∷ ws) usr out bufp n (suc nleft) = ok (negsuc 0, out)
writen_loop (refused_by_signal ∷ ws) usr out bufp n (suc nleft) =
    writen_loop ws usr out bufp n (suc nleft)
writen_loop (wrote k ∷ ws) usr out bufp n (suc nleft) = do
  bs ← load_range k usr bufp
  writen_loop ws usr (out ++ bs) (bufp + k) n (suc nleft - k)

unfoldable pub rio_writen : List Write → Array ℕ → ℕ → Outcome (ℤ × List ℕ)
unfolding writen_loop
rio_writen ws usr n = writen_loop ws usr [] 0 n n

-- `Rio_readnb` and `Rio_readlineb`: on -1 the process ends with status 0.
unfoldable pub or_exit : Outcome Left → Outcome Left
or_exit run = do left ← run; if ltb_ℤ left.value (pos 0) then exit 0 else ok left

-- `Rio_writen`
unfoldable pub rio_writen_or_exit : List Write → Array ℕ → ℕ → Outcome (List ℕ)
unfolding rio_writen
rio_writen_or_exit ws usr n = do
  (r, out) ← rio_writen ws usr n
  if eqb_ℤ r (pos n) then ok out else exit 0
