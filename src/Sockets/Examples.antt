-- ===== src/Sockets/Examples.antt =====
-- p5/cs537.c: the theorems on sockets at concrete inputs.
use sp.Base.{some, [], ◌∷◌, pos, CString}
use sp.Sockets.{Net, listenq, any_address, open_listenfd_or_exit, open_clientfd_or_exit}
use sp.Sockets.Open.{Opens, listening, connected, client_address, open_or_stop}

-- Every call succeeds, and a new socket is the descriptor 3, as all answers are.
abbrev net : Net
net = record { answer = λ h. pos 3; h_addr = λ h. some (127 ∷ 0 ∷ 0 ∷ 1 ∷ []) }

abbrev hostname : CString
hostname = b'h' ∷ []

open_or_stop_example :
    Opens net (listening (any_address (pos 8080)) listenq) (open_listenfd_or_exit net (pos 8080) [])
    × Opens net
        (connected (client_address net hostname (pos 8080) []))
        (open_clientfd_or_exit net hostname (pos 8080) [])
open_or_stop_example = open_or_stop net hostname (pos 8080) []
