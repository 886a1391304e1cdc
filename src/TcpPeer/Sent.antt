-- ===== src/TcpPeer/Sent.antt =====
-- What is sent, over the rounds of `Process`.
use cpp_programming.Base.{◌≡◌, Bool, List, ◌++◌, if◌then◌else◌, Result, ok, err}
use cpp_programming.Base.Actions.{give, ◌>>=◌, ◌>>◌}
use cpp_programming.Text.{Text}
use cpp_programming.Text.Calls.{SysWrite}
use cpp_programming.TcpPeer.Peer.{Peer, Act}
use cpp_programming.TcpPeer.Rounds.{receive, take_input, send_rest}

-- What `Write` leaves is the end of what it was given.
abbrev EndOf : Text → Result (Text × List SysWrite) → Type 0
EndOf s (ok r) = (t : Text) × (t ++ r.0 ≡ s)
EndOf s (err e) = Unit

-- The steps of a round, whatever is made of their results.
abbrev round_steps {ℓ} : {A : Type ℓ} → Bool → Bool → Bool → Bool → (Bool → Bool → A) → A → Act A
round_steps readable before typed due f last = do
  stop ← receive readable before
  on ← take_input typed
  if on then (do rest ← send_rest due; give (f stop rest)) else give last
