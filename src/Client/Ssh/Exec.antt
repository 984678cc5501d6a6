-- ===== src/Client/Ssh/Exec.antt =====
-- cmd/netso/main.go: what `netso ssh -exec` prints.
use netso.Common.{ℕ, ◌+◌, ◌≤◌, ◌≡◌, ap, ◌∙◌, true, none, List, ◌++◌, length}
use netso.Common.Bytes.{Bytes, codes}
use netso.Common.Result.{ok}
use netso.Secure
use netso.Secure.{Noise, Session}
use netso.Secure.Drain.{drain, Gives, IsOutput, drain-Gives, joined}
use netso.Client.Ssh.{Host, run_exec}

module _ {W : Type 0} (host : Host W) (noise : Noise) where
  -- When the command is sent, and the reads then give some texts and an error, `-exec` returns and
  -- has printed these texts one after the other and nothing else, on fuel for one read more than
  -- there are texts. A print adds its text to what was printed, and reads and writes print nothing.
  pub run_exec-prints :
      (printed : W → Bytes) (fuel : ℕ) (sess : Session noise.Cipher) (cmd : Bytes) (w : W)
      (ps : List Bytes)
      → IsOutput host.conn noise host.print printed
      → ((p : Bytes) (sess : Session noise.Cipher) (w : W)
          → printed (Secure.write host.conn noise p sess w).1 ≡ printed w)
      → let sent = Secure.write host.conn noise (cmd ++ codes "; exit\n") sess w in
        sent.2 ≡ none
        → Gives host.conn noise host.print sent.0 sent.1 ps
        → length ps + 1 ≤ fuel
        → (w' : W) × (run_exec host noise fuel sess cmd w ≡ ok (true, w'))
          × (printed w' ≡ printed w ++ joined ps)
  unfolding run_exec
  run_exec-prints printed fuel sess cmd w ps o writes sent_ok g enough =
      let text = cmd ++ codes "; exit\n" in
      let sess' = (Secure.write host.conn noise text sess w).0 in
      let w' = (Secure.write host.conn noise text sess w).1 in
      let (returned, output) =
        drain-Gives host.conn noise host.print printed fuel sess' w' ps o g enough in
      (
        (drain host.conn noise host.print fuel sess' w').1,
        rw (sent_ok, run_exec)
            (ap (λ b. ok (b, (drain host.conn noise host.print fuel sess' w').1)) returned),
        output ∙ ap (λ l. l ++ joined ps) (writes text sess w),
      )
