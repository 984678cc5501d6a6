-- ===== src/Shell.antt =====
-- internal/shell/shell.go: the methods of a shell's session; `Start` is in Agent/Serve. The terminal's
-- file and the calls on the command's process are parameters, with the state of the world passed on.
use netso.Common.{Bool, true, false, Option, none, some, ◌≡◌}
use netso.Common.Bytes.{Bytes}
use netso.Common.Result.{Result}

-- `cmd.Wait` is nothing when it does not return.
pub record System (W File Process : Type 0) : Type 0 where
  pub read : File → W → W × Result Bytes Bytes
  pub write : File → Bytes → W → W × Option Bytes
  pub close : File → W → W
  pub kill : Process → W → W
  pub wait : Option Process → W → Option W

-- `process` is `cmd.Process`.
pub record Session (File Process : Type 0) : Type 0 where
  pub file : File
  pub process : Option Process

module _ {W File Process : Type 0} (system : System W File Process) where
  abbrev pub read : Session File Process → W → W × Result Bytes Bytes
  read s w = system.read s.file w

  abbrev pub write : Session File Process → Bytes → W → W × Option Bytes
  write s b w = system.write s.file b w

  abbrev pub kill_any : Option Process → W → W
  kill_any none w = w
  kill_any (some p) w = system.kill p w

  unfoldable pub close : Session File Process → W → Option W
  close s w = system.wait s.process (kill_any s.process (system.close s.file w))

  -- `Kill` ends a process, whatever it ignores; `Wait` returns when there is no process or it has
  -- ended, and the process has then been waited for.
  pub record IsSystem (runs : Process → W → Bool) (waited : Process → W → Bool) : Type 0 where
    pub kill : (p : Process) (w : W) → runs p (system.kill p w) ≡ false
    pub wait_none : (w : W) → (w' : W) × (system.wait none w ≡ some w')
    pub wait_some :
        (p : Process) (w : W)
        → runs p w ≡ false
        → (w' : W) × (system.wait (some p) w ≡ some w') × (waited p w' ≡ true)

  -- No process, or one that has been waited for.
  abbrev pub IsReaped : (Process → W → Bool) → Option Process → W → Type 0
  IsReaped waited none w = Unit
  IsReaped waited (some p) w = waited p w ≡ true

  -- Close returns, whatever the shell does when its terminal is closed, and leaves no process behind.
  close-IsReaped :
      (runs waited : Process → W → Bool)
      → IsSystem runs waited
      → (s : Session File Process) (w : W)
      → (w' : W) × (close s w ≡ some w') × IsReaped waited s.process w'
  unfolding close
  close-IsReaped runs waited sys s w = reaped s.process (system.close s.file w)
    where
      reaped :
          (process : Option Process) (v : W)
          → (w' : W) × (system.wait process (kill_any process v) ≡ some w')
            × IsReaped waited process w'
      reaped none v = let (w', back) = sys.wait_none v in (w', back, tt)
      reaped (some p) v = sys.wait_some p (system.kill p v) (sys.kill p v)
